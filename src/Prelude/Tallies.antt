-- ===== src/Prelude/Tallies.antt =====
-- Exact counts of a table after an update, and what sorting keeps.
use Prim.Native.Nat.{ℕ, suc, ◌+◌}
use mathlib.Core.Path.{◌≡◌, refl, sym, ap, ◌∙◌, subst}
use mathlib.Core.Logic.{◌≢◌, ◌⊎◌, inl, inr}
use mathlib.Core.Bool.{Bool, true, false, not, ◌||◌}
use mathlib.Core.Option.{some, some-injective}
use mathlib.Core.List.{List, [], ◌∷◌, ◌++◌, map}
use native.Mathlib.Omega.{arith}
use ai_cv_screening.Prelude.Tests.{◌==◌, if◌then◌else◌, Bool-cases, ==→eq}
use ai_cv_screening.Prelude.Lists.{length, count, any, insert_by, sort_by, All}
use ai_cv_screening.Prelude.Table.{find, update, IsKeyed}

pub ==_sym : (a b : ℕ) → (a == b) ≡ (b == a)
==_sym a b = ground arith

pub ==_ne : (a b : ℕ) → a ≢ b → (a == b) ≡ false
==_ne a b h = ground arith

pub or_assoc : (a b c : Bool) → ((a || b) || c) ≡ (a || (b || c))
or_assoc true b c = refl
or_assoc false b c = refl

pub or_swap : (a b c : Bool) → (a || (b || c)) ≡ (b || (a || c))
or_swap true true c = refl
or_swap true false c = refl
or_swap false b c = refl

pub apart : (a b : ℕ) → (a == b) ≡ false → a ≢ b
apart a b h = ground arith

pub or_true : (a : Bool) → (a || true) ≡ true
or_true true = refl
or_true false = refl

pub or_false : (a : Bool) → (a || false) ≡ a
or_false true = refl
or_false false = refl

module _ {ℓ} {A : Type ℓ} where
  pub any-append : (p : A → Bool) (xs ys : List A) → any p (xs ++ ys) ≡ (any p xs || any p ys)
  any-append p [] ys = refl
  any-append p (x ∷ xs) ys = rw (any-append p xs ys, or_assoc (p x) (any p xs) (any p ys))

  pub length-append : (xs ys : List A) → length (xs ++ ys) ≡ length xs + length ys
  length-append [] ys = omega arith
  length-append (x ∷ xs) ys = omega (arith, length-append xs ys)

  length-insert_by :
      (le : A → A → Bool) (x : A) (ys : List A) → length (insert_by le x ys) ≡ suc (length ys)
  length-insert_by le x [] = refl
  length-insert_by le x (y ∷ ys) = elim (Bool-cases (le x y)) [
    | inl e ↦ rw e
    | inr e ↦ rw (e, length-insert_by le x ys)
  ]

  pub length-sort_by : (le : A → A → Bool) (xs : List A) → length (sort_by le xs) ≡ length xs
  length-sort_by le [] = refl
  length-sort_by le (x ∷ xs) = length-insert_by le x (sort_by le xs) ∙ ap suc (length-sort_by le xs)

  any-insert_by :
      (p : A → Bool) (le : A → A → Bool) (x : A) (ys : List A)
      → any p (insert_by le x ys) ≡ (p x || any p ys)
  any-insert_by p le x [] = refl
  any-insert_by p le x (y ∷ ys) = elim (Bool-cases (le x y)) [
    | inl e ↦ rw e
    | inr e ↦ rw (e, any-insert_by p le x ys, or_swap (p x) (p y) (any p ys))
  ]

  pub any-sort_by :
      (p : A → Bool) (le : A → A → Bool) (xs : List A) → any p (sort_by le xs) ≡ any p xs
  any-sort_by p le [] = refl
  any-sort_by p le (x ∷ xs) =
      any-insert_by p le x (sort_by le xs) ∙ ap (λ b. p x || b) (any-sort_by p le xs)

  pub count-split :
      (p : A → Bool) (xs : List A) → count p xs + count (λ x. not (p x)) xs ≡ length xs
  count-split p [] = omega arith
  count-split p (x ∷ xs) = ground (arith, count-split p xs)

  count-or :
      (p q : A → Bool)
      → ((x : A) → p x ≡ true → q x ≡ false)
      → (xs : List A) → count (λ x. p x || q x) xs ≡ count p xs + count q xs
  count-or p q h [] = omega arith
  count-or p q h (x ∷ xs) = elim (Bool-cases (p x)) [
    | inl e ↦ rw (e, h x e) (omega (arith, count-or p q h xs))
    | inr e ↦ rw e (omega (arith, count-or p q h xs))
  ]

  pub count-none : (xs : List A) → count (λ x. false) xs ≡ 0
  count-none [] = refl
  count-none (x ∷ xs) = omega (arith, count-none xs)

module _ {ℓ} {A : Type ℓ} (key : A → ℕ) where
  pub update-update :
      (k : ℕ) (f g : A → A)
      → ((a : A) → key (f a) ≡ key a)
      → (xs : List A) → update key k g (update key k f xs) ≡ update key k (λ a. g (f a)) xs
  update-update k f g keep [] = refl
  update-update k f g keep (x ∷ xs) = elim (Bool-cases (key x == k)) [
    | inl e ↦ rw (e, keep x, e)
    | inr e ↦ rw (e, e, update-update k f g keep xs)
  ]

  pub keys-update :
      (k : ℕ) (f : A → A)
      → ((a : A) → key (f a) ≡ key a)
      → (xs : List A) → map key (update key k f xs) ≡ map key xs
  keys-update k f keep [] = refl
  keys-update k f keep (x ∷ xs) = elim (Bool-cases (key x == k)) [
    | inl e ↦ rw (e, keep x)
    | inr e ↦ rw (e, keys-update k f keep xs)
  ]

  -- the two ways to find a row of a table that is not empty
  pub find-cases :
      (k : ℕ) (x : A) (xs : List A) {a : A}
      → find key k (x ∷ xs) ≡ some a
      → (((key x == k) ≡ true) × (x ≡ a)) ⊎ (((key x == k) ≡ false) × (find key k xs ≡ some a))
  find-cases k x xs {a} h = elim (Bool-cases (key x == k)) [
    | inl e ↦ inl (e, some-injective x a (sym (pick e) ∙ h))
    | inr e ↦ inr (e, sym (skip e) ∙ h)
  ]
    where
      pick : (key x == k) ≡ true → find key k (x ∷ xs) ≡ some x
      pick e = rw e

      skip : (key x == k) ≡ false → find key k (x ∷ xs) ≡ find key k xs
      skip e = rw e

  pub count-update :
      (q : A → Bool) (k : ℕ) (f : A → A) (xs : List A) {a : A}
      → find key k xs ≡ some a
      → count q (update key k f xs) + (if q a then 1 else 0)
        ≡ count q xs + (if q (f a) then 1 else 0)
  count-update q k f [] h = cc
  count-update q k f (x ∷ xs) {a} h = elim (find-cases k x xs h) [
    | inl (e, same) ↦ rw (e, same) (omega arith)
    | inr (e, found) ↦ rw e (omega (arith, count-update q k f xs found))
  ]

  pub All-update {κ} :
      (P : A → Type κ) (k : ℕ) (f : A → A) (xs : List A) {a : A}
      → find key k xs ≡ some a
      → P (f a)
      → All P xs
      → All P (update key k f xs)
  All-update P k f [] h hp hs = tt
  All-update P k f (x ∷ xs) {a} h hp hs = elim (find-cases k x xs h) [
    | inl (e, same) ↦ rw (e, same) (hp, hs.1)
    | inr (e, found) ↦ rw e (hs.0, All-update P k f xs found hp hs.1)
  ]

  pub All-find {κ} :
      (P : A → Type κ) (k : ℕ) (xs : List A) {a : A} → find key k xs ≡ some a → All P xs → P a
  All-find P k [] h hs = cc
  All-find P k (x ∷ xs) {a} h hs = elim (find-cases k x xs h) [
    | inl (e, same) ↦ subst P same hs.0
    | inr (e, found) ↦ All-find P k xs found hs.1
  ]

  count-absent : (k : ℕ) (xs : List A) → All (λ x. k ≢ key x) xs → count (λ x. k == key x) xs ≡ 0
  count-absent k [] h = refl
  count-absent k (x ∷ xs) h = rw (==_ne k (key x) h.0) (omega (arith, count-absent k xs h.1))

  -- a key of a keyed table is that of one row
  count-key :
      (k : ℕ) (xs : List A) {a : A}
      → IsKeyed key xs
      → find key k xs ≡ some a
      → count (λ x. k == key x) xs ≡ 1
  count-key k [] keyed h = cc
  count-key k (x ∷ xs) keyed h = elim (find-cases k x xs h) [
    | inl (e, same) ↦
        rw (==_sym k (key x), e)
          (omega (
            arith,
            count-absent k xs (subst (λ j. All (λ y. j ≢ key y) xs) (==→eq (key x) k e) keyed.0),
          ))
    | inr (e, found) ↦ rw (==_sym k (key x), e) (omega (arith, count-key k xs keyed.1 found))
  ]

  any-absent : (k : ℕ) (ys : List A) → All (λ y. k ≢ key y) ys → any (λ y. key y == k) ys ≡ false
  any-absent k [] h = refl
  any-absent k (y ∷ ys) h = rw (==_ne (key y) k (λ e. h.0 (sym e)), any-absent k ys h.1)

  -- the rows of a keyed table that another keyed table has too, where it has no others
  pub count-selected :
      (xs ys : List A)
      → IsKeyed key xs
      → IsKeyed key ys
      → All (λ y. find key (key y) xs ≡ some y) ys
      → count (λ x. any (λ y. key y == key x) ys) xs ≡ length ys
  count-selected xs [] hx hy found = count-none xs
  count-selected xs (y ∷ ys) hx hy found =
      count-or (λ x. key y == key x) (λ x. any (λ z. key z == key x) ys)
        (λ x e.
          any-absent (key x) ys
            (subst (λ j. All (λ z. j ≢ key z) ys) (==→eq (key y) (key x) e) hy.0))
        xs
      ∙ omega (arith, count-key (key y) xs hx found.0, count-selected xs ys hx hy.1 found.1)
