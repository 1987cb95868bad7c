-- ===== src/Prelude/Table.antt =====
-- Tables of rows with a primary key: the lookup of a row, the update of one row, the update of all
-- rows that a query selects, and what such updates keep row by row.
use Prim.Native.Nat.{ℕ, zero, suc, ◌+◌, ◌≤◌}
use mathlib.Core.Path.{◌≡◌, refl, sym}
use mathlib.Core.Logic.{◌≢◌, inl, inr}
use mathlib.Core.Bool.{Bool, true}
use mathlib.Core.Option.{Option, none, some}
use mathlib.Core.List.{List, [], ◌∷◌}
use native.Mathlib.Omega.{arith}
use ai_cv_screening.Prelude.Tests.{◌==◌, if◌then◌else◌, Bool-cases, ==_refl}
use ai_cv_screening.Prelude.Lists.{filter, count, take, insert_by, sort_by, All, All-insert_by}

module _ {ℓ} {A : Type ℓ} where
  -- `for row in rows: f(row)` over the rows that a query selects by `p`
  abbrev pub update_where : (A → Bool) → (A → A) → List A → List A
  update_where p f [] = []
  update_where p f (x ∷ xs) = (if p x then f x else x) ∷ update_where p f xs

  pub All-imp {κ μ} :
      (P : A → Type κ) (Q : A → Type μ)
      → ((a : A) → P a → Q a)
      → (xs : List A) → All P xs
      → All Q xs
  All-imp P Q f [] h = tt
  All-imp P Q f (x ∷ xs) h = (f x h.0, All-imp P Q f xs h.1)

  pub All-both {κ μ ν} :
      (P : A → Type κ) (Q : A → Type μ) (R : A → Type ν)
      → ((a : A) → P a → Q a → R a)
      → (xs : List A) → All P xs
      → All Q xs
      → All R xs
  All-both P Q R f [] h k = tt
  All-both P Q R f (x ∷ xs) h k = (f x h.0 k.0, All-both P Q R f xs h.1 k.1)

  pub All-filter {κ} :
      (P : A → Type κ) (p : A → Bool) (xs : List A) → All P xs → All P (filter p xs)
  All-filter P p [] h = tt
  All-filter P p (x ∷ xs) h = elim (Bool-cases (p x)) [
    | inl e ↦ rw e (h.0, All-filter P p xs h.1)
    | inr e ↦ rw e (All-filter P p xs h.1)
  ]

  pub filter_sound : (p : A → Bool) (xs : List A) → All (λ a. p a ≡ true) (filter p xs)
  filter_sound p [] = tt
  filter_sound p (x ∷ xs) = elim (Bool-cases (p x)) [
    | inl e ↦ rw e (e, filter_sound p xs)
    | inr e ↦ rw e (filter_sound p xs)
  ]

  pub count-update_where-le :
      (q p : A → Bool) (f : A → A)
      → ((a : A) → p a ≡ true → q (f a) ≡ true → q a ≡ true)
      → (xs : List A) → count q (update_where p f xs) ≤ count q xs
  count-update_where-le q p f h [] = omega arith
  count-update_where-le q p f h (x ∷ xs) = ground (arith, h x, count-update_where-le q p f h xs)

-- Two tables of the same length, related row by row.
module _ {ℓ} {A : Type ℓ} (R : A → A → Type 0) where
  abbrev pub Pointwise : List A → List A → Type 0
  Pointwise [] [] = Unit
  Pointwise [] (y ∷ ys) = ⊥
  Pointwise (x ∷ xs) [] = ⊥
  Pointwise (x ∷ xs) (y ∷ ys) = R x y × Pointwise xs ys

  pub Pointwise-refl : ((a : A) → R a a) → (xs : List A) → Pointwise xs xs
  Pointwise-refl r [] = tt
  Pointwise-refl r (x ∷ xs) = (r x, Pointwise-refl r xs)

  pub Pointwise-trans :
      ((a b c : A) → R a b → R b c → R a c)
      → (xs ys zs : List A) → Pointwise xs ys
      → Pointwise ys zs
      → Pointwise xs zs
  Pointwise-trans t [] [] [] h k = tt
  Pointwise-trans t [] [] (z ∷ zs) h k = absurd k
  Pointwise-trans t [] (y ∷ ys) zs h k = absurd h
  Pointwise-trans t (x ∷ xs) [] zs h k = absurd h
  Pointwise-trans t (x ∷ xs) (y ∷ ys) [] h k = absurd k
  Pointwise-trans t (x ∷ xs) (y ∷ ys) (z ∷ zs) h k =
      (t x y z h.0 k.0, Pointwise-trans t xs ys zs h.1 k.1)

  pub Pointwise-update_where :
      (p : A → Bool) (f : A → A)
      → ((a : A) → R a a)
      → ((a : A) → p a ≡ true → R a (f a))
      → (xs : List A) → Pointwise xs (update_where p f xs)
  Pointwise-update_where p f r h [] = tt
  Pointwise-update_where p f r h (x ∷ xs) = elim (Bool-cases (p x)) [
    | inl e ↦ rw e (h x e, Pointwise-update_where p f r h xs)
    | inr e ↦ rw e (r x, Pointwise-update_where p f r h xs)
  ]

module _ {ℓ} {A : Type ℓ} (key : A → ℕ) where
  -- `select(Model).where(Model.id == k)` with `scalar_one_or_none`, and `db.get(Model, k)`
  abbrev pub find : ℕ → List A → Option A
  find k [] = none
  find k (x ∷ xs) = if key x == k then some x else find k xs

  -- the assignments to the fields of the row with key `k`
  abbrev pub update : ℕ → (A → A) → List A → List A
  update k f [] = []
  update k f (x ∷ xs) = if key x == k then f x ∷ xs else x ∷ update k f xs

  abbrev pub Apart : A → List A → Type 0
  Apart x ys = All (λ y. key x ≢ key y) ys

  -- the primary keys are distinct
  abbrev pub IsKeyed : List A → Type 0
  IsKeyed [] = Unit
  IsKeyed (x ∷ xs) = Apart x xs × IsKeyed xs

  pub find-key : (k : ℕ) (xs : List A) {a : A} → find k xs ≡ some a → key a ≡ k
  find-key k [] h = cc
  find-key k (x ∷ xs) {a} h = ground (arith, find-key k xs {a = a})

  pub find-update_ne :
      (k j : ℕ) (f : A → A)
      → ((a : A) → key (f a) ≡ key a)
      → k ≢ j
      → (xs : List A) → find j (update k f xs) ≡ find j xs
  find-update_ne k j f keep ne [] = refl
  find-update_ne k j f keep ne (x ∷ xs) = ground (arith, keep x, find-update_ne k j f keep ne xs)

  pub find-update_self :
      (k : ℕ) (f : A → A)
      → ((a : A) → key (f a) ≡ key a)
      → (xs : List A) {a : A} → find k xs ≡ some a
      → find k (update k f xs) ≡ some (f a)
  find-update_self k f keep [] h = cc
  find-update_self k f keep (x ∷ xs) {a} h =
      ground (arith, keep x, find-update_self k f keep xs {a = a})

  pub count-update-le :
      (q : A → Bool) (k : ℕ) (f : A → A) (xs : List A) → count q (update k f xs) ≤ count q xs + 1
  count-update-le q k f [] = omega arith
  count-update-le q k f (x ∷ xs) = ground (arith, count-update-le q k f xs)

  -- an update that keeps `q` false does not raise the count
  pub count-update-le_of :
      (q : A → Bool) (k : ℕ) (f : A → A)
      → ((a : A) → q (f a) ≡ true → q a ≡ true)
      → (xs : List A) → count q (update k f xs) ≤ count q xs
  count-update-le_of q k f h [] = omega arith
  count-update-le_of q k f h (x ∷ xs) = ground (arith, h x, count-update-le_of q k f h xs)

  pub Pointwise-update :
      (R : A → A → Type 0) (k : ℕ) (f : A → A)
      → ((a : A) → R a a)
      → (xs : List A) → ((a : A) → find k xs ≡ some a → R a (f a))
      → Pointwise R xs (update k f xs)
  Pointwise-update R k f r [] h = tt
  Pointwise-update R k f r (x ∷ xs) h = elim (Bool-cases (key x == k)) [
    | inl e ↦ rw e (h x (rw e), Pointwise-refl R r xs)
    | inr e ↦ rw e (r x, Pointwise-update R k f r xs (λ a p. h a (rw e p)))
  ]

  Apart-filter : (x : A) (p : A → Bool) (ys : List A) → Apart x ys → Apart x (filter p ys)
  Apart-filter x p ys h = All-filter (λ y. key x ≢ key y) p ys h

  pub IsKeyed-filter : (p : A → Bool) (xs : List A) → IsKeyed xs → IsKeyed (filter p xs)
  IsKeyed-filter p [] h = tt
  IsKeyed-filter p (x ∷ xs) h = elim (Bool-cases (p x)) [
    | inl e ↦ rw e (Apart-filter x p xs h.0, IsKeyed-filter p xs h.1)
    | inr e ↦ rw e (IsKeyed-filter p xs h.1)
  ]

  Apart-take : (x : A) (n : ℕ) (ys : List A) → Apart x ys → Apart x (take n ys)
  Apart-take x zero ys h = tt
  Apart-take x (suc n) [] h = tt
  Apart-take x (suc n) (y ∷ ys) h = (h.0, Apart-take x n ys h.1)

  pub IsKeyed-take : (n : ℕ) (xs : List A) → IsKeyed xs → IsKeyed (take n xs)
  IsKeyed-take zero xs h = tt
  IsKeyed-take (suc n) [] h = tt
  IsKeyed-take (suc n) (x ∷ xs) h = (Apart-take x n xs h.0, IsKeyed-take n xs h.1)

  IsKeyed-insert_by :
      (le : A → A → Bool) (x : A) (ys : List A)
      → Apart x ys
      → IsKeyed ys
      → IsKeyed (insert_by le x ys)
  IsKeyed-insert_by le x [] a h = (a, h)
  IsKeyed-insert_by le x (y ∷ ys) a h = elim (Bool-cases (le x y)) [
    | inl e ↦ rw e (a, h)
    | inr e ↦ rw e (
      All-insert_by (λ z. key y ≢ key z) le x ys (λ p. a.0 (sym p)) h.0,
      IsKeyed-insert_by le x ys a.1 h.1,
    )
  ]

  Apart-sort_by : (le : A → A → Bool) (x : A) (ys : List A) → Apart x ys → Apart x (sort_by le ys)
  Apart-sort_by le x [] h = tt
  Apart-sort_by le x (y ∷ ys) h =
      All-insert_by (λ z. key x ≢ key z) le y (sort_by le ys) h.0 (Apart-sort_by le x ys h.1)

  pub IsKeyed-sort_by : (le : A → A → Bool) (xs : List A) → IsKeyed xs → IsKeyed (sort_by le xs)
  IsKeyed-sort_by le [] h = tt
  IsKeyed-sort_by le (x ∷ xs) h =
      IsKeyed-insert_by le x (sort_by le xs) (Apart-sort_by le x xs h.0) (IsKeyed-sort_by le xs h.1)

  -- In a keyed table each row is what its key finds.
  pub IsKeyed-find : (xs : List A) → IsKeyed xs → All (λ r. find (key r) xs ≡ some r) xs
  IsKeyed-find [] h = tt
  IsKeyed-find (x ∷ xs) h = (
    rw (==_refl (key x)),
    All-both (λ r. key x ≢ key r) (λ r. find (key r) xs ≡ some r)
        (λ r. find (key r) (x ∷ xs) ≡ some r) (λ r ne f. ground arith) xs h.0 (IsKeyed-find xs h.1),
  )
