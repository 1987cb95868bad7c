-- ===== src/Pipeline/Ranking.antt =====
-- What `rank_and_filter_candidate_batch` of app/stage2_retrieval/evidence_extractor.py selects.
use mathlib.Core.Bool.{true≢false}
use ai_cv_screening.Prelude.{
  ℕ, zero, suc, ◌≤◌, Bool, true, false, List, [], ◌∷◌, ◌==◌, ==_refl, ok, length, any, take, filter,
  insert_by, sort_by, All, All-take, IsSorted, IsSorted-sort_by, le→leb, length-take-le, Bool-cases,
  ◌≡◌, ◌⊎◌, refl, sym, ap, ◌∙◌, inl, inr,
}
use ai_cv_screening.Prelude.Table.{All-both, All-filter, filter_sound}
use ai_cv_screening.Prelude.Tallies.{or_true}
use ai_cv_screening.Campaign.Cutoff.{eligible, candidate_sort_key}
use ai_cv_screening.Campaign.Cutoff.Barrier.{result_total, result_trans}
use ai_cv_screening.Pipeline.Stages.{
  Retrieved, retrieved_le, unsortable, ranked, rank_and_filter_candidate_batch, is_shortlisted_in,
}

module _ {ℓ κ} {A : Type ℓ} (P : A → Type κ) where
  All-insert_back :
      (le : A → A → Bool) (x : A) (xs : List A) → All P (insert_by le x xs) → P x × All P xs
  All-insert_back le x [] h = h
  All-insert_back le x (y ∷ ys) h = elim (Bool-cases (le x y)) [
    | inl e ↦ rw e at h
    | inr e ↦
        let k : P y × All P (insert_by le x ys) = rw e at h in
        let back = All-insert_back le x ys k.1 in (back.0, (k.0, back.1))
  ]

  All-sort_back : (le : A → A → Bool) (xs : List A) → All P (sort_by le xs) → All P xs
  All-sort_back le [] h = tt
  All-sort_back le (x ∷ xs) h =
      let back = All-insert_back le x (sort_by le xs) h in (back.0, All-sort_back le xs back.1)

  All-filter_back :
      (p : A → Bool) (xs : List A) → All P (filter p xs) → All (λ x. p x ≡ true → P x) xs
  All-filter_back p [] h = tt
  All-filter_back p (x ∷ xs) h = elim (Bool-cases (p x)) [
    | inl e ↦ let k : P x × All P (filter p xs) = rw e at h in (λ t. k.0, All-filter_back p xs k.1)
    | inr e ↦
        let k : All P (filter p xs) = rw e at h in
        (λ t. absurd (true≢false (sym t ∙ e)), All-filter_back p xs k)
  ]

IsSorted-filter :
    {A : Type 0} (le : A → A → Bool) (p : A → Bool) (xs : List A)
    → IsSorted le xs
    → IsSorted le (filter p xs)
IsSorted-filter le p [] h = tt
IsSorted-filter le p (x ∷ xs) h = elim (Bool-cases (p x)) [
  | inl e ↦ rw e (All-filter (λ y. le x y ≡ true) p xs h.0, IsSorted-filter le p xs h.1)
  | inr e ↦ rw e (IsSorted-filter le p xs h.1)
]

IsSorted-take :
    {A : Type 0} (le : A → A → Bool) (n : ℕ) (xs : List A)
    → IsSorted le xs
    → IsSorted le (take n xs)
IsSorted-take le zero xs h = tt
IsSorted-take le (suc n) [] h = tt
IsSorted-take le (suc n) (x ∷ xs) h =
    (All-take (λ y. le x y ≡ true) n xs h.0, IsSorted-take le n xs h.1)

-- selected, or behind all that are selected, which are as many as there may be
abbrev pub SelectedOrBehind : ℕ → List Retrieved → Retrieved → Type 0
SelectedOrBehind n ys x =
    (is_shortlisted_in ys x.candidate_id ≡ true)
    ⊎ ((length ys ≡ n) × All (λ y. retrieved_le y x ≡ true) ys)

take-SelectedOrBehind :
    (n : ℕ) (xs : List Retrieved)
    → IsSorted retrieved_le xs
    → All (SelectedOrBehind n (take n xs)) xs
take-SelectedOrBehind zero xs h = behind xs
  where
    behind : (ys : List Retrieved) → All (SelectedOrBehind zero []) ys
    behind [] = tt
    behind (y ∷ ys) = (inr (refl, tt), behind ys)
take-SelectedOrBehind (suc n) [] h = tt
take-SelectedOrBehind (suc n) (x ∷ xs) h = (
  inl (rw (==_refl x.candidate_id)),
  All-both (λ y. retrieved_le x y ≡ true) (SelectedOrBehind n (take n xs))
      (SelectedOrBehind (suc n) (x ∷ take n xs)) after xs h.0 (take-SelectedOrBehind n xs h.1),
)
  where
    after :
        (y : Retrieved)
        → retrieved_le x y ≡ true
        → SelectedOrBehind n (take n xs) y
        → SelectedOrBehind (suc n) (x ∷ take n xs) y
    after y le (inl e) = inl (rw e (or_true (x.candidate_id == y.candidate_id)))
    after y le (inr (full, later)) = inr (ap suc full, (le, later))

abbrev pub is_eligible : Retrieved → Bool
is_eligible x = eligible x.evidence.payload

retrieved_le-IsSorted : (xs : List Retrieved) → IsSorted retrieved_le (sort_by retrieved_le xs)
retrieved_le-IsSorted xs =
    IsSorted-sort_by retrieved_le
      (λ a b.
        result_total (candidate_sort_key a.evidence.payload)
          (candidate_sort_key b.evidence.payload))
      (λ a b c.
        result_trans (candidate_sort_key a.evidence.payload) (candidate_sort_key b.evidence.payload)
          (candidate_sort_key c.evidence.payload))
      xs

-- what the ranked list is
abbrev pub IsBest : ℕ → List Retrieved → List Retrieved → Type 0
IsBest cutoff xs ys =
    (length ys ≤ cutoff)
    × All (λ y. is_eligible y ≡ true) ys
    × IsSorted retrieved_le ys
    × All (λ x. is_eligible x ≡ true → SelectedOrBehind cutoff ys x) xs

ranked-IsBest : (cutoff : ℕ) (xs : List Retrieved) → IsBest cutoff xs (ranked cutoff xs)
ranked-IsBest cutoff xs =
    let sorted = sort_by retrieved_le xs in
    let fit = filter is_eligible sorted in
    let fit_sorted = IsSorted-filter retrieved_le is_eligible sorted (retrieved_le-IsSorted xs) in
    (
      length-take-le cutoff fit,
      All-take (λ y. is_eligible y ≡ true) cutoff fit (filter_sound is_eligible sorted),
      IsSorted-take retrieved_le cutoff fit fit_sorted,
      All-sort_back (λ x. is_eligible x ≡ true → SelectedOrBehind cutoff (ranked cutoff xs) x)
          retrieved_le xs
          (All-filter_back (SelectedOrBehind cutoff (ranked cutoff xs)) is_eligible sorted
            (take-SelectedOrBehind cutoff fit fit_sorted)),
    )

-- For a cutoff between 1 and 15, where every candidate has a composite score, the ranking returns: at
-- most as many candidates as the cutoff, all of them eligible, in the order of their sort keys; and an
-- eligible candidate that it does not return is behind all that it returns in that order, which are
-- then as many as the cutoff.
pub rank_and_filter_candidate_batch-IsBest :
    (cutoff : ℕ) (xs : List Retrieved)
    → 1 ≤ cutoff
    → cutoff ≤ 15
    → any unsortable xs ≡ false
    → (ys : List Retrieved) × (rank_and_filter_candidate_batch cutoff xs ≡ ok ys)
      × IsBest cutoff xs ys
unfolding rank_and_filter_candidate_batch
rank_and_filter_candidate_batch-IsBest cutoff xs low high scored = (
  ranked cutoff xs,
  rw (le→leb 1 cutoff low, le→leb cutoff 15 high, scored),
  ranked-IsBest cutoff xs,
)
