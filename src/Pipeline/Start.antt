-- ===== src/Pipeline/Start.antt =====
-- Lemmas on the state in which the synchronous pipeline (app/orchestrator.py) starts.
use ai_cv_screening.Prelude.{
  ℕ, suc, Bool, true, false, some, List, [], ◌∷◌, ◌==◌, count, length, map, All, Bool-cases, ==→eq,
  ==_refl, ◌≡◌, ◌≢◌, refl, sym, ap, inl, inr, arith,
}
use ai_cv_screening.Prelude.Table.{find, IsKeyed, All-imp}
use ai_cv_screening.Prelude.Tallies.{==_ne, or_true}
use ai_cv_screening.Pipeline.Ledger.{Entry, entry_key}
use ai_cv_screening.Pipeline.Stages.{Applicant}
use ai_cv_screening.Pipeline.Run.{applicant_id, distinct, new_entry, is_settled, start}
use ai_cv_screening.Pipeline.Accounting.{booked, was_reviewed, member}
use ai_cv_screening.Pipeline.Books.{Books, Test, tests, tallies, settled_in, Sound}
use ai_cv_screening.Pipeline.Filter.{Fresh}

abbrev pub ids_of : List Applicant → List ℕ
ids_of xs = map applicant_id xs

member_absent :
    (k : ℕ) (xs : List Applicant)
    → All (λ (x : Applicant). k ≢ x.candidate_id) xs
    → member (ids_of xs) k ≡ false
member_absent k [] h = refl
member_absent k (x ∷ xs) h = rw (==_ne x.candidate_id k (λ e. h.0 (sym e)), member_absent k xs h.1)

-- distinct identifiers are kept by the dict
pub distinct_keyed :
    (xs : List Applicant) → IsKeyed applicant_id xs → distinct (ids_of xs) ≡ ids_of xs
distinct_keyed [] h = refl
distinct_keyed (x ∷ xs) h = rw (member_absent x.candidate_id xs h.0, distinct_keyed xs h.1)

pub All-members :
    (xs : List Applicant) → All (λ (x : Applicant). member (ids_of xs) x.candidate_id ≡ true) xs
All-members [] = tt
All-members (x ∷ xs) = (
  rw (==_refl x.candidate_id),
  All-imp (λ (y : Applicant). member (ids_of xs) y.candidate_id ≡ true)
      (λ (y : Applicant). member (ids_of (x ∷ xs)) y.candidate_id ≡ true)
      (λ y h. rw h (or_true (x.candidate_id == y.candidate_id))) xs (All-members xs),
)

find-new :
    (k : ℕ) (ks : List ℕ)
    → member ks k ≡ true
    → find entry_key k (map new_entry ks) ≡ some (new_entry k)
find-new k [] h = cc
find-new k (j ∷ ks) h = elim (Bool-cases (j == k)) [
  | inl e ↦ rw e (ap (λ i. some (new_entry i)) (==→eq j k e))
  | inr e ↦ rw e (find-new k ks (later e))
]
  where
    later : (j == k) ≡ false → member ks k ≡ true
    later e = rw e at h

count-new :
    (q : Entry → Bool)
    → ((k : ℕ) → q (new_entry k) ≡ false)
    → (ks : List ℕ) → count q (map new_entry ks) ≡ 0
count-new q h [] = refl
count-new q h (k ∷ ks) = rw (h k) (omega (arith, count-new q h ks))

settled_in-new : (k : ℕ) (ks : List ℕ) → settled_in k (map new_entry ks) ≡ false
settled_in-new k [] = refl
settled_in-new k (j ∷ ks) = elim (Bool-cases (j == k)) [
  | inl e ↦ rw e
  | inr e ↦ rw e (settled_in-new k ks)
]

keys-new : (ks : List ℕ) → map entry_key (map new_entry ks) ≡ ks
keys-new [] = refl
keys-new (k ∷ ks) = rw (keys-new ks)

Sound-new : (ks : List ℕ) → All Sound (map new_entry ks)
Sound-new [] = tt
Sound-new (k ∷ ks) = ((refl, refl, refl), Sound-new ks)

pub length-ids : (xs : List Applicant) → length xs ≡ length (ids_of xs)
length-ids [] = refl
length-ids (x ∷ xs) = ap suc (length-ids xs)

abbrev zeros : List ℕ
zeros = 0 ∷ (0 ∷ (0 ∷ (0 ∷ (0 ∷ (0 ∷ (0 ∷ (0 ∷ (0 ∷ (0 ∷ [])))))))))

tallies-new : (ks : List ℕ) → tallies tests (map new_entry ks) ≡ zeros
tallies-new ks = rw (zero_of tests)
  where
    zero_of : (ts : List Test) → tallies ts (map new_entry ks) ≡ map (λ t. 0) ts
    zero_of [] = refl
    zero_of (t ∷ ts) = rw (count-new (booked t) (λ k. refl) ks, zero_of ts)

pub start-Books : (xs : List Applicant) → IsKeyed applicant_id xs → Books (ids_of xs) (start xs)
start-Books xs h = rw (distinct_keyed xs h) record {
  keys = keys-new (ids_of xs);
  total = length-ids xs;
  tallied = tallies-new (ids_of xs);
  settled = count-new is_settled (λ k. refl) (ids_of xs);
  listed = refl;
  reviews = count-new was_reviewed (λ k. refl) (ids_of xs);
  published = λ k. sym (settled_in-new k (ids_of xs));
  sound = Sound-new (ids_of xs);
}

pub start-Fresh :
    (xs : List Applicant)
    → IsKeyed applicant_id xs
    → All (λ (x : Applicant). Fresh (start xs) x.candidate_id) xs
start-Fresh xs h =
    All-imp (λ (x : Applicant). member (ids_of xs) x.candidate_id ≡ true)
      (λ (x : Applicant). Fresh (start xs) x.candidate_id)
      (λ x m. rw (distinct_keyed xs h) (find-new x.candidate_id (ids_of xs) m)) xs (All-members xs)
