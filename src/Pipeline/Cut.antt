-- ===== src/Pipeline/Cut.antt =====
-- Lemmas on the ranking of the synchronous pipeline and the induction over the loop after it
-- (app/orchestrator.py).
use mathlib.Core.Path.{subst}
use mathlib.Core.Bool.{true≢false}
use ai_cv_screening.Prelude.{
  ℕ, String, Bool, true, false, not, ◌&&◌, List, [], ◌∷◌, ok, err, leb, count, any, filter, sort_by,
  All, All-take, All-sort_by, Bool-cases, ◌≡◌, ◌≢◌, ◌⊎◌, refl, sym, ap, ◌∙◌, inl, inr, arith,
}
use ai_cv_screening.Prelude.Table.{
  find, Apart, IsKeyed, IsKeyed-take, IsKeyed-filter, IsKeyed-sort_by, All-filter, All-both,
}
use ai_cv_screening.Campaign.Cutoff.{eligible, review_code, max_candidates_per_jd}
use ai_cv_screening.Pipeline.Ledger.{
  Stage, Code, EventStatus, entry_key, Progress, event, held, excluded,
}
use ai_cv_screening.Pipeline.Stages.{
  verified_item, Retrieved, retrieved_key, retrieved_le, ranked, rank_and_filter_candidate_batch,
  unsortable, fail_ranking, fail_all, hold_relevance, exclude, wants_review, is_shortlisted_in,
  cut_one, cut_loop,
}
use ai_cv_screening.Pipeline.Run.{shortlist, invalid_shortlist}
use ai_cv_screening.Pipeline.Books.{Books}
use ai_cv_screening.Pipeline.Filing.{Touches, carry_Pending, both-Touches}
use ai_cv_screening.Pipeline.Moves.{fail_stage2-Books, hold_relevance-Books, exclude-Books}
use ai_cv_screening.Pipeline.Extract.{Passed, Passed-trans, Ready}

module _ {κ} (P : Retrieved → Type κ) where
  pub All-ranked : (cutoff : ℕ) (xs : List Retrieved) → All P xs → All P (ranked cutoff xs)
  All-ranked cutoff xs h =
      let test = λ (x : Retrieved). eligible x.evidence.payload in
      All-take P cutoff (filter test (sort_by retrieved_le xs))
        (All-filter P test (sort_by retrieved_le xs) (All-sort_by P retrieved_le xs h))

pub IsKeyed-ranked :
    (cutoff : ℕ) (xs : List Retrieved)
    → IsKeyed retrieved_key xs
    → IsKeyed retrieved_key (ranked cutoff xs)
IsKeyed-ranked cutoff xs h =
    let test = λ (x : Retrieved). eligible x.evidence.payload in
    IsKeyed-take retrieved_key cutoff (filter test (sort_by retrieved_le xs)) (
      IsKeyed-filter retrieved_key test (sort_by retrieved_le xs)
        (IsKeyed-sort_by retrieved_key retrieved_le xs h))

-- the ranking raises, or it is the ranked list
pub shortlist-cases :
    (cutoff : ℕ) (xs : List Retrieved)
    → ((message : String) × (shortlist cutoff xs ≡ err message))
      ⊎ (shortlist cutoff xs ≡ ok (ranked cutoff xs))
unfolding rank_and_filter_candidate_batch
shortlist-cases cutoff xs =
    elim (Bool-cases (not (leb 1 cutoff && leb cutoff max_candidates_per_jd))) [
      | inl e ↦ inl ("Stage 2 cutoff must be between 1 and 15", rw e)
      | inr e ↦ elim (Bool-cases (any unsortable xs)) [
        | inl f ↦ inl ("Invalid candidate coverage score", rw (e, f))
        | inr f ↦ elim (Bool-cases (invalid_shortlist xs (ranked cutoff xs))) [
          | inl g ↦ inl ("Invalid shortlist", rw (e, f) (rw g))
          | inr g ↦ inr (rw (e, f) (rw g))
        ]
      ]
    ]

record Step (ids : List ℕ) (x : Retrieved) (n : ℕ) (s t : Progress) : Type 0 where
  books : Books ids t
  touches : Touches x.candidate_id s t
  counted : Passed n 0 s.metrics t.metrics

module _ (ids : List ℕ) (x : Retrieved) (s : Progress) (p : Ready s x) (b : Books ids s) where
  fail_ranking-Step : Step ids x 1 s (fail_ranking x s)
  fail_ranking-Step = record {
    books =
        fail_stage2-Books ids x.candidate_id x.filter_details s p Code.processing_failed
          "RANKING_FAILED" refl refl b;
    touches =
        both-Touches x.candidate_id Code.processing_failed Stage.stage2
          (verified_item x.candidate_id "RANKING_FAILED" x.filter_details)
          (event Stage.stage2 EventStatus.failed) s (fail_ranking x s) refl;
    counted = record { same = refl; settled = omega arith; third = refl };
  }

  hold_relevance-Step : Step ids x 1 s (hold_relevance x s)
  hold_relevance-Step = record {
    books = hold_relevance-Books ids x s p b;
    touches =
        both-Touches x.candidate_id Code.review_required Stage.stage2
          (verified_item x.candidate_id (review_code x.evidence.payload.relevance_reason)
            x.filter_details)
          (event Stage.stage2 held) s (hold_relevance x s) refl;
    counted = record { same = refl; settled = omega arith; third = refl };
  }

  exclude-Step : Step ids x 1 s (exclude x s)
  exclude-Step = record {
    books = exclude-Books ids x s p b;
    touches =
        both-Touches x.candidate_id Code.cutoff_excluded Stage.stage2
          (verified_item x.candidate_id "CUTOFF_EXCLUDED" x.filter_details)
          (event Stage.stage2 excluded) s (exclude x s) refl;
    counted = record { same = refl; settled = omega arith; third = refl };
  }

  cut_one-Step :
      (chosen : List Retrieved)
      → is_shortlisted_in chosen x.candidate_id ≡ false
      → Step ids x 1 s (cut_one chosen x s)
  cut_one-Step chosen e = elim (Bool-cases (wants_review x)) [
    | inl f ↦ rw (e, f) hold_relevance-Step
    | inr f ↦ rw (e, f) exclude-Step
  ]

-- the candidates of `todo` that fail `p` are settled, those that pass are not touched
pub record Cleared (ids : List ℕ) (p : ℕ → Bool) (todo : List Retrieved) (s t : Progress)
    : Type 0 where
  pub books : Books ids t
  pub touches : (j : ℕ) → p j ≡ true → find entry_key j t.outcomes ≡ find entry_key j s.outcomes
  pub counted :
      Passed (count (λ (x : Retrieved). not (p x.candidate_id)) todo) 0 s.metrics t.metrics

still-Ready :
    (x : Retrieved) (s t : Progress) (rest : List Retrieved)
    → Touches x.candidate_id s t
    → Apart retrieved_key x rest
    → All (Ready s) rest
    → All (Ready t) rest
still-Ready x s t rest touches apart ready =
    All-both (λ (y : Retrieved). x.candidate_id ≢ y.candidate_id) (Ready s) (Ready t)
      (λ y ne w.
        carry_Pending y.candidate_id y.filter_details s.outcomes t.outcomes
          (touches y.candidate_id ne) w)
      rest apart ready

clear_one :
    (ids : List ℕ) (p : ℕ → Bool) (x : Retrieved) (rest : List Retrieved) (s t u : Progress)
    → p x.candidate_id ≡ false
    → Step ids x 1 s t
    → Cleared ids p rest t u
    → Cleared ids p (x ∷ rest) s u
clear_one ids p x rest s t u e st later = record {
  books = later.books;
  touches =
      λ j h. later.touches j h ∙ st.touches j (λ same. true≢false (sym h ∙ ap p (sym same) ∙ e));
  counted =
      Passed-trans 1 0 (count (λ (y : Retrieved). not (p y.candidate_id)) rest) 0
        (count (λ (y : Retrieved). not (p y.candidate_id)) (x ∷ rest)) 0 s.metrics t.metrics
        u.metrics (rw e) (omega arith) st.counted later.counted;
}

clear_none :
    (ids : List ℕ) (p : ℕ → Bool) (x : Retrieved) (rest : List Retrieved) (s u : Progress)
    → p x.candidate_id ≡ true
    → Cleared ids p rest s u
    → Cleared ids p (x ∷ rest) s u
clear_none ids p x rest s u e later = record {
  books = later.books;
  touches = later.touches;
  counted = record {
    same = later.counted.same;
    settled = rw e (omega (arith, later.counted.settled));
    third = later.counted.third;
  };
}

cut_one-shortlisted :
    (chosen : List Retrieved) (x : Retrieved) (s : Progress)
    → is_shortlisted_in chosen x.candidate_id ≡ true
    → cut_one chosen x s ≡ s
cut_one-shortlisted chosen x s e = rw e

pub cut_loop-Cleared :
    (ids : List ℕ) (chosen todo : List Retrieved) (s : Progress)
    → IsKeyed retrieved_key todo
    → All (Ready s) todo
    → Books ids s
    → Cleared ids (is_shortlisted_in chosen) todo s (cut_loop chosen todo s)
unfolding cut_loop
cut_loop-Cleared ids chosen [] s keyed ready b = record {
  books = b;
  touches = λ j h. refl;
  counted = record { same = refl; settled = omega arith; third = refl };
}
cut_loop-Cleared ids chosen (x ∷ rest) s keyed ready b =
    elim (Bool-cases (is_shortlisted_in chosen x.candidate_id)) [
      | inl e ↦
          subst (λ t. Cleared ids (is_shortlisted_in chosen) (x ∷ rest) s (cut_loop chosen rest t))
            (sym (cut_one-shortlisted chosen x s e))
            (clear_none ids (is_shortlisted_in chosen) x rest s (cut_loop chosen rest s) e
              (cut_loop-Cleared ids chosen rest s keyed.1 ready.1 b))
      | inr e ↦
          let st = cut_one-Step ids x s ready.0 b chosen e in
          let t = cut_one chosen x s in
          clear_one ids (is_shortlisted_in chosen) x rest s t (cut_loop chosen rest t) e st (
            cut_loop-Cleared ids chosen rest t keyed.1
              (still-Ready x s t rest st.touches keyed.0 ready.1) st.books)
    ]

pub fail_all-Cleared :
    (ids : List ℕ) (todo : List Retrieved) (s : Progress)
    → IsKeyed retrieved_key todo
    → All (Ready s) todo
    → Books ids s
    → Cleared ids (λ j. false) todo s (fail_all todo s)
unfolding fail_all
fail_all-Cleared ids [] s keyed ready b = record {
  books = b;
  touches = λ j h. refl;
  counted = record { same = refl; settled = omega arith; third = refl };
}
fail_all-Cleared ids (x ∷ rest) s keyed ready b =
    let st = fail_ranking-Step ids x s ready.0 b in
    let t = fail_ranking x s in
    clear_one ids (λ j. false) x rest s t (fail_all rest t) refl st
      (fail_all-Cleared ids rest t keyed.1 (still-Ready x s t rest st.touches keyed.0 ready.1)
        st.books)
