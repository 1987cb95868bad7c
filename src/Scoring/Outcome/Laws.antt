-- ===== src/Scoring/Outcome/Laws.antt =====
-- Every evaluation that the scoring builds passes the outcome contract.
use text.Mathlib.Text.{◌==◌ as str_eq}
use ai_cv_screening.Prelude.{
  ℕ, ◌*◌, ◌≤◌, ◌<◌, String, ◌≡◌, ◌≢◌, refl, ◌∙◌, ◌↔◌, Bool, true, false, not, none, some, List, [],
  ◌∷◌, arith, inl, inr, Bool-cases, ok, any, insert_by, sort_by, le→leb,
}
use ai_cv_screening.Scoring.Weights.{DecisionTier, quantize, tier_of}
use ai_cv_screening.Scoring.Weights.Rounding.{
  mean, in_range_accepted, quantize_capped, tier_accepted,
}
use ai_cv_screening.Scoring.Schemas.{
  EvaluationStatus, LlmEvaluationOutput, EvidenceVerification, FinalCandidateEvaluation, distinct,
  sorted_set, str_le, member,
}
use ai_cv_screening.Scoring.Outcome.{
  failed_evaluation, failure, is_empty, foreign, is_severe, all_reasons, assessed, status_if,
  tier_if, construct, score_evaluation,
}

is_empty-insert_by : (x : String) (xs : List String) → is_empty (insert_by str_le x xs) ≡ false
is_empty-insert_by x [] = refl
is_empty-insert_by x (y ∷ ys) = elim (Bool-cases (str_le x y)) [ inl e ↦ rw e | inr e ↦ rw e ]

is_empty-sort_by : (xs : List String) → is_empty (sort_by str_le xs) ≡ is_empty xs
is_empty-sort_by [] = refl
is_empty-sort_by (x ∷ xs) = is_empty-insert_by x (sort_by str_le xs)

is_empty-distinct : (xs : List String) → is_empty (distinct xs) ≡ is_empty xs
is_empty-distinct [] = refl
is_empty-distinct (x ∷ []) = refl
is_empty-distinct (x ∷ (y ∷ xs)) = elim (Bool-cases (member x (distinct (y ∷ xs)))) [
  | inl e ↦ rw e (is_empty-distinct (y ∷ xs))
  | inr e ↦ rw e
]

is_empty-sorted_set : (xs : List String) → is_empty (sorted_set xs) ≡ is_empty xs
is_empty-sorted_set xs = is_empty-sort_by (distinct xs) ∙ is_empty-distinct xs

-- the four scores are at most 100 points
abbrev pub InRange : ℕ → LlmEvaluationOutput → Type 0
InRange unit o =
    (o.skills.score ≤ 100 * unit)
    × (o.experience.score ≤ 100 * unit)
    × (o.projects.score ≤ 100 * unit)
    × (o.education.score ≤ 100 * unit)

abbrev pub composite_of : ℕ → LlmEvaluationOutput → ℕ
composite_of unit o =
    quantize unit (mean o.skills.score o.experience.score o.projects.score o.education.score)

no_own_reasons :
    (o : LlmEvaluationOutput) (v : EvidenceVerification)
    → is_empty (all_reasons o v) ≡ true
    → is_empty v.review_reasons ≡ true
no_own_reasons o v h = ground arith

construct-assessed :
    (unit : ℕ) (cid : String) (o : LlmEvaluationOutput) (v : EvidenceVerification) (mock : Bool)
    (c : ℕ) (t : DecisionTier)
    → InRange unit o
    → c ≤ 10000
    → any (foreign cid) v.registry ≡ false
    → construct unit (assessed cid o v mock c t) ≡ ok (assessed cid o v mock c t)
unfolding construct
construct-assessed unit cid o v mock c t h capped own =
    let reasons = all_reasons o v in
    rw
      (
        le→leb c 10000 capped,
        le→leb o.skills.score (100 * unit) h.0,
        le→leb o.experience.score (100 * unit) h.1,
        le→leb o.projects.score (100 * unit) h.2,
        le→leb o.education.score (100 * unit) h.3,
      )
      (elim (Bool-cases (is_empty reasons)) [
        | inl e ↦ rw (e, own, is_empty-sorted_set reasons, e, no_own_reasons o v e)
        | inr e ↦ rw (e, own, is_empty-sorted_set reasons, e)
      ])

-- there is no reason exactly when the verification has none and no flag is severe
no_reasons_iff :
    (o : LlmEvaluationOutput) (v : EvidenceVerification)
    → (is_empty (all_reasons o v) ≡ true)
      ↔ ((v.review_reasons ≡ []) × (any is_severe o.flags ≡ false))
no_reasons_iff o v = ground arith

status_success_iff : (b : Bool) → (status_if (not b) ≡ EvaluationStatus.success) ↔ (b ≡ true)
status_success_iff b = ground arith

tier_of_success :
    (b : Bool) (t : DecisionTier)
    → (status_if (not b) ≡ EvaluationStatus.success → tier_if (not b) t ≡ some t)
      × (status_if (not b) ≢ EvaluationStatus.success
          → (status_if (not b) ≡ EvaluationStatus.review_required) × (tier_if (not b) t ≡ none))
tier_of_success true t = (λ h. refl, λ h. absurd (h refl))
tier_of_success false t = (λ h. cc, λ h. (refl, refl))

-- For scores of at most 100 points and a registry of the candidate's own references,
-- `score_evaluation` returns, and its contract accepts the result: SUCCESS exactly when the
-- verification gave no reason and no flag is HIGH or CRITICAL, then with the tier of the composite
-- score; otherwise REVIEW_REQUIRED with no tier. The composite score is the rounded weighted mean.
pub score_evaluation_total :
    (unit : ℕ) (cid : String) (o : LlmEvaluationOutput) (v : EvidenceVerification) (mock : Bool)
    → 0 < unit
    → InRange unit o
    → any (foreign cid) v.registry ≡ false
    → (f : FinalCandidateEvaluation) × (score_evaluation unit cid o v mock ≡ ok f)
      × (f.composite_score ≡ some (composite_of unit o))
      × (f.llm_raw_output ≡ some o)
      × ((f.evaluation_status ≡ EvaluationStatus.success)
          ↔ ((v.review_reasons ≡ []) × (any is_severe o.flags ≡ false)))
      × (f.evaluation_status ≡ EvaluationStatus.success
          → f.tier ≡ some (tier_of 7500 5500 (composite_of unit o)))
      × (f.evaluation_status ≢ EvaluationStatus.success
          → (f.evaluation_status ≡ EvaluationStatus.review_required) × (f.tier ≡ none))
unfolding score_evaluation
score_evaluation_total unit cid o v mock h r own =
    let c = composite_of unit o in
    let capped =
      quantize_capped unit o.skills.score o.experience.score o.projects.score o.education.score h
        r.0 r.1 r.2 r.3 in
    let f = assessed cid o v mock c (tier_of 7500 5500 c) in
    let none_given = is_empty (all_reasons o v) in
    (
      f,
      rw
          (
            in_range_accepted unit o.skills.score o.experience.score o.projects.score
                o.education.score r.0 r.1 r.2 r.3,
            tier_accepted c capped,
          )
          (construct-assessed unit cid o v mock c (tier_of 7500 5500 c) r capped own),
      refl,
      refl,
      (
        λ s. (no_reasons_iff o v).0 ((status_success_iff none_given).0 s),
        λ s. (status_success_iff none_given).1 ((no_reasons_iff o v).1 s),
      ),
      (tier_of_success none_given (tier_of 7500 5500 c)).0,
      (tier_of_success none_given (tier_of 7500 5500 c)).1,
    )

-- a code and a message that are not blank are accepted
pub failed_evaluation_returns :
    (cid code message : String) (mock : Bool)
    → str_eq code "" ≡ false
    → str_eq message "" ≡ false
    → failed_evaluation cid code message mock ≡ ok (failure cid code message mock)
unfolding failed_evaluation construct
failed_evaluation_returns cid code message mock h k = ground arith
