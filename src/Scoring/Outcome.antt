-- ===== src/Scoring/Outcome.antt =====
-- `score_evaluation`, `failed_evaluation` and `evaluation_sort_key` of
-- app/stage3_evaluation/scoring.py, and the validator `validate_outcome` of
-- app/stage3_evaluation/schemas.py that every result passes.
pub mod Laws
use text.Mathlib.Text.{◌==◌ as str_eq}
use ai_cv_screening.Prelude.{
  ℕ, suc, ◌+◌, String, Bool, true, false, not, ◌&&◌, ◌||◌, Option, none, some, List, [], ◌∷◌, ltb,
  leb, ◌==◌, if◌then◌else◌, is_some, Result, ok, err, ◌>>=◌, ◌>>◌, raise_if, all, any,
}
use ai_cv_screening.Scoring.Weights.{
  DecisionTier, Scores, in_range, same_keys, category_weights, weighted_score,
  calculate_decision_tier,
}
use ai_cv_screening.Scoring.Schemas.{
  FlagType, Severity, EvaluationStatus, FlagDetail, LlmEvaluationOutput, EvidenceReference,
  EvidenceVerification, FinalCandidateEvaluation, sorted_set, str_le, member, verified_citations,
  invalid_citations,
}

abbrev pub scoring_policy_version : String
scoring_policy_version = "stage3-v1.2.0"

abbrev pub is_empty {ℓ} : {A : Type ℓ} → List A → Bool
is_empty [] = true
is_empty (x ∷ xs) = false

-- `not text` for an optional text
abbrev pub is_blank : Option String → Bool
is_blank none = true
is_blank (some s) = str_eq s ""

-- the field type `Score | None` of a composite, in hundredths
abbrev pub valid_composite : Option ℕ → Bool
valid_composite none = true
valid_composite (some s) = in_range 100 s

abbrev pub foreign : String → String × EvidenceReference → Bool
foreign candidate_id e = not (str_eq e.1.candidate_id candidate_id)

abbrev pub has_foreign : String → Option EvidenceVerification → Bool
has_foreign candidate_id none = false
has_foreign candidate_id (some v) = any (foreign candidate_id) v.registry

abbrev pub has_reasons : Option EvidenceVerification → Bool
has_reasons none = false
has_reasons (some v) = not (is_empty v.review_reasons)

validate_failed : FinalCandidateEvaluation → Result FinalCandidateEvaluation
validate_failed f = do
  raise_if (is_some f.composite_score || (is_some f.tier || not (is_empty f.category_scores)))
      "Failed evaluations cannot have suitability scores or a tier"
  raise_if (is_some f.llm_raw_output || (is_blank f.error_code || is_blank f.error_message))
      "Failed evaluations require error details, not fabricated assessments"
  raise_if
      (f.has_critical_flags
        || (not (is_empty f.review_reasons)
            || (not (is_empty f.verified_citations) || not (is_empty f.invalid_citations))))
      "System failures cannot imply candidate flags or evidence judgments"
  ok f

-- the checks that SUCCESS and REVIEW_REQUIRED share
validate_completed : FinalCandidateEvaluation → Result (Unit {0})
validate_completed f = do
  raise_if (not (is_some f.composite_score) || not (is_some f.llm_raw_output))
      "Completed assessments require scores and validated output"
  raise_if (not (is_some f.evidence_verification))
      "Completed assessments require evidence verification"
  raise_if (has_foreign f.candidate_id f.evidence_verification)
      "Evidence registry belongs to another candidate"
  raise_if (not (same_keys f.category_scores category_weights))
      "All four category scores are required"
  raise_if (is_some f.error_code || is_some f.error_message)
      "Completed assessments cannot contain execution errors"

validate_by_status : EvaluationStatus → FinalCandidateEvaluation → Result FinalCandidateEvaluation
unfolding validate_failed validate_completed
validate_by_status EvaluationStatus.evaluation_failed f = validate_failed f
validate_by_status EvaluationStatus.success f = do
  validate_completed f
  raise_if
      (not (is_some f.tier)
        || (not (is_empty f.review_reasons) || has_reasons f.evidence_verification))
      "Successful evaluations require a tier and no review reasons"
  ok f
validate_by_status EvaluationStatus.review_required f = do
  validate_completed f
  raise_if (is_some f.tier || is_empty f.review_reasons)
      "Review outcomes require reasons and no final tier"
  ok f

-- The construction of a `FinalCandidateEvaluation`: its field types, then `validate_outcome`.
unfoldable pub construct : ℕ → FinalCandidateEvaluation → Result FinalCandidateEvaluation
unfolding validate_by_status
construct unit f = do
  raise_if
      (not (
        valid_composite f.composite_score
        && all (λ (e : String × ℕ). in_range unit e.1) f.category_scores))
      "score out of range"
  validate_by_status f.evaluation_status f

-- `getattr(output, key).score for key in CATEGORY_WEIGHTS`
abbrev pub category_scores : LlmEvaluationOutput → Scores
category_scores o =
    ("skills", o.skills.score)
    ∷ (("experience", o.experience.score)
        ∷ (("projects", o.projects.score) ∷ (("education", o.education.score) ∷ [])))

abbrev pub is_severe : FlagDetail → Bool
is_severe f = elim f.severity [ Severity.high ↦ true | Severity.critical ↦ true | _ ↦ false ]

abbrev pub is_missing_information : FlagDetail → Bool
is_missing_information f = elim f.type [ FlagType.missing_information ↦ true | _ ↦ false ]

-- `reasons`, as the list of its elements before they are made a set
abbrev pub all_reasons : LlmEvaluationOutput → EvidenceVerification → List String
all_reasons o v =
    if any is_severe o.flags
    then "HIGH_OR_CRITICAL_FLAG_REQUIRES_REVIEW" ∷ v.review_reasons
    else v.review_reasons

abbrev pub counts_index : ℕ → List ℕ → Bool
counts_index i xs = any (λ x. x == i) xs

-- `any(... for index, flag in enumerate(output.flags))`
abbrev pub critical_from : ℕ → List FlagDetail → List ℕ → Bool
critical_from i [] verified = false
critical_from i (f ∷ fs) verified =
    (counts_index i verified && (not (is_missing_information f) && is_severe f))
    || critical_from (suc i) fs verified

abbrev pub tier_if : Bool → DecisionTier → Option DecisionTier
tier_if true t = none
tier_if false t = some t

abbrev pub status_if : Bool → EvaluationStatus
status_if true = EvaluationStatus.review_required
status_if false = EvaluationStatus.success

-- The record that `score_evaluation` builds; `reviewed` is whether there are reasons.
abbrev pub assessed :
    String
    → LlmEvaluationOutput
    → EvidenceVerification
    → Bool
    → ℕ
    → DecisionTier
    → FinalCandidateEvaluation
assessed candidate_id output verification is_mock composite tier =
    let reviewed = not (is_empty (all_reasons output verification)) in
    record {
      candidate_id = candidate_id;
      evaluation_status = status_if reviewed;
      scoring_policy_version = scoring_policy_version;
      composite_score = some composite;
      tier = tier_if reviewed tier;
      category_scores = category_scores output;
      llm_raw_output = some output;
      verified_citations = verified_citations verification;
      invalid_citations = invalid_citations verification;
      has_critical_flags = critical_from 0 output.flags verification.verified_flag_indices;
      review_reasons = sorted_set (all_reasons output verification);
      error_code = none;
      error_message = none;
      evidence_verification = some verification;
      is_mock = is_mock;
    }

unfoldable pub score_evaluation :
    ℕ → String → LlmEvaluationOutput → EvidenceVerification → Bool → Result FinalCandidateEvaluation
score_evaluation unit candidate_id output verification is_mock = do
  composite ← weighted_score unit (category_scores output)
  tier ← calculate_decision_tier composite
  construct unit (assessed candidate_id output verification is_mock composite tier)

-- the record that `failed_evaluation` builds
abbrev pub failure : String → String → String → Bool → FinalCandidateEvaluation
failure candidate_id error_code message is_mock = record {
  candidate_id = candidate_id;
  evaluation_status = EvaluationStatus.evaluation_failed;
  scoring_policy_version = scoring_policy_version;
  composite_score = none;
  tier = none;
  category_scores = [];
  llm_raw_output = none;
  verified_citations = [];
  invalid_citations = [];
  has_critical_flags = false;
  review_reasons = [];
  error_code = some error_code;
  error_message = some message;
  evidence_verification = none;
  is_mock = is_mock;
}

unfoldable pub failed_evaluation : String → String → String → Bool → Result FinalCandidateEvaluation
failed_evaluation candidate_id error_code message is_mock =
    construct 1 (failure candidate_id error_code message is_mock)

abbrev status_order : EvaluationStatus → ℕ
status_order EvaluationStatus.success = 0
status_order EvaluationStatus.review_required = 1
status_order EvaluationStatus.evaluation_failed = 2

abbrev score_or_zero : Option ℕ → ℕ
score_or_zero none = 0
score_or_zero (some s) = s

-- the order of the tuples of `evaluation_sort_key`: the status, the larger score, the identifier
unfoldable pub evaluation_le : FinalCandidateEvaluation → FinalCandidateEvaluation → Bool
evaluation_le a b =
    let i = status_order a.evaluation_status in
    let j = status_order b.evaluation_status in
    let x = score_or_zero a.composite_score in
    let y = score_or_zero b.composite_score in
    if not (i == j)
    then ltb i j
    else if not (x == y)
    then ltb y x
    else str_le a.candidate_id b.candidate_id
