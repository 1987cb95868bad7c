-- ===== src/Tests/Screening.antt =====
-- The hard filters and the scoring on small inputs.
use ai_cv_screening.Prelude.{
  ℕ, ◌+◌, ◌*◌, ◌<◌, ◌≤◌, ◌≡◌, ◌≢◌, ◌↔◌, refl, true, false, none, some, [], ◌∷◌, arith, any, ok,
}
use ai_cv_screening.Rules.Contracts.{
  AuthorizationStatus, AttributeSource, HardFilterRules, CandidateFacts,
}
use ai_cv_screening.Rules.Engine.{pass, fail, Reading, DegreeEntry, evaluate_stage1_hard_filters}
use ai_cv_screening.Rules.Engine.Verdicts.{
  contradicts, meets, evaluate_rejects_iff, evaluate_passes_iff,
}
use ai_cv_screening.Scoring.Weights.{DecisionTier, weighted_score, calculate_decision_tier, tier_of}
use ai_cv_screening.Scoring.Weights.Rounding.{
  four, mean, tier_number, weighted_score_nearest, weighted_score_mono,
}
use ai_cv_screening.Scoring.Schemas.{
  EvaluationStatus, CategoryAssessment, LlmEvaluationOutput, EvidenceVerification,
  FinalCandidateEvaluation,
}
use ai_cv_screening.Scoring.Outcome.{assessed, construct, is_severe, score_evaluation}
use ai_cv_screening.Scoring.Outcome.Laws.{InRange, composite_of, score_evaluation_total}
use ai_cv_screening.Scoring.Replay.{
  Recomputed, policy_snapshot, stored_outcome, recompute_stored_decision,
  recompute-score_evaluation,
}

abbrev pub rules : HardFilterRules
rules = record { min_years_experience = 3; degree_rank = some 2; require_work_authorization = true }

abbrev facts : CandidateFacts
facts = record {
  experience_years = some 4;
  experience_source = AttributeSource.recruiter_verified;
  work_authorized = AuthorizationStatus.eligible;
  authorization_source = AttributeSource.recruiter_verified;
}

abbrev degree : DegreeEntry
degree = record {
  level_rank = 3;
  is_in_progress = false;
  is_ambiguous = false;
  is_aligned = true;
  has_explicit_field = true;
}

abbrev pub reading : Reading
reading = record {
  experience = none;
  degrees = degree ∷ [];
  skills = record { match_weight = 4; negated = false } ∷ [];
}

passes_good : (evaluate_stage1_hard_filters rules facts reading).status ≡ pass
unfolding evaluate_stage1_hard_filters
passes_good = refl

rejects_negated :
    (evaluate_stage1_hard_filters rules facts
      (record reading { skills = record { match_weight = 0; negated = true } ∷ [] })).status
    ≡ fail
unfolding evaluate_stage1_hard_filters
rejects_negated = refl

evaluate_rejects_iff_example :
    ((evaluate_stage1_hard_filters rules facts reading).status ≡ fail)
    ↔ (contradicts rules facts reading ≡ true)
evaluate_rejects_iff_example = evaluate_rejects_iff rules facts reading

evaluate_passes_iff_example :
    ((evaluate_stage1_hard_filters rules facts reading).status ≡ pass)
    ↔ (meets rules facts reading ≡ true)
evaluate_passes_iff_example = evaluate_passes_iff rules facts reading

weighted_score_nearest_example :
    (r : ℕ) × (weighted_score 10 (four 800 705 600 900) ≡ ok r)
    × (2 * (10 * r) ≤ 2 * mean 800 705 600 900 + 10)
    × (2 * mean 800 705 600 900 + 10 < 2 * (10 * r) + 2 * 10)
    × (100 * 60 ≤ r)
    × (r ≤ 100 * 90)
    × (calculate_decision_tier r ≡ ok (tier_of 7500 5500 r))
weighted_score_nearest_example =
    weighted_score_nearest 10 800 705 600 900 60 90 (omega arith) (omega arith) (omega arith)
      (omega arith)

weighted_score_mono_example :
    (r : ℕ) × (r' : ℕ) × (weighted_score 1 (four 80 70 60 90) ≡ ok r)
    × (weighted_score 1 (four 90 70 60 95) ≡ ok r')
    × (r ≤ r')
    × (tier_number (tier_of 7500 5500 r') ≤ tier_number (tier_of 7500 5500 r))
weighted_score_mono_example =
    weighted_score_mono 1 80 70 60 90 90 70 60 95 (omega arith) (omega arith) (omega arith)

abbrev category : ℕ → CategoryAssessment
category n = record { score = n; citations = []; claims = [] }

abbrev output : LlmEvaluationOutput
output = record {
  skills = category 80;
  experience = category 70;
  projects = category 60;
  education = category 90;
  flags = [];
}

abbrev verification : EvidenceVerification
verification = record {
  registry = [];
  checks = [];
  review_reasons = [];
  verified_flag_indices = [];
  injection_signals = [];
}

abbrev pub evaluation : FinalCandidateEvaluation
evaluation = assessed "candidate" output verification false 7400 DecisionTier.tier_2

output-InRange : InRange 1 output
output-InRange = (omega arith, omega arith, omega arith, omega arith)

score_output : score_evaluation 1 "candidate" output verification false ≡ ok evaluation
unfolding score_evaluation weighted_score calculate_decision_tier construct
score_output = refl

score_evaluation_total_example :
    (f : FinalCandidateEvaluation) × (score_evaluation 1 "candidate" output verification false
      ≡ ok f)
    × (f.composite_score ≡ some (composite_of 1 output))
    × (f.llm_raw_output ≡ some output)
    × ((f.evaluation_status ≡ EvaluationStatus.success)
        ↔ ((verification.review_reasons ≡ []) × (any is_severe output.flags ≡ false)))
    × (f.evaluation_status ≡ EvaluationStatus.success
        → f.tier ≡ some (tier_of 7500 5500 (composite_of 1 output)))
    × (f.evaluation_status ≢ EvaluationStatus.success
        → (f.evaluation_status ≡ EvaluationStatus.review_required) × (f.tier ≡ none))
score_evaluation_total_example =
    score_evaluation_total 1 "candidate" output verification false (omega arith) output-InRange refl

recompute-score_evaluation_example :
    (r : Recomputed) × (recompute_stored_decision 1 policy_snapshot (stored_outcome evaluation)
      ≡ ok (some r))
    × (evaluation.composite_score ≡ some r.composite_score)
    × (r.tier ≡ evaluation.tier)
    × (r.matches_stored ≡ true)
recompute-score_evaluation_example =
    recompute-score_evaluation 1 "candidate" output verification false {f = evaluation}
      (omega arith) output-InRange refl score_output
