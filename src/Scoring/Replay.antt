-- ===== src/Scoring/Replay.antt =====
-- The replay of a stored decision: `policy_snapshot`, the stored row of `complete_run` and
-- `recompute_stored_decision` of app/run_audit.py.
use mathlib.Core.Path.{subst}
use ai_cv_screening.Prelude.{
  ℕ, ◌+◌, ◌*◌, ◌<◌, String, ◌≡◌, ◌≢◌, refl, sym, ap, ==_refl, Bool, true, false, ◌&&◌, Option, none,
  some, List, [], ◌∷◌, arith, if◌then◌else◌, opt_eq, Result, ok, err, ◌>>=◌, any,
}
use ai_cv_screening.Scoring.Weights.{
  DecisionTier, Scores, category_weights, lookup, quantize, tier_of,
}
use ai_cv_screening.Scoring.Schemas.{
  EvaluationStatus, LlmEvaluationOutput, EvidenceVerification, FinalCandidateEvaluation,
}
use ai_cv_screening.Scoring.Outcome.{foreign, category_scores, score_evaluation}
use ai_cv_screening.Scoring.Outcome.Laws.{InRange, composite_of, score_evaluation_total}

-- The entries of the policy snapshot that the replay reads: the weights in hundredths, and the
-- thresholds in points.
pub record ScoringPolicy : Type 0 where
  pub category_weights : List (String × ℕ)
  pub tier_1 : ℕ
  pub tier_2 : ℕ

unfoldable pub policy_snapshot : ScoringPolicy
policy_snapshot = record { category_weights = category_weights; tier_1 = 75; tier_2 = 55 }

-- A row of candidate_outcomes, by the columns that the replay reads.
pub record StoredOutcome : Type 0 where
  pub is_stage3 : Bool
  pub is_success : Bool
  pub validated_output : Option LlmEvaluationOutput
  pub composite_score : Option ℕ
  pub tier : Option DecisionTier

abbrev is_success_status : EvaluationStatus → Bool
is_success_status EvaluationStatus.success = true
is_success_status _ = false

-- what `complete_run` stores of a Stage 3 decision
unfoldable pub stored_outcome : FinalCandidateEvaluation → StoredOutcome
stored_outcome f = record {
  is_stage3 = true;
  is_success = is_success_status f.evaluation_status;
  validated_output = f.llm_raw_output;
  composite_score = f.composite_score;
  tier = f.tier;
}

pub record Recomputed : Type 0 where
  pub composite_score : ℕ
  pub tier : Option DecisionTier
  pub matches_stored : Bool

abbrev same_tier : Option DecisionTier → Option DecisionTier → Bool
same_tier none none = true
same_tier (some DecisionTier.tier_1) (some DecisionTier.tier_1) = true
same_tier (some DecisionTier.tier_2) (some DecisionTier.tier_2) = true
same_tier (some DecisionTier.tier_3) (some DecisionTier.tier_3) = true
same_tier _ _ = false

-- `sum(scores[name] * Decimal(weight) ...)`; a category that the output lacks is a `KeyError`
recompute_total : List (String × ℕ) → Scores → Result ℕ
recompute_total [] scores = ok 0
recompute_total ((name, weight) ∷ rest) scores = elim (lookup name scores) [
  | none ↦ err "KeyError"
  | some s ↦ recompute_total rest scores >>= λ t. ok (s * weight + t)
]

recomputed : ℕ → ScoringPolicy → StoredOutcome → ℕ → Recomputed
recomputed unit policy o total =
    let score = quantize unit total in
    let tier : Option DecisionTier =
      if o.is_success
      then some (tier_of (100 * policy.tier_1) (100 * policy.tier_2) score)
      else none in
    record {
      composite_score = score;
      tier = tier;
      matches_stored = opt_eq (some score) o.composite_score && same_tier tier o.tier;
    }

recompute_output :
    ℕ → ScoringPolicy → StoredOutcome → Option LlmEvaluationOutput → Result (Option Recomputed)
unfolding recompute_total recomputed
recompute_output unit policy o none = ok none
recompute_output unit policy o (some output) = do
  total ← recompute_total policy.category_weights (category_scores output)
  ok (some (recomputed unit policy o total))

unfoldable pub recompute_stored_decision :
    ℕ → ScoringPolicy → StoredOutcome → Result (Option Recomputed)
unfolding recompute_output
recompute_stored_decision unit policy o =
    if o.is_stage3 then recompute_output unit policy o o.validated_output else ok none

same_tier_refl : (t : Option DecisionTier) → same_tier t t ≡ true
same_tier_refl none = refl
same_tier_refl (some DecisionTier.tier_1) = refl
same_tier_refl (some DecisionTier.tier_2) = refl
same_tier_refl (some DecisionTier.tier_3) = refl

matches_of_eq :
    (s : ℕ) (t u : Option DecisionTier) (c : Option ℕ)
    → c ≡ some s
    → t ≡ u
    → (opt_eq (some s) c && same_tier t u) ≡ true
matches_of_eq s t u c e h = rw (e, h, ==_refl s) (same_tier_refl u)

tier_replays :
    (status : EvaluationStatus) (t : DecisionTier) (stored : Option DecisionTier)
    → (status ≡ EvaluationStatus.success → stored ≡ some t)
    → (status ≢ EvaluationStatus.success
        → (status ≡ EvaluationStatus.review_required) × (stored ≡ none))
    → (if is_success_status status then some t else none) ≡ stored
tier_replays EvaluationStatus.success t stored h k = sym (h refl)
tier_replays EvaluationStatus.review_required t stored h k = sym (k (λ e. cc)).1
tier_replays EvaluationStatus.evaluation_failed t stored h k = sym (k (λ e. cc)).1

abbrev total_of : LlmEvaluationOutput → ℕ
total_of o =
    o.skills.score * 40
    + (o.experience.score * 30 + (o.projects.score * 20 + (o.education.score * 10 + 0)))

composite_is_total :
    (unit : ℕ) (o : LlmEvaluationOutput) → composite_of unit o ≡ quantize unit (total_of o)
composite_is_total unit o = ap (quantize unit) (omega arith)

-- what the replay uses of an evaluation
abbrev Scored : ℕ → LlmEvaluationOutput → FinalCandidateEvaluation → Type 0
Scored score o f =
    (f.composite_score ≡ some score)
    × (f.llm_raw_output ≡ some o)
    × (f.evaluation_status ≡ EvaluationStatus.success → f.tier ≡ some (tier_of 7500 5500 score))
    × (f.evaluation_status ≢ EvaluationStatus.success
        → (f.evaluation_status ≡ EvaluationStatus.review_required) × (f.tier ≡ none))

abbrev Replays : ℕ → FinalCandidateEvaluation → Type 0
Replays unit f =
    (r : Recomputed) × (recompute_stored_decision unit policy_snapshot (stored_outcome f)
      ≡ ok (some r))
    × (f.composite_score ≡ some r.composite_score)
    × (r.tier ≡ f.tier)
    × (r.matches_stored ≡ true)

Scored-Replays :
    (unit : ℕ) (o : LlmEvaluationOutput) (f : FinalCandidateEvaluation)
    → Scored (quantize unit (total_of o)) o f
    → Replays unit f
unfolding recompute_stored_decision policy_snapshot stored_outcome
Scored-Replays unit o f (composite, raw, chosen, other) =
    let score = quantize unit (total_of o) in
    let tier = tier_replays f.evaluation_status (tier_of 7500 5500 score) f.tier chosen other in
    (
      recomputed unit policy_snapshot (stored_outcome f) (total_of o),
      rw raw refl,
      composite,
      tier,
      matches_of_eq score _ f.tier f.composite_score composite tier,
    )

-- Any evaluation that `score_evaluation` returns for scores of at most 100 points replays: from the
-- stored output and the policy snapshot alone, the recomputed score and tier match the stored ones.
pub recompute-score_evaluation :
    (unit : ℕ) (cid : String) (o : LlmEvaluationOutput) (v : EvidenceVerification) (mock : Bool)
    {f : FinalCandidateEvaluation}
    → 0 < unit
    → InRange unit o
    → any (foreign cid) v.registry ≡ false
    → score_evaluation unit cid o v mock ≡ ok f
    → (r : Recomputed) × (recompute_stored_decision unit policy_snapshot (stored_outcome f)
        ≡ ok (some r))
      × (f.composite_score ≡ some r.composite_score)
      × (r.tier ≡ f.tier)
      × (r.matches_stored ≡ true)
recompute-score_evaluation unit cid o v mock {f} h r own e =
    let (f', made, composite, raw, _, chosen, other) =
      score_evaluation_total unit cid o v mock h r own in
    let same : f' ≡ f = cc (made, e) in
    let scored : Scored (composite_of unit o) o f' = (composite, raw, chosen, other) in
    Scored-Replays unit o f (
      subst (λ x. Scored x o f) (composite_is_total unit o)
        (subst (λ x. Scored (composite_of unit o) o x) same scored))
