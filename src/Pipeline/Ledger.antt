-- ===== src/Pipeline/Ledger.antt =====
-- What `run_end_to_end_screening_pipeline` of app/orchestrator.py keeps while it runs: the dict of
-- outcomes, the metrics and the four lists of the response.
use ai_cv_screening.Prelude.{
  ℕ, ◌+◌, String, Bool, true, Option, none, some, List, [], ◌∷◌, ◌++◌, filter, any,
}
use ai_cv_screening.Prelude.Table.{update}
use ai_cv_screening.Rules.Engine.{Decision, Check, Details, is_review}
use ai_cv_screening.Scoring.Schemas.{EvaluationStatus, FinalCandidateEvaluation}

pub data Stage : Type 0 where
  stage0 stage1 stage2 stage3 : Stage

-- An outcome is a text. Those of the pipeline have names; `unknown` is any other text, by a number.
pub data Code : Type 0 where
  success review_required evaluation_failed filter_rejected : Code
  cutoff_excluded extraction_failed processing_failed : Code
  unknown : ℕ → Code

abbrev pub stage_number : Stage → ℕ
stage_number Stage.stage0 = 0
stage_number Stage.stage1 = 1
stage_number Stage.stage2 = 2
stage_number Stage.stage3 = 3

abbrev pub code_number : Code → ℕ
code_number Code.success = 0
code_number Code.review_required = 1
code_number Code.evaluation_failed = 2
code_number Code.filter_rejected = 3
code_number Code.cutoff_excluded = 4
code_number Code.extraction_failed = 5
code_number Code.processing_failed = 6
code_number (Code.unknown n) = 7 + n

-- the `status` of an event of the stage history
pub data EventStatus : Type 0 where
  processed failed extracted excluded held : EventStatus
  decided : Decision → EventStatus
  evaluated : EvaluationStatus → EventStatus

pub record Event : Type 0 where
  pub stage : Stage
  pub status : EventStatus
  pub details : Option Details

-- `stage1_verification`
pub record Verification : Type 0 where
  pub verification_required : Bool
  pub verification_reasons : List Check
  pub stage1_filter_details : Details

unfoldable pub stage1_verification : Details → Verification
stage1_verification d =
    let reasons = filter is_review d.checks in
    record {
      verification_required = any (λ c. true) reasons;
      verification_reasons = reasons;
      stage1_filter_details = d;
    }

-- a dict of the response, by the keys that are tested
pub record Item : Type 0 where
  pub candidate_id : ℕ
  pub reason : Option String
  pub verification : Option Verification
  pub provisional : Option Bool
  pub evaluation : Option FinalCandidateEvaluation

-- a value of `outcomes`; `outcome` and `stage` are absent until it is settled
pub record Entry : Type 0 where
  pub candidate_id : ℕ
  pub outcome : Option Code
  pub stage : Option Stage
  pub stage_history : List Event
  pub result_snapshot : Option Item

abbrev pub entry_key : Entry → ℕ
entry_key e = e.candidate_id

pub record Metrics : Type 0 where
  pub total_input_candidates : ℕ
  pub stage0_processed : ℕ
  pub stage1_passed : ℕ
  pub stage1_rejected : ℕ
  pub stage1_review_required : ℕ
  pub stage1_failed : ℕ
  pub stage2_shortlisted : ℕ
  pub stage3_evaluated : ℕ
  pub stage3_succeeded : ℕ
  pub stage3_review_required : ℕ
  pub stage3_failed : ℕ
  pub stage0_failed : ℕ
  pub stage0_review_required : ℕ
  pub stage2_failed : ℕ
  pub stage2_review_required : ℕ
  pub stage2_excluded : ℕ
  pub accounted_candidates : ℕ

abbrev pub new_metrics : ℕ → Metrics
new_metrics n = record {
  total_input_candidates = n;
  stage0_processed = 0;
  stage1_passed = 0;
  stage1_rejected = 0;
  stage1_review_required = 0;
  stage1_failed = 0;
  stage2_shortlisted = 0;
  stage3_evaluated = 0;
  stage3_succeeded = 0;
  stage3_review_required = 0;
  stage3_failed = 0;
  stage0_failed = 0;
  stage0_review_required = 0;
  stage2_failed = 0;
  stage2_review_required = 0;
  stage2_excluded = 0;
  accounted_candidates = 0;
}

pub record Progress : Type 0 where
  pub outcomes : List Entry
  pub metrics : Metrics
  pub leaderboard : List Item
  pub review_candidates : List Item
  pub rejected_candidates : List Item
  pub failed_candidates : List Item

abbrev pub event : Stage → EventStatus → Event
event stage status = record { stage = stage; status = status; details = none }

-- `outcomes[k]["stage_history"].append(event)`. No key is ever removed, so the lookup does not raise.
abbrev pub logged : Event → Entry → Entry
logged v e = record e { stage_history = e.stage_history ++ (v ∷ []) }

abbrev pub log : ℕ → Event → List Entry → List Entry
log k v es = update entry_key k (logged v) es

-- `outcomes[k].update(outcome=..., stage=..., result_snapshot=item)`
abbrev pub filed : Code → Stage → Item → Entry → Entry
filed code stage item e = record e {
  outcome = some code;
  stage = some stage;
  result_snapshot = some item;
}

abbrev pub settle : ℕ → Code → Stage → Item → List Entry → List Entry
settle k code stage item es = update entry_key k (filed code stage item) es
