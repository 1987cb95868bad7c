-- ===== src/Campaign/Rows.antt =====
-- The rows of the campaign tables (app/models/database.py), the settings that the transactions
-- read (app/config.py), and the tests on statuses.
--
-- Identifiers, lease tokens and hashes are numbers: the code compares them for equality, and orders
-- JD keys and candidate identifiers. Times are seconds. Scores are millionths, the precision to
-- which retrieval rounds them; a composite score of an evaluation is in hundredths of a point. A JSON document that no modelled code looks into is its text.
use ai_cv_screening.Prelude.{
  ℕ, String, Bool, true, false, Option, none, some, List, ltb, Result, ok, err,
}
use ai_cv_screening.Rules.Engine.{Decision, Check, Details}
use ai_cv_screening.Scoring.Weights.{DecisionTier}
use ai_cv_screening.Scoring.Schemas.{EvaluationStatus, FinalCandidateEvaluation}

-- ck_campaign_status
pub data CampaignStatus : Type 0 where
  intake running completed failed : CampaignStatus

-- ck_campaign_jd_status
pub data JdStatus : Type 0 where
  pending processing shortlisted completed failed : JdStatus

-- ck_campaign_cv_stage0
pub data Stage0Status : Type 0 where
  pending running succeeded failed : Stage0Status

-- ck_campaign_pair_status
pub data PairStatus : Type 0 where
  pending running stage2_ready shortlisted stage3_running : PairStatus
  extraction_failed filter_rejected processing_failed cutoff_excluded : PairStatus
  success review_required evaluation_failed : PairStatus

pub record Settings : Type 0 where
  pub run_timeout_seconds : ℕ
  pub run_max_attempts : ℕ
  pub queue_recovery_seconds : ℕ
  pub campaign_retrieval_inflight : ℕ
  pub campaign_retrieval_global_inflight : ℕ
  pub campaign_dispatch_batch : ℕ
  pub campaign_stage3_global_inflight : ℕ
  pub campaign_stage3_max_attempts : ℕ

-- the defaults of the class
abbrev pub default_settings : Settings
default_settings = record {
  run_timeout_seconds = 1800;
  run_max_attempts = 3;
  queue_recovery_seconds = 300;
  campaign_retrieval_inflight = 4;
  campaign_retrieval_global_inflight = 8;
  campaign_dispatch_batch = 100;
  campaign_stage3_global_inflight = 2;
  campaign_stage3_max_attempts = 5;
}

-- The part of the retrieval result that ranking and eligibility read.
pub record Stage2Evidence : Type 0 where
  pub candidate_id : ℕ
  pub scoring_version : Option String
  pub shortlist_eligible : Option Bool
  pub responsibility_coverage : ℕ
  pub applied_coverage : ℕ
  pub relevance_reason : Option String

-- `result_snapshot`, by the keys that the transactions write
pub record ResultSnapshot : Type 0 where
  pub stage2_evidence : Option Stage2Evidence
  pub document_version : Option ℕ
  pub candidate_id : Option ℕ
  pub evaluation_status : Option String
  pub stage : Option String
  pub reason : Option String
  pub stage3_evaluation : Option FinalCandidateEvaluation
  pub stage3_policy : Option String

abbrev pub empty_snapshot : ResultSnapshot
empty_snapshot = record {
  stage2_evidence = none;
  document_version = none;
  candidate_id = none;
  evaluation_status = none;
  stage = none;
  reason = none;
  stage3_evaluation = none;
  stage3_policy = none;
}

pub record Campaign : Type 0 where
  pub id : ℕ
  pub owner_id : ℕ
  pub status : CampaignStatus
  pub idempotency_key : Option ℕ
  pub request_hash : ℕ
  pub name : Option String
  pub updated_at : ℕ
  pub completed_at : Option ℕ

pub record CampaignJd : Type 0 where
  pub id : ℕ
  pub campaign_id : ℕ
  pub jd_key : ℕ
  pub job_snapshot : String
  pub policy_snapshot : String
  pub stage3_cap : ℕ
  pub status : JdStatus
  pub updated_at : ℕ

pub record CampaignCv : Type 0 where
  pub id : ℕ
  pub campaign_id : ℕ
  pub candidate_id : ℕ
  pub document_version : ℕ
  pub source_filename : ℕ
  pub content_hash : ℕ
  pub stage0_status : Stage0Status
  pub redacted_text : Option String
  pub source_locations : Option String
  pub extraction_error_code : Option String
  pub encrypted_pdf : Option String
  pub encrypted_original_pdf : Option String
  pub updated_at : ℕ

pub record Pair : Type 0 where
  pub id : ℕ
  pub campaign_id : ℕ
  pub jd_id : ℕ
  pub cv_id : ℕ
  pub status : PairStatus
  pub stage1_decision : Option Decision
  pub stage1_details : Option Details
  pub stage2_score : Option ℕ
  pub stage2_rank : Option ℕ
  pub stage3_status : Option EvaluationStatus
  pub composite_score : Option ℕ
  pub tier : Option DecisionTier
  pub verification_required : Bool
  pub verification_reasons : List Check
  pub result_snapshot : Option ResultSnapshot
  pub attempt_count : ℕ
  pub stage3_attempt_count : ℕ
  pub lease_until : Option ℕ
  pub lease_owner : Option ℕ
  pub failure_code : Option String
  pub updated_at : ℕ

-- The tables. A transaction takes the tables and returns them.
pub record Db : Type 0 where
  pub campaigns : List Campaign
  pub jds : List CampaignJd
  pub cvs : List CampaignCv
  pub pairs : List Pair

abbrev pub is_active : CampaignStatus → Bool
is_active CampaignStatus.running = true
is_active _ = false

-- `status.in_(("PENDING", "PROCESSING"))`
abbrev pub is_open_jd : JdStatus → Bool
is_open_jd JdStatus.pending = true
is_open_jd JdStatus.processing = true
is_open_jd _ = false

abbrev pub is_shortlisted_jd : JdStatus → Bool
is_shortlisted_jd JdStatus.shortlisted = true
is_shortlisted_jd _ = false

abbrev pub is_completed_jd : JdStatus → Bool
is_completed_jd JdStatus.completed = true
is_completed_jd _ = false

abbrev pub is_succeeded : Stage0Status → Bool
is_succeeded Stage0Status.succeeded = true
is_succeeded _ = false

abbrev pub is_pending : PairStatus → Bool
is_pending PairStatus.pending = true
is_pending _ = false

abbrev pub is_running : PairStatus → Bool
is_running PairStatus.running = true
is_running _ = false

abbrev pub is_stage2_ready : PairStatus → Bool
is_stage2_ready PairStatus.stage2_ready = true
is_stage2_ready _ = false

abbrev pub is_shortlisted : PairStatus → Bool
is_shortlisted PairStatus.shortlisted = true
is_shortlisted _ = false

abbrev pub is_stage3_running : PairStatus → Bool
is_stage3_running PairStatus.stage3_running = true
is_stage3_running _ = false

abbrev pub is_success : PairStatus → Bool
is_success PairStatus.success = true
is_success _ = false

-- `TERMINAL` of coordinator.py, `TERMINAL_PAIR_STATUSES` of persistence.py
abbrev pub is_terminal : PairStatus → Bool
is_terminal PairStatus.pending = false
is_terminal PairStatus.running = false
is_terminal PairStatus.stage2_ready = false
is_terminal PairStatus.shortlisted = false
is_terminal PairStatus.stage3_running = false
is_terminal _ = true

-- `DONE_BEFORE_CUTOFF`
abbrev pub is_done_before_cutoff : PairStatus → Bool
is_done_before_cutoff PairStatus.pending = false
is_done_before_cutoff PairStatus.running = false
is_done_before_cutoff PairStatus.stage2_ready = false
is_done_before_cutoff PairStatus.stage3_running = false
is_done_before_cutoff _ = true

-- `lease_until < now` in SQL: NULL is in no order
abbrev pub lease_expired : ℕ → Pair → Bool
lease_expired now p = elim p.lease_until [ none ↦ false | some t ↦ ltb t now ]

-- the tables after a transaction: those before, if it raised
abbrev pub tables_after : Db → Result (Db × Bool) → Db
tables_after db (ok r) = r.0
tables_after db (err e) = db
