-- ===== src/Campaign/Worker.antt =====
-- The transactions of the workers in app/workers/tasks.py. A task reads its pair, computes outside any
-- transaction, and writes in another one, which checks the state and the lease token again; other
-- transactions may run in between, so each is a function of its own here.
pub mod Writes
pub mod Flow
use ai_cv_screening.Prelude.{
  ℕ, ◌+◌, ◌-◌, String, Bool, true, false, not, ◌&&◌, ◌||◌, Option, none, some, List, [], filter,
  ltb, leb, ◌==◌, opt_eq, if◌then◌else◌, is_some, Result, ok, err, any,
}
use ai_cv_screening.Prelude.Table.{find, update}
use ai_cv_screening.Rules.Engine.{Decision, Check, Details, pass, review, fail, is_review}
use ai_cv_screening.Scoring.Schemas.{EvaluationStatus, FinalCandidateEvaluation}
use ai_cv_screening.Campaign.Rows.{
  PairStatus, Settings, Stage2Evidence, ResultSnapshot, empty_snapshot, Pair, Db, is_running,
  is_stage3_running,
}
use ai_cv_screening.Campaign.Lifecycle.{pair_key}

-- `pair.status == state and pair.lease_owner == token`
abbrev pub owns : (PairStatus → Bool) → ℕ → Pair → Bool
owns state token p = state p.status && opt_eq p.lease_owner (some token)

-- The transaction that locks a row, tests its state and token, and writes it; the Boolean says
-- whether the lease still held. `scalar_one` raises where there is no row.
abbrev pub fence : (PairStatus → Bool) → ℕ → (Pair → Pair) → Db → Option Pair → Result (Db × Bool)
fence state token write db none = err "NoResultFound"
fence state token write db (some p) =
    if owns state token p
    then ok (record db { pairs = update pair_key p.id write db.pairs }, true)
    else ok (db, false)

unfoldable pub fenced : (PairStatus → Bool) → ℕ → ℕ → (Pair → Pair) → Db → Result (Db × Bool)
fenced state pair_id token write db = fence state token write db (find pair_key pair_id db.pairs)

-- Such a transaction whose caller does not look at whether the lease still held.
abbrev pub unreported : Result (Db × Bool) → Result Db
unreported (ok r) = ok r.0
unreported (err e) = err e

-- The result of the retrieval: what `execute_campaign_pair` tests of it.
pub record Extracted : Type 0 where
  pub candidate_id : ℕ
  pub succeeded : Bool
  pub composite_score : Option ℕ
  pub evidence : Stage2Evidence

-- What the computation between the two transactions of `execute_campaign_pair` ends with: an error
-- with the details found so far, a rejection, or evidence with its score.
pub data Outcome : Type 0 where
  failed : Option Details → String → Outcome
  rejected : Details → Outcome
  retrieved : Details → Stage2Evidence → ℕ → Outcome

-- `composite_score` is `none` where the code finds no finite number
judge_extraction : ℕ → Details → Extracted → Option ℕ → Outcome
judge_extraction candidate_id details x none = failed (some details) "EVIDENCE_EXTRACTION_FAILED"
judge_extraction candidate_id details x (some score) =
    if x.candidate_id == candidate_id && x.succeeded
    then retrieved details x.evidence score
    else failed (some details) "EVIDENCE_EXTRACTION_FAILED"

extract_outcome : ℕ → Details → Decision → Result Extracted → Outcome
unfolding judge_extraction
extract_outcome candidate_id details fail extraction = rejected details
extract_outcome candidate_id details decision (err e) =
    failed (some details) "PAIR_PROCESSING_FAILED"
extract_outcome candidate_id details decision (ok x) =
    judge_extraction candidate_id details x x.composite_score

-- The two stages as they end: the filters, and the retrieval, which is used only if they do not fail.
unfoldable pub run_stages : ℕ → Result Details → Result Extracted → Outcome
unfolding extract_outcome
run_stages candidate_id (err e) extraction = failed none "PAIR_PROCESSING_FAILED"
run_stages candidate_id (ok details) extraction =
    extract_outcome candidate_id details details.status extraction

abbrev is_nonempty : List Check → Bool
is_nonempty checks = any (λ c. true) checks

-- the fields that are written whatever the outcome
unfoldable pub record_details : ℕ → Option Details → Pair → Pair
record_details now none p = record p {
  stage1_decision = none;
  stage1_details = none;
  verification_reasons = [];
  verification_required = false;
  lease_owner = none;
  lease_until = none;
  updated_at = now;
}
record_details now (some d) p =
    let reasons = filter is_review d.checks in
    record p {
      stage1_decision = some d.status;
      stage1_details = some d;
      verification_reasons = reasons;
      verification_required = is_nonempty reasons;
      lease_owner = none;
      lease_until = none;
      updated_at = now;
    }

retrieval_snapshot : Stage2Evidence → ℕ → ResultSnapshot
retrieval_snapshot evidence version = record empty_snapshot {
  stage2_evidence = some evidence;
  document_version = some version;
}

unfoldable pub settle_retrieval : Settings → ℕ → ℕ → Outcome → Pair → Pair
unfolding record_details retrieval_snapshot
settle_retrieval st now version (failed details error) p =
    let q = record_details now details p in
    if ltb p.attempt_count st.run_max_attempts
    then record q { status = PairStatus.pending }
    else record q { status = PairStatus.processing_failed; failure_code = some error }
settle_retrieval st now version (rejected details) p =
    let q = record_details now (some details) p in record q { status = PairStatus.filter_rejected }
settle_retrieval st now version (retrieved details evidence score) p =
    let q = record_details now (some details) p in
    record q {
      status = PairStatus.stage2_ready;
      stage2_score = some score;
      result_snapshot = some (retrieval_snapshot evidence version);
    }

-- the last transaction of `execute_campaign_pair`
unfoldable pub store_retrieval : Settings → ℕ → ℕ → Outcome → ℕ → ℕ → Db → Result (Db × Bool)
unfolding fenced settle_retrieval
store_retrieval st now version outcome pair_id token =
    fenced is_running pair_id token (settle_retrieval st now version outcome)

-- `coordinate_one_campaign` when the broker refuses the message of a reservation
unfoldable pub give_back : Pair → Pair
give_back p = record p {
  status = PairStatus.pending;
  lease_owner = none;
  lease_until = none;
  attempt_count = p.attempt_count - 1;
}

unfoldable pub undo_reservation : ℕ → ℕ → Db → Result Db
unfolding fenced give_back
undo_reservation pair_id token db = unreported (fenced is_running pair_id token give_back db)

-- `coordinate_one_campaign` when the broker refuses the message of a claim
unfoldable pub unclaim : Pair → Pair
unclaim p = record p { status = PairStatus.shortlisted; lease_owner = none; lease_until = none }

unfoldable pub undo_claim : ℕ → ℕ → Db → Result Db
unfolding fenced unclaim
undo_claim pair_id token db = unreported (fenced is_stage3_running pair_id token unclaim db)

-- `execute_campaign_stage3` when the provider's limit admits no request for `wait` seconds; it returns
-- ADMISSION_DELAYED whether or not the lease still held
unfoldable pub park : ℕ → ℕ → Pair → Pair
park now wait p = record p {
  status = PairStatus.shortlisted;
  lease_owner = none;
  lease_until = some (now + wait);
}

abbrev pub delayed_admission : Result (Db × Bool) → Result (Db × String)
delayed_admission (ok r) = ok (r.0, "ADMISSION_DELAYED")
delayed_admission (err e) = err e

unfoldable pub delay_admission : ℕ → ℕ → ℕ → ℕ → Db → Result (Db × String)
unfolding fenced park
delay_admission now wait pair_id token db =
    delayed_admission (fenced is_stage3_running pair_id token (park now wait) db)

-- the transaction that counts an attempt before the provider is called
unfoldable pub start_attempt : Pair → Pair
start_attempt p = record p { stage3_attempt_count = p.stage3_attempt_count + 1 }

unfoldable pub count_attempt : ℕ → ℕ → Db → Result (Db × Bool)
unfolding fenced start_attempt
count_attempt pair_id token = fenced is_stage3_running pair_id token start_attempt

-- a rate limit or a transient failure: the codes of the exception, and the delay of `retry_delay`
pub record ProviderFailure : Type 0 where
  pub failure_code : String
  pub exhausted_code : String
  pub delay : ℕ

unfoldable pub settle_failure : Settings → ℕ → ℕ → ProviderFailure → Pair → Pair
settle_failure st now attempt e p =
    if leb st.campaign_stage3_max_attempts attempt
    then record p {
      lease_owner = none;
      status = PairStatus.evaluation_failed;
      stage3_status = some EvaluationStatus.evaluation_failed;
      failure_code = some e.exhausted_code;
      lease_until = none;
    }
    else record p {
      lease_owner = none;
      status = PairStatus.shortlisted;
      failure_code = some e.failure_code;
      lease_until = some (now + e.delay);
    }

unfoldable pub store_failure : Settings → ℕ → ℕ → ProviderFailure → ℕ → ℕ → Db → Result (Db × Bool)
unfolding fenced settle_failure
store_failure st now attempt e pair_id token =
    fenced is_stage3_running pair_id token (settle_failure st now attempt e)

abbrev pub status_of_evaluation : EvaluationStatus → PairStatus
status_of_evaluation EvaluationStatus.success = PairStatus.success
status_of_evaluation EvaluationStatus.review_required = PairStatus.review_required
status_of_evaluation EvaluationStatus.evaluation_failed = PairStatus.evaluation_failed

abbrev snapshot_or_empty : Option ResultSnapshot → ResultSnapshot
snapshot_or_empty none = empty_snapshot
snapshot_or_empty (some s) = s

evaluated_snapshot : FinalCandidateEvaluation → String → Option ResultSnapshot → ResultSnapshot
evaluated_snapshot result policy snapshot =
    let base = snapshot_or_empty snapshot in
    record base { stage3_evaluation = some result; stage3_policy = some policy }

unfoldable pub settle_evaluation : ℕ → FinalCandidateEvaluation → String → Pair → Pair
unfolding evaluated_snapshot
settle_evaluation now result policy p = record p {
  status = status_of_evaluation result.evaluation_status;
  stage3_status = some result.evaluation_status;
  composite_score = result.composite_score;
  tier = result.tier;
  failure_code = result.error_code;
  result_snapshot = some (evaluated_snapshot result policy p.result_snapshot);
  lease_owner = none;
  lease_until = none;
  updated_at = now;
}

-- the last transaction of `execute_campaign_stage3`
unfoldable pub store_evaluation :
    ℕ → FinalCandidateEvaluation → String → ℕ → ℕ → Db → Result (Db × Bool)
unfolding fenced settle_evaluation
store_evaluation now result policy pair_id token =
    fenced is_stage3_running pair_id token (settle_evaluation now result policy)
