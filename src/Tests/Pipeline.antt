-- ===== src/Tests/Pipeline.antt =====
-- The synchronous pipeline on small batches.
use ai_cv_screening.Prelude.{
  ℕ, ◌≡◌, refl, true, false, none, some, [], ◌∷◌, List, arith, ok, err, if◌then◌else◌, ◌==◌,
}
use ai_cv_screening.Prelude.Table.{IsKeyed}
use ai_cv_screening.Rules.Contracts.{
  AuthorizationStatus, AttributeSource, CandidateInput, consistent_authorization,
}
use ai_cv_screening.Rules.Engine.{fail, Details}
use ai_cv_screening.Campaign.Cutoff.{scoring_version}
use ai_cv_screening.Pipeline.Ledger.{Stage, Code, new_metrics, event, processed}
use ai_cv_screening.Pipeline.Stages.{
  Applicant, Evidence, Retrieved, plain_item, decision_event, rank_and_filter_candidate_batch,
}
use ai_cv_screening.Pipeline.Run.{
  Report, Backend, Services, applicant_id, validate_inputs, run_end_to_end_screening_pipeline,
}
use ai_cv_screening.Pipeline.Accounting.{
  check_lists, check_counts, check_metrics, validate_accounting,
}
use ai_cv_screening.Pipeline.Total.{Accepted, run_end_to_end_screening_pipeline-Accepted}
use ai_cv_screening.Pipeline.Ranking.{IsBest, rank_and_filter_candidate_batch-IsBest}
use ai_cv_screening.Pipeline.Soundness.{Accounts, validate_accounting-Accounts}
use ai_cv_screening.Tests.Screening.{rules, reading, evaluation}
use ai_cv_screening.Pipeline.Leaderboard.{evaluations, result_loop-leaderboard}
use ai_cv_screening.Pipeline.Ledger.{Progress}
use ai_cv_screening.Pipeline.Stages.{Survivor}
use ai_cv_screening.Pipeline.Run.{start, judged, take_result, result_loop}

abbrev input : CandidateInput
input = record {
  work_authorized = AuthorizationStatus.eligible;
  work_authorized_set = true;
  authorization_source = AttributeSource.recruiter_verified;
  parsed_attributes = record {
    experience_years = none;
    experience_source = AttributeSource.unknown;
    work_authorized = AuthorizationStatus.eligible;
    authorization_source = AttributeSource.unknown;
  };
  recruiter_overrides = record { experience_years = none; work_authorized = none };
}

abbrev applicant : ℕ → Applicant
applicant k = record { candidate_id = k; input = input }

abbrev evidence : ℕ → ℕ → Evidence
evidence k score = record {
  payload = record {
    candidate_id = k;
    composite_score = some score;
    scoring_version = some scoring_version;
    shortlist_eligible = some true;
    responsibility_coverage = 0;
    applied_coverage = 0;
    relevance_reason = none;
  };
  relevance_review_required = false;
}

-- one CV cannot be read, evidence is found for all, and the language model answers nothing
abbrev services : Services
services = record {
  name = λ k. "candidate";
  read = λ k. if k == 8 then err "unreadable" else ok reading;
  extract = λ k. ok (evidence k 500000);
  evaluate = λ chosen. err "timeout";
}

abbrev development : Backend
development = record { is_production = false; is_postgres = false }

abbrev batch : List Applicant
batch = applicant 7 ∷ (applicant 8 ∷ (applicant 9 ∷ []))

batch-IsKeyed : IsKeyed applicant_id batch
batch-IsKeyed = ((omega arith, (omega arith, tt)), ((omega arith, tt), (tt, tt)))

batch_valid : validate_inputs batch ≡ ok tt
unfolding consistent_authorization
batch_valid = refl

run_end_to_end_screening_pipeline-Accepted_example :
    Accepted
      (7 ∷ (8 ∷ (9 ∷ [])))
      (run_end_to_end_screening_pipeline services development (ok rules) true 1 batch)
run_end_to_end_screening_pipeline-Accepted_example =
    run_end_to_end_screening_pipeline-Accepted services development rules 1 batch (omega arith)
      (omega arith) refl batch-IsKeyed batch_valid

abbrev details : Details
details = record { status = fail; checks = [] }

abbrev retrieved_row : ℕ → ℕ → Retrieved
retrieved_row k score = record {
  candidate_id = k;
  evidence = evidence k score;
  filter_details = details;
}

abbrev payloads : List Retrieved
payloads = retrieved_row 7 400000 ∷ (retrieved_row 8 700000 ∷ (retrieved_row 9 600000 ∷ []))

rank_and_filter_candidate_batch-IsBest_example :
    (ys : List Retrieved) × (rank_and_filter_candidate_batch 2 payloads ≡ ok ys)
    × IsBest 2 payloads ys
rank_and_filter_candidate_batch-IsBest_example =
    rank_and_filter_candidate_batch-IsBest 2 payloads (omega arith) (omega arith) refl

-- a candidate that the hard filters reject
abbrev rejection : Report
rejection = record {
  metrics = record (new_metrics 1) {
    stage0_processed = 1;
    stage1_rejected = 1;
    accounted_candidates = 1;
  };
  leaderboard = [];
  rejected_candidates = plain_item 7 "FAILED_STAGE1_FILTERS" ∷ [];
  review_candidates = [];
  failed_candidates = [];
  outcomes =
      record {
        candidate_id = 7;
        outcome = some Code.filter_rejected;
        stage = some Stage.stage1;
        stage_history = event Stage.stage0 processed ∷ (decision_event details ∷ []);
        result_snapshot = some (plain_item 7 "FAILED_STAGE1_FILTERS");
      }
      ∷ [];
}

rejection_valid : validate_accounting rejection (7 ∷ []) ≡ ok tt
unfolding validate_accounting check_lists check_counts check_metrics
rejection_valid = refl

validate_accounting-Accounts_example : Accounts (7 ∷ []) rejection
validate_accounting-Accounts_example =
    validate_accounting-Accounts rejection (7 ∷ []) rejection_valid

abbrev one_survivor : List Survivor
one_survivor = record { candidate_id = 7; filter_details = details } ∷ []

abbrev before : Progress
before = start (applicant 7 ∷ [])

abbrev after : Progress
after = take_result (judged 7 evaluation) details before

one_result : result_loop one_survivor (judged 7 evaluation ∷ []) before ≡ ok after
unfolding result_loop
one_result = refl

result_loop-leaderboard_example : evaluations after.leaderboard ≡ some evaluation ∷ []
result_loop-leaderboard_example =
    result_loop-leaderboard one_survivor (judged 7 evaluation ∷ []) before after one_result
