-- ===== src/Tests/Runs.antt =====
-- A screening run that is claimed twice and completed by the second worker.
use ai_cv_screening.Prelude.{◌≡◌, refl, true, none, some, List, [], ◌∷◌}
use ai_cv_screening.Campaign.Rows.{default_settings}
use ai_cv_screening.Runs.{
  RunStatus, Run, RunStep, claimed, finished, run_failed, interrupted, postponed, claim_run,
  finish_run, fail_run, fail_exhausted, postpone_queued, run_steps,
}
use ai_cv_screening.Runs.Laws.{AllRunsAdvance, run_steps-AllRunsAdvance}

abbrev queued_run : Run
queued_run = record {
  id = 1;
  status = RunStatus.queued;
  attempt_count = 0;
  lease_until = some 300;
  lease_owner = none;
  failure_code = none;
  request_snapshot = some "request";
  response_snapshot = none;
  metrics = "{}";
}

abbrev claimed_run : Run
claimed_run = record queued_run {
  status = RunStatus.running;
  attempt_count = 1;
  lease_until = some 645;
  lease_owner = some 7;
}

abbrev run_history : List RunStep
run_history =
    claimed 1 10 7
    ∷ (postponed 5000 (claimed_run ∷ []) (claimed_run ∷ [])
        ∷ (claimed 1 5001 8
            ∷ (finished 1 7 true "stale" "{}"
                ∷ (finished 1 8 true "response" "{}" ∷ (run_failed 1 8 "WORKER_ERROR" true ∷ [])))))

abbrev completed_run : Run
completed_run = record queued_run {
  status = RunStatus.completed;
  attempt_count = 2;
  lease_until = none;
  request_snapshot = none;
  response_snapshot = some "response";
}

run_steps_runs : run_steps default_settings run_history (queued_run ∷ []) ≡ completed_run ∷ []
unfolding run_steps claim_run finish_run fail_run fail_exhausted postpone_queued
run_steps_runs = refl

run_steps-AllRunsAdvance_example :
    AllRunsAdvance default_settings
      (queued_run ∷ [])
      (run_steps default_settings run_history (queued_run ∷ []))
run_steps-AllRunsAdvance_example =
    run_steps-AllRunsAdvance default_settings run_history (queued_run ∷ [])

-- the last attempt, its lease over
abbrev late_run : Run
late_run = record claimed_run { attempt_count = default_settings.run_max_attempts }

-- A recovery has read the run before the worker completes it, and writes it afterwards.
overwritten :
    run_steps default_settings
      (finished 1 7 true "response" "{}" ∷ (interrupted 5000 (late_run ∷ []) ∷ []))
      (late_run ∷ [])
    ≡ record late_run {
      status = RunStatus.failed;
      lease_until = none;
      lease_owner = none;
      failure_code = some "WORKER_INTERRUPTED";
      request_snapshot = none;
      response_snapshot = some "response";
    }
      ∷ []
unfolding run_steps finish_run fail_exhausted
overwritten = refl
