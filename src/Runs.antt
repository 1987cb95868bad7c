-- ===== src/Runs.antt =====
-- The screening runs of app/workers/tasks.py: `execute_run` claims a run under a lease, computes
-- outside any transaction, and completes or fails it, each with the row locked; `find_recoverable_runs`
-- fails the runs that no attempt is left for and postpones the queued ones, in two transactions that
-- lock nothing before they write.
pub mod Laws
pub mod Finality
use ai_cv_screening.Prelude.{
  ℕ, ◌+◌, String, Bool, true, false, not, ◌&&◌, ◌||◌, Option, none, some, List, [], ◌∷◌, ltb, leb,
  ◌==◌, opt_eq, if◌then◌else◌, is_some, map, filter, any,
}
use ai_cv_screening.Prelude.Table.{update, update_where}
use ai_cv_screening.Campaign.Rows.{Settings}

pub data RunStatus : Type 0 where
  queued running completed failed : RunStatus

-- a row of screening_runs; the snapshots are texts
pub record Run : Type 0 where
  pub id : ℕ
  pub status : RunStatus
  pub attempt_count : ℕ
  pub lease_until : Option ℕ
  pub lease_owner : Option ℕ
  pub failure_code : Option String
  pub request_snapshot : Option String
  pub response_snapshot : Option String
  pub metrics : String

abbrev pub run_key : Run → ℕ
run_key r = r.id

abbrev pub is_completed : RunStatus → Bool
is_completed RunStatus.completed = true
is_completed _ = false

abbrev pub is_running_run : RunStatus → Bool
is_running_run RunStatus.running = true
is_running_run _ = false

-- `COMPLETED` or `FAILED`
abbrev pub is_ended : RunStatus → Bool
is_ended RunStatus.completed = true
is_ended RunStatus.failed = true
is_ended _ = false

abbrev pub is_queued : RunStatus → Bool
is_queued RunStatus.queued = true
is_queued _ = false

-- `lease_until and lease_until > now`
abbrev pub is_leased : ℕ → Option ℕ → Bool
is_leased now none = false
is_leased now (some t) = ltb now t

-- `lease_until < now` in SQL
abbrev pub is_overdue : ℕ → Option ℕ → Bool
is_overdue now none = false
is_overdue now (some t) = ltb t now

abbrev start_run : Settings → ℕ → ℕ → Run → Run
start_run st now owner r = record r {
  status = RunStatus.running;
  attempt_count = r.attempt_count + 1;
  lease_until = some (now + (st.run_timeout_seconds + 35));
  lease_owner = some owner;
  failure_code = none;
}

-- the first transaction of `execute_run`, on the row that it found
unfoldable pub claim_run : Settings → ℕ → ℕ → Run → Run × String
claim_run st now owner r =
    if is_completed r.status
    then (r, "ALREADY_COMPLETE")
    else if is_running_run r.status && is_leased now r.lease_until
    then (r, "ALREADY_RUNNING")
    else if not (is_some r.request_snapshot)
    then (r, "NOT_RUNNABLE")
    else if leb st.run_max_attempts r.attempt_count
    then (
      record r { status = RunStatus.failed; failure_code = some "ATTEMPTS_EXHAUSTED" },
      "ATTEMPTS_EXHAUSTED",
    )
    else (start_run st now owner r, "CLAIMED")

-- The last transaction of `execute_run`. `accounted` is whether `validate_accounting` accepts the
-- result; where it raises, the transaction changes nothing.
unfoldable pub finish_run : ℕ → Bool → String → String → Run → Run × String
finish_run owner accounted response metrics r =
    if is_completed r.status
    then (r, "ALREADY_COMPLETE")
    else if not (is_running_run r.status && opt_eq r.lease_owner (some owner))
    then (r, "LEASE_LOST")
    else if not accounted
    then (r, "ValueError")
    else (
      record r {
        status = RunStatus.completed;
        lease_until = none;
        lease_owner = none;
        request_snapshot = none;
        response_snapshot = some response;
        metrics = metrics;
      },
      "COMPLETED",
    )

abbrev without_request : Bool → Run → Run
without_request true r = record r { request_snapshot = none }
without_request false r = r

-- the handler of `execute_run`; `final` is whether the error is a `NonRetryableRunError`
unfoldable pub fail_run : ℕ → String → Bool → Run → Run
fail_run owner code final r =
    if not (is_completed r.status) && opt_eq r.lease_owner (some owner)
    then without_request final (record r {
      status = RunStatus.failed;
      lease_until = none;
      lease_owner = none;
      failure_code = some code;
    })
    else r

abbrev pub is_exhausted : Settings → ℕ → Run → Bool
is_exhausted st now r =
    is_running_run r.status
    && (is_overdue now r.lease_until && leb st.run_max_attempts r.attempt_count)

abbrev pub interrupt : Run → Run
interrupt r = record r {
  status = RunStatus.failed;
  failure_code = some "WORKER_INTERRUPTED";
  lease_owner = none;
  lease_until = none;
}

-- the condition of the query for runs to enqueue again
abbrev pub is_recoverable : Settings → ℕ → Run → Bool
is_recoverable st now r =
    is_some r.request_snapshot
    && (ltb r.attempt_count st.run_max_attempts
        && ((is_queued r.status || is_running_run r.status) && is_overdue now r.lease_until))

-- The rows that a query of `seen` selects. `find_recoverable_runs` reads without a lock, so `seen` is
-- the table at the query, and other transactions may have run before the write.
abbrev pub was_selected : (Run → Bool) → List Run → Run → Bool
was_selected selects seen r = any (λ (s : Run). s.id == r.id && selects s) seen

-- the first transaction of `find_recoverable_runs`, which writes by the key alone
unfoldable pub fail_exhausted : Settings → ℕ → List Run → List Run → List Run
fail_exhausted st now seen runs =
    update_where (was_selected (is_exhausted st now) seen) interrupt runs

abbrev pub postpone : Settings → ℕ → Run → Run
postpone st now r = record r { lease_until = some (now + st.queue_recovery_seconds) }

-- the runs that the second transaction postpones: its query saw `seen`, and `db.get` then saw `got`
abbrev pub is_postponed : Settings → ℕ → List Run → List Run → Run → Bool
is_postponed st now seen got r =
    was_selected (is_recoverable st now) seen r
    && was_selected (λ (s : Run). is_queued s.status) got r

-- the second transaction, and the runs to enqueue
unfoldable pub postpone_queued : Settings → ℕ → List Run → List Run → List Run → List Run × List ℕ
postpone_queued st now seen got runs = (
  update_where (is_postponed st now seen got) (postpone st now) runs,
  map run_key (filter (is_recoverable st now) seen),
)

pub data RunStep : Type 0 where
  claimed : ℕ → ℕ → ℕ → RunStep
  finished : ℕ → ℕ → Bool → String → String → RunStep
  run_failed : ℕ → ℕ → String → Bool → RunStep
  interrupted : ℕ → List Run → RunStep
  postponed : ℕ → List Run → List Run → RunStep

-- a transaction on the table; the first number of the first three is the key of the run
unfoldable pub run_step : Settings → RunStep → List Run → List Run
run_step st (claimed id now owner) runs = update run_key id (λ r. (claim_run st now owner r).0) runs
run_step st (finished id owner accounted response metrics) runs =
    update run_key id (λ r. (finish_run owner accounted response metrics r).0) runs
run_step st (run_failed id owner code final) runs =
    update run_key id (fail_run owner code final) runs
run_step st (interrupted now seen) runs = fail_exhausted st now seen runs
run_step st (postponed now seen got) runs = (postpone_queued st now seen got runs).0

unfoldable pub run_steps : Settings → List RunStep → List Run → List Run
unfolding run_step
run_steps st [] runs = runs
run_steps st (s ∷ steps) runs = run_steps st steps (run_step st s runs)
