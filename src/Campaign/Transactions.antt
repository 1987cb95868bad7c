-- ===== src/Campaign/Transactions.antt =====
-- The transactions of the coordinator (app/campaigns/coordinator.py) and of the workers that extract,
-- retrieve and evaluate (app/workers/tasks.py) as one state machine. Workers and coordinators run
-- concurrently; a run of the system is a sequence of their transactions in any order, of any workers,
-- with any tokens, times and results. Each locks the pairs and the documents that it writes when it
-- reads them, except the cut-off, which locks the JD alone and waits until no other transaction moves
-- its pairs. `finalize_ready_jds` commits once for each JD, so here each JD is a transaction.
pub mod Evolution
pub mod Reports
pub mod Progress
pub mod Capacity
pub mod Tokens
pub mod Fencing
use ai_cv_screening.Prelude.{ℕ, String, Bool, Option, List, [], ◌∷◌, Result, ok, err}
use ai_cv_screening.Prelude.Table.{find}
use ai_cv_screening.Scoring.Schemas.{FinalCandidateEvaluation}
use ai_cv_screening.Campaign.Rows.{
  Settings, PairStatus, Pair, Db, is_running, is_stage3_running, tables_after,
}
use ai_cv_screening.Campaign.Dispatch.{dispatch_pairs}
use ai_cv_screening.Campaign.Cutoff.{finalize_jd}
use ai_cv_screening.Campaign.Evaluation.{dispatch_stage3}
use ai_cv_screening.Campaign.Storage.{Extraction, finish_stage0}
use ai_cv_screening.Campaign.Extraction.{claim_stage0}
use ai_cv_screening.Campaign.Completion.{finalize_campaign}
use ai_cv_screening.Campaign.Worker.{
  Outcome, ProviderFailure, store_retrieval, undo_reservation, undo_claim, delay_admission,
  count_attempt, store_failure, store_evaluation,
}

-- what a worker, or the broker's failure, writes to a pair under a lease
pub data Report : Type 0 where
  retrieval : ℕ → ℕ → Outcome → Report
  unreserved unclaimed attempted : Report
  delayed : ℕ → ℕ → Report
  provider_failed : ℕ → ℕ → ProviderFailure → Report
  evaluated : ℕ → FinalCandidateEvaluation → String → Report

abbrev pub after {ℓ} : {A : Type ℓ} → Db → Result (Db × A) → Db
after db (ok r) = r.0
after db (err e) = db

abbrev pub unless_raised : Db → Result Db → Db
unless_raised db (ok d) = d
unless_raised db (err e) = db

-- the tables afterwards; an exception rolls the transaction back
unfoldable pub report : Settings → Report → ℕ → ℕ → Db → Db
report st (retrieval now version outcome) pair_id token db =
    tables_after db (store_retrieval st now version outcome pair_id token db)
report st unreserved pair_id token db = unless_raised db (undo_reservation pair_id token db)
report st unclaimed pair_id token db = unless_raised db (undo_claim pair_id token db)
report st attempted pair_id token db = tables_after db (count_attempt pair_id token db)
report st (delayed now wait) pair_id token db = after db (delay_admission now wait pair_id token db)
report st (provider_failed now attempt e) pair_id token db =
    tables_after db (store_failure st now attempt e pair_id token db)
report st (evaluated now result policy) pair_id token db =
    tables_after db (store_evaluation now result policy pair_id token db)

-- A transaction with the times, tokens and identifiers that it reads.
pub data Transaction : Type 0 where
  extraction_claimed : ℕ → ℕ → Transaction
  extraction_finished : ℕ → ℕ → ℕ → ℕ → Extraction → Transaction
  dispatched : ℕ → (ℕ → ℕ) → ℕ → Transaction
  cut_off_jd : ℕ → ℕ → Transaction
  stage3_dispatched : ℕ → (ℕ → ℕ) → ℕ → Transaction
  closed : ℕ → ℕ → Transaction
  reported : Report → ℕ → ℕ → Transaction

unfoldable pub perform : Settings → Transaction → Db → Db
unfolding report
perform st (extraction_claimed now cv_id) db = (claim_stage0 st now cv_id db).0
perform st (extraction_finished now cid owner candidate x) db =
    tables_after db (finish_stage0 now cid owner candidate x db)
perform st (dispatched now fresh cid) db = (dispatch_pairs st now fresh cid db).0
perform st (cut_off_jd now jd_id) db = tables_after db (finalize_jd now jd_id db)
perform st (stage3_dispatched now fresh cid) db = (dispatch_stage3 st now fresh cid db).0
perform st (closed now cid) db = (finalize_campaign now cid db).0
perform st (reported r pair_id token) db = report st r pair_id token db

unfoldable pub perform_all : Settings → List Transaction → Db → Db
unfolding perform
perform_all st [] db = db
perform_all st (t ∷ ts) db = perform_all st ts (perform st t db)
