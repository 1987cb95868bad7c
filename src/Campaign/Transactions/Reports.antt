-- ===== src/Campaign/Transactions/Reports.antt =====
-- Each report is one write under a lease.
use ai_cv_screening.Prelude.{ℕ, ◌≡◌, refl, Bool, Result, ok, err}
use ai_cv_screening.Campaign.Rows.{
  Settings, PairStatus, Pair, Db, is_running, is_stage3_running, tables_after,
}
use ai_cv_screening.Campaign.Worker.{
  fenced, unreported, delayed_admission, settle_retrieval, give_back, unclaim, park, start_attempt,
  settle_failure, settle_evaluation, store_retrieval, undo_reservation, undo_claim, delay_admission,
  count_attempt, store_failure, store_evaluation,
}
use ai_cv_screening.Campaign.Transactions.{
  Report, retrieval, unreserved, unclaimed, attempted, delayed, provider_failed, evaluated, after,
  unless_raised, report,
}

-- the state in which the pair has to be
abbrev pub reporting_state : Report → PairStatus → Bool
reporting_state (retrieval now version outcome) = is_running
reporting_state unreserved = is_running
reporting_state _ = is_stage3_running

-- what is written to it
abbrev pub report_write : Settings → Report → Pair → Pair
report_write st (retrieval now version outcome) = settle_retrieval st now version outcome
report_write st unreserved = give_back
report_write st unclaimed = unclaim
report_write st attempted = start_attempt
report_write st (delayed now wait) = park now wait
report_write st (provider_failed now attempt e) = settle_failure st now attempt e
report_write st (evaluated now result policy) = settle_evaluation now result policy

unless_raised-unreported :
    (db : Db) (r : Result (Db × Bool)) → unless_raised db (unreported r) ≡ tables_after db r
unless_raised-unreported db (ok r) = refl
unless_raised-unreported db (err e) = refl

after-delayed_admission :
    (db : Db) (r : Result (Db × Bool)) → after db (delayed_admission r) ≡ tables_after db r
after-delayed_admission db (ok r) = refl
after-delayed_admission db (err e) = refl

pub report-fenced :
    (st : Settings) (r : Report) (pair_id token : ℕ) (db : Db)
    → report st r pair_id token db
      ≡ tables_after db (fenced (reporting_state r) pair_id token (report_write st r) db)
unfolding report store_retrieval undo_reservation undo_claim delay_admission count_attempt
    store_failure store_evaluation
report-fenced st (retrieval now version outcome) pair_id token db = refl
report-fenced st unreserved pair_id token db =
    unless_raised-unreported db (fenced is_running pair_id token give_back db)
report-fenced st unclaimed pair_id token db =
    unless_raised-unreported db (fenced is_stage3_running pair_id token unclaim db)
report-fenced st attempted pair_id token db = refl
report-fenced st (delayed now wait) pair_id token db =
    after-delayed_admission db (fenced is_stage3_running pair_id token (park now wait) db)
report-fenced st (provider_failed now attempt e) pair_id token db = refl
report-fenced st (evaluated now result policy) pair_id token db = refl
