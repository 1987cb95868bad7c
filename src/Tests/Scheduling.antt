-- ===== src/Tests/Scheduling.antt =====
-- The transactions on small tables.
use ai_cv_screening.Prelude.{
  arith, ℕ, ◌+◌, ◌≤◌, ◌≡◌, refl, max, true, List, [], ◌∷◌, count, length, All, IsSorted, ok,
}
use ai_cv_screening.Prelude.Table.{IsKeyed}
use ai_cv_screening.Campaign.Rows.{tables_after, default_settings, JdStatus, PairStatus, Pair, Db}
use ai_cv_screening.Campaign.Lifecycle.{pair_key, AllAdvance}
use ai_cv_screening.Campaign.Claims.{IsHeld}
use ai_cv_screening.Campaign.Dispatch.{runs, runs_in, dispatch_pairs}
use ai_cv_screening.Campaign.Dispatch.Bounds.{dispatch_pairs-inflight}
use ai_cv_screening.Campaign.Dispatch.Moves.{dispatch_pairs-AllAdvance}
use ai_cv_screening.Campaign.Cutoff.{
  candidate_sort_key, row_le, is_unresolved, ranked_rows, stage3_room, finalize_jd,
  finalize_ready_jds,
}
use ai_cv_screening.Campaign.Cutoff.Placement.{IsPlaced}
use ai_cv_screening.Campaign.Cutoff.Barrier.{finalize_ready_jds-AllAdvance, finalize_jd-IsPlaced}
use ai_cv_screening.Campaign.Evaluation.{evaluates, dispatch_stage3}
use ai_cv_screening.Campaign.Evaluation.Laws.{dispatch_stage3-inflight, dispatch_stage3-AllAdvance}
use ai_cv_screening.Campaign.Completion.{
  IsSettled, HasClosed, jd_in, finalize_campaign, finalize_campaign_settles,
}
use ai_cv_screening.Campaign.Worker.{undo_reservation, count_attempt}
use ai_cv_screening.Campaign.Transactions.{
  Transaction, dispatched, cut_off_jd, stage3_dispatched, closed, reported, attempted, unreserved,
  report, perform_all,
}
use ai_cv_screening.Campaign.Transactions.Tokens.{holds}
use ai_cv_screening.Campaign.Transactions.Fencing.{AllSpare, report_fenced}
use ai_cv_screening.Campaign.Transactions.Capacity.{perform_all-inflight}
use ai_cv_screening.Tests.Rows.{jd, tables, tables-IsKeyed}

abbrev tokens : ℕ → ℕ
tokens i = i + 900

abbrev history : List Transaction
history =
    dispatched 10 tokens 1
    ∷ (cut_off_jd 11 10
        ∷ (stage3_dispatched 12 tokens 1
            ∷ (reported attempted 101 900 ∷ (reported unreserved 103 900 ∷ (closed 13 1 ∷ [])))))

statuses_after : List Pair → List (ℕ × PairStatus)
statuses_after [] = []
statuses_after (p ∷ ps) = (p.id, p.status) ∷ statuses_after ps

perform_all_runs :
    statuses_after (perform_all default_settings history tables).pairs
    ≡ (100, PairStatus.cutoff_excluded)
      ∷ ((101, PairStatus.stage3_running)
          ∷ ((102, PairStatus.running) ∷ ((103, PairStatus.pending) ∷ [])))
unfolding perform_all statuses_after finalize_campaign undo_reservation count_attempt
    dispatch_stage3 finalize_ready_jds dispatch_pairs candidate_sort_key
perform_all_runs = refl

perform_all-inflight_example :
    (count runs (perform_all default_settings history tables).pairs
      ≤ max default_settings.campaign_retrieval_global_inflight (count runs tables.pairs))
    × (count evaluates (perform_all default_settings history tables).pairs
        ≤ max default_settings.campaign_stage3_global_inflight (count evaluates tables.pairs))
perform_all-inflight_example = perform_all-inflight default_settings history tables

-- the worker of pair 102 gives its lease back, and reports once more after other transactions
abbrev given_back : Db
given_back = report default_settings unreserved 102 7 tables

given_back-NoneHeld : count (holds 7) given_back.pairs ≡ 0
unfolding report undo_reservation
given_back-NoneHeld = refl

history-AllSpare : AllSpare 7 history
history-AllSpare = ((λ i. ground arith), (tt, ((λ i. ground arith), (tt, (tt, (tt, tt))))))

report_fenced_example :
    report default_settings unreserved 102 7 (perform_all default_settings history given_back)
    ≡ perform_all default_settings history given_back
report_fenced_example =
    report_fenced default_settings unreserved 102 7 history given_back given_back-NoneHeld
      history-AllSpare

abbrev cut_tables : Db
cut_tables = tables_after tables (finalize_jd 11 10 tables)

finalize_jd_runs : finalize_jd 11 10 tables ≡ ok (cut_tables, true)
unfolding finalize_jd candidate_sort_key
finalize_jd_runs = refl

finalize_jd-IsPlaced_example :
    (count (is_unresolved 10) tables.pairs ≡ 0)
    × IsSorted (row_le tables) (ranked_rows tables 10)
    × IsPlaced tables
        (stage3_room (jd 10 1 JdStatus.pending))
        (ranked_rows tables 10)
        cut_tables.pairs
finalize_jd-IsPlaced_example =
    finalize_jd-IsPlaced 11 tables cut_tables (jd 10 1 JdStatus.pending) tables-IsKeyed refl
      finalize_jd_runs

finalize_ready_jds-AllAdvance_example :
    AllAdvance default_settings tables.pairs (finalize_ready_jds 11 1 tables).0.pairs
finalize_ready_jds-AllAdvance_example =
    finalize_ready_jds-AllAdvance default_settings 11 1 tables tables-IsKeyed

dispatch_pairs-inflight_example :
    (count runs (dispatch_pairs default_settings 10 tokens 1 tables).0.pairs
      ≤ max default_settings.campaign_retrieval_global_inflight (count runs tables.pairs))
    × (count (runs_in 1) (dispatch_pairs default_settings 10 tokens 1 tables).0.pairs
        ≤ max default_settings.campaign_retrieval_inflight (count (runs_in 1) tables.pairs))
    × (length (dispatch_pairs default_settings 10 tokens 1 tables).1
        ≤ default_settings.campaign_dispatch_batch)
dispatch_pairs-inflight_example = dispatch_pairs-inflight default_settings 10 tokens 1 tables

dispatch_pairs-AllAdvance_example :
    AllAdvance default_settings tables.pairs
      (dispatch_pairs default_settings 60 tokens 1 tables).0.pairs
    × All
        (IsHeld PairStatus.running (dispatch_pairs default_settings 60 tokens 1 tables).0.pairs)
        (dispatch_pairs default_settings 60 tokens 1 tables).1
dispatch_pairs-AllAdvance_example =
    dispatch_pairs-AllAdvance default_settings 60 tokens 1 tables tables-IsKeyed

dispatch_stage3-inflight_example :
    (count evaluates (dispatch_stage3 default_settings 10 tokens 1 tables).0.pairs
      ≤ max default_settings.campaign_stage3_global_inflight (count evaluates tables.pairs))
    × (length (dispatch_stage3 default_settings 10 tokens 1 tables).1
        ≤ default_settings.campaign_dispatch_batch)
dispatch_stage3-inflight_example = dispatch_stage3-inflight default_settings 10 tokens 1 tables

-- after the cut-off, one pair waits for its evaluation
cut_tables-IsKeyed : IsKeyed pair_key cut_tables.pairs
unfolding finalize_jd candidate_sort_key
cut_tables-IsKeyed = tables-IsKeyed

dispatch_stage3-AllAdvance_example :
    AllAdvance default_settings cut_tables.pairs
      (dispatch_stage3 default_settings 12 tokens 1 cut_tables).0.pairs
    × All
        (IsHeld PairStatus.stage3_running
          (dispatch_stage3 default_settings 12 tokens 1 cut_tables).0.pairs)
        (dispatch_stage3 default_settings 12 tokens 1 cut_tables).1
dispatch_stage3-AllAdvance_example =
    dispatch_stage3-AllAdvance default_settings 12 tokens 1 cut_tables cut_tables-IsKeyed

tables-IsSettled : All (IsSettled tables.pairs) tables.jds
tables-IsSettled = (λ h. cc, (λ h. cc, tt))

finalize_campaign_settles_example :
    ((finalize_campaign 13 1 tables).0.pairs ≡ tables.pairs)
    × All (IsSettled tables.pairs) (finalize_campaign 13 1 tables).0.jds
    × ((finalize_campaign 13 1 tables).1 ≡ true
        → All
            (λ j. jd_in 1 j ≡ true → HasClosed tables.pairs j)
            (finalize_campaign 13 1 tables).0.jds)
finalize_campaign_settles_example = finalize_campaign_settles 13 1 tables tables-IsSettled
