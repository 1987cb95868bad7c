-- ===== src/Campaign/Transactions/Capacity.antt =====
-- How many pairs are in flight, over all campaigns, in any run of the system.
use ai_cv_screening.Prelude.{
  String, Option, none, some, is_some, inl, inr, Bool-cases, ◌&&◌, ℕ, ◌≤◌, max, List, [], ◌∷◌,
  arith, count,
}
use ai_cv_screening.Prelude.Table.{find}
use ai_cv_screening.Campaign.Rows.{Settings, CampaignCv, Db, tables_after}
use ai_cv_screening.Campaign.Dispatch.{runs}
use ai_cv_screening.Campaign.Dispatch.Bounds.{dispatch_pairs-inflight}
use ai_cv_screening.Campaign.Dispatch.Flow.{dispatch_pairs-evaluates}
use ai_cv_screening.Campaign.Cutoff.Flow.{finalize_jd-NoMore}
use ai_cv_screening.Campaign.Evaluation.{evaluates}
use ai_cv_screening.Campaign.Evaluation.Laws.{dispatch_stage3-inflight}
use ai_cv_screening.Campaign.Evaluation.Flow.{dispatch_stage3-runs}
use ai_cv_screening.Campaign.Completion.{finalize_campaign_pairs}
use ai_cv_screening.Campaign.Inflight.{StartsNone, NoMore, update_where-NoMore}
use ai_cv_screening.Campaign.Dispatch.{cv_row_key}
use ai_cv_screening.Campaign.Storage.{
  is_published, Extraction, has_error, of_cv, fail_pair, published, finish_stage0,
}
use ai_cv_screening.Campaign.Storage.Publication.{finish_stage0_cases}
use ai_cv_screening.Campaign.Extraction.{
  of_document, miss_pdf, is_extracting, is_current, claim_document, claim_stage0,
}
use ai_cv_screening.Campaign.Transactions.Reports.{reporting_state, report_write, report-fenced}
use ai_cv_screening.Campaign.Worker.Flow.{
  fenced-NoMore, settle_retrieval-StartsNone, give_back-StartsNone, unclaim-StartsNone,
  start_attempt-StartsNone, park-StartsNone, settle_failure-StartsNone,
  settle_evaluation-StartsNone,
}
use ai_cv_screening.Campaign.Transactions.{
  Report, retrieval, unreserved, unclaimed, attempted, delayed, provider_failed, evaluated, report,
  Transaction, extraction_claimed, extraction_finished, dispatched, cut_off_jd, stage3_dispatched,
  closed, reported, perform, perform_all,
}

report_write-StartsNone : (st : Settings) (r : Report) → StartsNone (report_write st r)
report_write-StartsNone st (retrieval now version outcome) =
    settle_retrieval-StartsNone st now version outcome
report_write-StartsNone st unreserved = give_back-StartsNone
report_write-StartsNone st unclaimed = unclaim-StartsNone
report_write-StartsNone st attempted = start_attempt-StartsNone
report_write-StartsNone st (delayed now wait) = park-StartsNone now wait
report_write-StartsNone st (provider_failed now attempt e) =
    settle_failure-StartsNone st now attempt e
report_write-StartsNone st (evaluated now result policy) =
    settle_evaluation-StartsNone now result policy

report-NoMore :
    (st : Settings) (r : Report) (pair_id token : ℕ) (db : Db)
    → NoMore db.pairs (report st r pair_id token db).pairs
report-NoMore st r pair_id token db = rw (report-fenced st r pair_id token db) (
    fenced-NoMore (reporting_state r) pair_id token (report_write st r) db
      (report_write-StartsNone st r))

miss_pdf-StartsNone : StartsNone miss_pdf
miss_pdf-StartsNone p = ground arith

fail_pair-StartsNone : (now : ℕ) (code : Option String) → StartsNone (fail_pair now code)
fail_pair-StartsNone now code p = ground arith

claim_document-NoMore :
    (st : Settings) (now : ℕ) (db : Db) (found : Option CampaignCv)
    → NoMore db.pairs (claim_document st now db found).0.pairs
claim_document-NoMore st now db none = (omega arith, omega arith)
claim_document-NoMore st now db (some v) = elim (Bool-cases (is_published v.stage0_status)) [
  | inl e ↦ rw e (omega arith, omega arith)
  | inr e ↦ rw e (elim (Bool-cases (is_extracting v.stage0_status && is_current st now v)) [
    | inl u ↦ rw u (omega arith, omega arith)
    | inr u ↦ rw u (elim (Bool-cases (is_some v.encrypted_pdf)) [
      | inl s ↦ rw s (omega arith, omega arith)
      | inr s ↦ rw s (update_where-NoMore (of_document v.id) miss_pdf miss_pdf-StartsNone db.pairs)
    ])
  ])
]

published-NoMore :
    (now cid candidate : ℕ) (x : Extraction) (db : Db) (v : CampaignCv)
    → NoMore db.pairs (published now cid candidate x db v).pairs
published-NoMore now cid candidate x db v = elim (Bool-cases (has_error x.error_code)) [
  | inl e ↦ rw e (
      update_where-NoMore (of_cv cid v.id) (fail_pair now x.error_code)
        (fail_pair-StartsNone now x.error_code) db.pairs)
  | inr e ↦ rw e (omega arith, omega arith)
]

finish_stage0-NoMore :
    (now cid owner candidate : ℕ) (x : Extraction) (db : Db)
    → NoMore db.pairs (tables_after db (finish_stage0 now cid owner candidate x db)).pairs
finish_stage0-NoMore now cid owner candidate x db =
    elim (finish_stage0_cases now cid owner candidate x db) [
      | inl e ↦ rw e (omega arith, omega arith)
      | inr (v, e) ↦ rw e (published-NoMore now cid candidate x db v)
    ]

-- the counts of pairs in flight that a step reaches
abbrev Within : Settings → Db → Db → Type 0
Within st db d =
    (count runs d.pairs ≤ max st.campaign_retrieval_global_inflight (count runs db.pairs))
    × (count evaluates d.pairs ≤ max st.campaign_stage3_global_inflight (count evaluates db.pairs))

perform-Within : (st : Settings) (t : Transaction) (db : Db) → Within st db (perform st t db)
unfolding perform claim_stage0
perform-Within st (extraction_claimed now cv_id) db =
    omega (arith, claim_document-NoMore st now db (find cv_row_key cv_id db.cvs))
perform-Within st (extraction_finished now cid owner candidate x) db =
    omega (arith, finish_stage0-NoMore now cid owner candidate x db)
perform-Within st (dispatched now fresh cid) db = omega (
  arith,
  dispatch_pairs-inflight st now fresh cid db,
  dispatch_pairs-evaluates st now fresh cid db,
)
perform-Within st (cut_off_jd now jd_id) db = omega (arith, finalize_jd-NoMore now jd_id db)
perform-Within st (stage3_dispatched now fresh cid) db =
    omega (
      arith,
      dispatch_stage3-inflight st now fresh cid db,
      dispatch_stage3-runs st now fresh cid db,
    )
perform-Within st (closed now cid) db = rw (finalize_campaign_pairs now cid db) (omega arith)
perform-Within st (reported r pair_id token) db = omega (arith, report-NoMore st r pair_id token db)

-- After any sequence of transactions of coordinators and of workers, those that extract, retrieve and
-- evaluate, the pairs that retrieval workers hold are, over all campaigns, at most the larger of CAMPAIGN_RETRIEVAL_GLOBAL_INFLIGHT and what
-- they held before; and the same of evaluation workers and CAMPAIGN_STAGE3_GLOBAL_INFLIGHT.
pub perform_all-inflight :
    (st : Settings) (ts : List Transaction) (db : Db)
    → (count runs (perform_all st ts db).pairs
        ≤ max st.campaign_retrieval_global_inflight (count runs db.pairs))
      × (count evaluates (perform_all st ts db).pairs
          ≤ max st.campaign_stage3_global_inflight (count evaluates db.pairs))
unfolding perform_all
perform_all-inflight st [] db = omega arith
perform_all-inflight st (t ∷ ts) db =
    omega (arith, perform-Within st t db, perform_all-inflight st ts (perform st t db))
