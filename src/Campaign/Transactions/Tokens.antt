-- ===== src/Campaign/Transactions/Tokens.antt =====
-- No transaction but a dispatch that issues it puts a pair under a lease token.
use ai_cv_screening.Prelude.{
  ℕ, ◌+◌, ◌≤◌, ◌≡◌, ◌≢◌, Bool, true, false, ◌&&◌, Option, none, some, List, [], ◌∷◌, arith, inl,
  inr, Bool-cases, opt_eq, is_some, ltb, any, filter, count,
}
use ai_cv_screening.Prelude.Table.{
  find, update, update_where, count-update-le_of, count-update_where-le,
}
use ai_cv_screening.Campaign.Rows.{
  PairStatus, Settings, CampaignJd, CampaignCv, Pair, Db, tables_after, is_open_jd,
}
use ai_cv_screening.Campaign.Lifecycle.{pair_key}
use ai_cv_screening.Campaign.Claims.{count-claim_rows-le_of}
use ai_cv_screening.Campaign.Dispatch.{
  campaign_active, cv_row_key, jd_row_key, release_expired, is_expired, release_all, lease,
  selected_rows, dispatch_pairs,
}
use ai_cv_screening.Campaign.Cutoff.{
  Payload, place, write, next_selected, rank_rows, payload, row_eligible, stage3_room, ranked_rows,
  is_unresolved, is_ranked, unscored, cut_off, finalize_found, finalize_jd,
}
use ai_cv_screening.Campaign.Evaluation.{
  release_evaluation, evaluation_expired, release_evaluations, claim, evaluation_rows,
  dispatch_stage3,
}
use ai_cv_screening.Campaign.Completion.{finalize_campaign_pairs}
use ai_cv_screening.Campaign.Storage.{
  is_published, Extraction, has_error, of_cv, fail_pair, finish_stage0,
}
use ai_cv_screening.Campaign.Storage.Publication.{finish_stage0_cases}
use ai_cv_screening.Campaign.Extraction.{
  of_document, miss_pdf, is_extracting, is_current, claim_document, claim_stage0,
}
use ai_cv_screening.Campaign.Worker.{
  owns, fence, fenced, failed, rejected, retrieved, record_details, settle_retrieval, give_back,
  unclaim, park, start_attempt, settle_failure, settle_evaluation,
}
use ai_cv_screening.Campaign.Transactions.{
  Report, retrieval, unreserved, unclaimed, attempted, delayed, provider_failed, evaluated, report,
  Transaction, extraction_claimed, extraction_finished, dispatched, cut_off_jd, stage3_dispatched,
  closed, reported, perform,
}
use ai_cv_screening.Campaign.Transactions.Reports.{reporting_state, report_write, report-fenced}

-- the pair is held under the token
abbrev pub holds : ℕ → Pair → Bool
holds token p = opt_eq p.lease_owner (some token)

-- the transaction does not give out the token
abbrev pub Spares : ℕ → Transaction → Type 0
Spares token (dispatched now fresh cid) = (i : ℕ) → fresh i ≢ token
Spares token (stage3_dispatched now fresh cid) = (i : ℕ) → fresh i ≢ token
Spares token _ = Unit {0}

module _ (token : ℕ) where
  abbrev Leaves : (Pair → Pair) → Type 0
  Leaves write = (p : Pair) → holds token (write p) ≡ true → holds token p ≡ true

  abbrev NoMoreHeld : List Pair → List Pair → Type 0
  NoMoreHeld ps qs = count (holds token) qs ≤ count (holds token) ps

  report_write-Leaves : (st : Settings) (r : Report) → Leaves (report_write st r)
  unfolding settle_retrieval record_details give_back unclaim park start_attempt settle_failure
      settle_evaluation
  report_write-Leaves st (retrieval now version (failed none error)) p = ground arith
  report_write-Leaves st (retrieval now version (failed (some d) error)) p = ground arith
  report_write-Leaves st (retrieval now version (rejected d)) p = ground arith
  report_write-Leaves st (retrieval now version (retrieved d e score)) p = ground arith
  report_write-Leaves st unreserved p = ground arith
  report_write-Leaves st unclaimed p = ground arith
  report_write-Leaves st attempted p = λ h. h
  report_write-Leaves st (delayed now wait) p = ground arith
  report_write-Leaves st (provider_failed now attempt e) p = ground arith
  report_write-Leaves st (evaluated now result policy) p = ground arith

  fence-NoMoreHeld :
      (state : PairStatus → Bool) (own : ℕ) (write : Pair → Pair) (db : Db) (found : Option Pair)
      → Leaves write
      → NoMoreHeld db.pairs (tables_after db (fence state own write db found)).pairs
  fence-NoMoreHeld state own write db none h = omega arith
  fence-NoMoreHeld state own write db (some p) h = elim (Bool-cases (owns state own p)) [
    | inl e ↦ rw e (count-update-le_of pair_key (holds token) p.id write h db.pairs)
    | inr e ↦ rw e (omega arith)
  ]

  report-NoMoreHeld :
      (st : Settings) (r : Report) (pair_id own : ℕ) (db : Db)
      → NoMoreHeld db.pairs (report st r pair_id own db).pairs
  unfolding fenced
  report-NoMoreHeld st r pair_id own db = rw (report-fenced st r pair_id own db) (
      fence-NoMoreHeld (reporting_state r) own (report_write st r) db
        (find pair_key pair_id db.pairs) (report_write-Leaves st r))

  where_held :
      (selects : Pair → Bool) (write : Pair → Pair)
      → Leaves write
      → (ps : List Pair) → NoMoreHeld ps (update_where selects write ps)
  where_held selects write h ps = count-update_where-le (holds token) selects write (λ a e. h a) ps

  claim_document-NoMoreHeld :
      (st : Settings) (now : ℕ) (db : Db) (found : Option CampaignCv)
      → NoMoreHeld db.pairs (claim_document st now db found).0.pairs
  claim_document-NoMoreHeld st now db none = omega arith
  claim_document-NoMoreHeld st now db (some v) = elim (Bool-cases (is_published v.stage0_status)) [
    | inl e ↦ rw e (omega arith)
    | inr e ↦ rw e (elim (Bool-cases (is_extracting v.stage0_status && is_current st now v)) [
      | inl u ↦ rw u (omega arith)
      | inr u ↦ rw u (elim (Bool-cases (is_some v.encrypted_pdf)) [
        | inl s ↦ rw s (omega arith)
        | inr s ↦ rw s (where_held (of_document v.id) miss_pdf (λ p. ground arith) db.pairs)
      ])
    ])
  ]

  finish_stage0-NoMoreHeld :
      (now cid owner candidate : ℕ) (x : Extraction) (db : Db)
      → NoMoreHeld db.pairs (tables_after db (finish_stage0 now cid owner candidate x db)).pairs
  finish_stage0-NoMoreHeld now cid owner candidate x db =
      elim (finish_stage0_cases now cid owner candidate x db) [
        | inl e ↦ rw e (omega arith)
        | inr (v, e) ↦ rw e (elim (Bool-cases (has_error x.error_code)) [
          | inl f ↦ rw f (
              where_held (of_cv cid v.id) (fail_pair now x.error_code) (λ p. ground arith) db.pairs)
          | inr f ↦ rw f (omega arith)
        ])
      ]

  dispatch_pairs-NoMoreHeld :
      (st : Settings) (now : ℕ) (fresh : ℕ → ℕ) (cid : ℕ) (db : Db)
      → ((i : ℕ) → fresh i ≢ token)
      → NoMoreHeld db.pairs (dispatch_pairs st now fresh cid db).0.pairs
  unfolding dispatch_pairs release_all release_expired lease
  dispatch_pairs-NoMoreHeld st now fresh cid db other = elim (Bool-cases (campaign_active db cid)) [
    | inr e ↦ rw e (omega arith)
    | inl e ↦
        let ps = release_all st now cid db.pairs in
        rw e (
          omega (
            arith,
            count-claim_rows-le_of (lease st now) fresh (holds token)
                (λ i p h. ground (arith, other i)) 0 (selected_rows st db cid ps) ps,
            where_held (is_expired now cid) (release_expired st) (λ p. ground arith) db.pairs,
          ))
  ]

  dispatch_stage3-NoMoreHeld :
      (st : Settings) (now : ℕ) (fresh : ℕ → ℕ) (cid : ℕ) (db : Db)
      → ((i : ℕ) → fresh i ≢ token)
      → NoMoreHeld db.pairs (dispatch_stage3 st now fresh cid db).0.pairs
  unfolding dispatch_stage3 release_evaluations release_evaluation claim
  dispatch_stage3-NoMoreHeld st now fresh cid db other =
      elim (Bool-cases (campaign_active db cid)) [
        | inr e ↦ rw e (omega arith)
        | inl e ↦
            let ps = release_evaluations st now cid db.pairs in
            rw e (
              omega (
                arith,
                count-claim_rows-le_of (claim st now) fresh (holds token)
                    (λ i p h. ground (arith, other i)) 0 (evaluation_rows st now db cid ps) ps,
                where_held (evaluation_expired now cid) (release_evaluation st) (λ p. ground arith)
                    db.pairs,
              ))
      ]

  place-Leaves :
      (now rank : ℕ) (evidence : Payload) (fit room : Bool)
      → Leaves (place now rank evidence fit room)
  unfolding place
  place-Leaves now rank evidence true true p = λ h. h
  place-Leaves now rank evidence true false p = λ h. h
  place-Leaves now rank evidence false room p = λ h. h

  rank_rows-NoMoreHeld :
      (db : Db) (now limit selected rank : ℕ) (rows table : List Pair)
      → NoMoreHeld table (rank_rows db now limit selected rank rows table)
  unfolding rank_rows
  rank_rows-NoMoreHeld db now limit selected rank [] table = omega arith
  rank_rows-NoMoreHeld db now limit selected rank (r ∷ rows) table =
      let w = write db now limit selected rank r in
      omega (
        arith,
        count-update-le_of pair_key (holds token) r.id w
            (place-Leaves now rank (payload db r) (row_eligible db r) (ltb selected limit)) table,
        rank_rows-NoMoreHeld db now limit (next_selected db limit selected r) (rank + 1) rows
            (update pair_key r.id w table),
      )

  finalize_found-NoMoreHeld :
      (now : ℕ) (db : Db) (found : Option CampaignJd)
      → NoMoreHeld db.pairs (tables_after db (finalize_found now db found)).pairs
  unfolding finalize_found cut_off
  finalize_found-NoMoreHeld now db none = omega arith
  finalize_found-NoMoreHeld now db (some jd) = elim (Bool-cases (is_open_jd jd.status)) [
    | inr e ↦ rw e (omega arith)
    | inl e ↦ rw e (elim (Bool-cases (ltb 0 (count (is_unresolved jd.id) db.pairs))) [
      | inl u ↦ rw u (omega arith)
      | inr u ↦ rw u (elim (Bool-cases (any unscored (filter (is_ranked db jd.id) db.pairs))) [
        | inl s ↦ rw s (omega arith)
        | inr s ↦
            rw s (rank_rows-NoMoreHeld db now (stage3_room jd) 0 1 (ranked_rows db jd.id) db.pairs)
      ])
    ])
  ]

  pub perform-NoMoreHeld :
      (st : Settings) (t : Transaction) (db : Db)
      → Spares token t
      → count (holds token) (perform st t db).pairs ≤ count (holds token) db.pairs
  unfolding perform claim_stage0 finalize_jd
  perform-NoMoreHeld st (extraction_claimed now cv_id) db h =
      claim_document-NoMoreHeld st now db (find cv_row_key cv_id db.cvs)
  perform-NoMoreHeld st (extraction_finished now cid owner candidate x) db h =
      finish_stage0-NoMoreHeld now cid owner candidate x db
  perform-NoMoreHeld st (dispatched now fresh cid) db h =
      dispatch_pairs-NoMoreHeld st now fresh cid db h
  perform-NoMoreHeld st (cut_off_jd now jd_id) db h =
      finalize_found-NoMoreHeld now db (find jd_row_key jd_id db.jds)
  perform-NoMoreHeld st (stage3_dispatched now fresh cid) db h =
      dispatch_stage3-NoMoreHeld st now fresh cid db h
  perform-NoMoreHeld st (closed now cid) db h =
      rw (finalize_campaign_pairs now cid db) (omega arith)
  perform-NoMoreHeld st (reported r pair_id own) db h = report-NoMoreHeld st r pair_id own db
