-- ===== src/Campaign/Extraction.antt =====
-- The first transaction of `execute_campaign_stage0` in app/workers/tasks.py, which claims a document
-- for its extraction. The extraction ends by `finish_stage0`, a transaction of Campaign/Storage.
use ai_cv_screening.Prelude.{
  ℕ, ◌+◌, String, Bool, true, false, not, ◌&&◌, Option, none, some, ltb, ◌==◌, if◌then◌else◌,
  is_some,
}
use ai_cv_screening.Prelude.Table.{find, update, update_where}
use ai_cv_screening.Campaign.Rows.{
  Settings, Stage0Status, PairStatus, CampaignCv, Pair, Db, is_pending,
}
use ai_cv_screening.Campaign.Dispatch.{cv_row_key}
use ai_cv_screening.Campaign.Storage.{is_published}

abbrev pub is_extracting : Stage0Status → Bool
is_extracting Stage0Status.running = true
is_extracting _ = false

-- `updated_at > now - (RUN_TIMEOUT_SECONDS + 35)`
abbrev pub is_current : Settings → ℕ → CampaignCv → Bool
is_current st now v = ltb now (v.updated_at + (st.run_timeout_seconds + 35))

abbrev pub of_document : ℕ → Pair → Bool
of_document cv_id p = p.cv_id == cv_id

-- the body of the loop over the pairs of a document without a PDF
abbrev pub miss_pdf : Pair → Pair
miss_pdf p =
    if is_pending p.status
    then record p { status = PairStatus.extraction_failed; failure_code = some "PDF_MISSING" }
    else p

abbrev pub without_pdf : CampaignCv → Db → Db
without_pdf v db = record db {
  cvs =
      update cv_row_key v.id
        (λ (u : CampaignCv). record u {
          stage0_status = Stage0Status.failed;
          extraction_error_code = some "PDF_MISSING";
        })
        db.cvs;
  pairs = update_where (of_document v.id) miss_pdf db.pairs;
}

abbrev pub extracting : ℕ → CampaignCv → Db → Db
extracting now v db = record db {
  cvs =
      update cv_row_key v.id
        (λ (u : CampaignCv). record u { stage0_status = Stage0Status.running; updated_at = now })
        db.cvs;
}

-- the transaction on the row that the query found, with what it returns
abbrev pub claim_document : Settings → ℕ → Db → Option CampaignCv → Db × String
claim_document st now db none = (db, "ALREADY_COMPLETE")
claim_document st now db (some v) =
    if is_published v.stage0_status
    then (db, "ALREADY_COMPLETE")
    else if is_extracting v.stage0_status && is_current st now v
    then (db, "ALREADY_RUNNING")
    else if not (is_some v.encrypted_pdf)
    then (without_pdf v db, "PDF_MISSING")
    else (extracting now v db, "CLAIMED")

unfoldable pub claim_stage0 : Settings → ℕ → ℕ → Db → Db × String
claim_stage0 st now cv_id db = claim_document st now db (find cv_row_key cv_id db.cvs)
