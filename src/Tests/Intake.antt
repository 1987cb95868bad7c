-- ===== src/Tests/Intake.antt =====
-- The intake and the publication of texts on small tables.
use ai_cv_screening.Prelude.{
  ◌≤◌, count, ℕ, ◌+◌, ◌*◌, ◌≡◌, ◌≢◌, refl, true, false, ◌&&◌, none, some, [], ◌∷◌, arith, ok, err,
  filter, count, All,
}
use ai_cv_screening.Campaign.Rows.{
  CampaignStatus, JdStatus, Stage0Status, CampaignCv, Db, is_terminal,
}
use ai_cv_screening.Campaign.Storage.{
  Submission, Extraction, with_cv, reserve_cv, is_candidate, publish, has_error, of_cv,
  finish_stage0,
}
use ai_cv_screening.Campaign.Storage.Accounting.{is_pair, IsRegistered, reserve_cv-IsRegistered}
use ai_cv_screening.Campaign.Storage.Counting.{
  Counts, pair_in, sum_counts, campaign_counts, campaign_counts_total,
}
use ai_cv_screening.Campaign.Storage.Publication.{KeepsEnded, finish_stage0_once}
use ai_cv_screening.Campaign.Reservation.{Request, with_campaign, reserve_campaign}
use ai_cv_screening.Campaign.Reservation.Retry.{reserve_campaign_retry}
use ai_cv_screening.Tests.Rows.{campaign, jd, cv, tables}

abbrev ids : ℕ → ℕ
ids i = i + 40

abbrev open_tables : Db
open_tables = record {
  campaigns = record campaign { status = CampaignStatus.intake } ∷ [];
  jds = jd 10 1 JdStatus.pending ∷ (jd 11 1 JdStatus.pending ∷ []);
  cvs = [];
  pairs = [];
}

abbrev submission : Submission
submission = record { candidate_id = 7; source_filename = 1; content_hash = 2; pdf = some "pdf" }

abbrev filled_tables : Db
filled_tables = with_cv 5 ids 1 submission open_tables

open_tables-IsRegistered : IsRegistered open_tables
open_tables-IsRegistered = record {
  matched = λ c jd_id cv_id. ground arith;
  accounted = λ c. grind arith;
  distinct_jds = λ jd_id. ground arith;
  distinct_cvs = λ cv_id. omega arith;
  distinct_candidates = λ c candidate. omega arith;
}

reserve_cv_runs :
    reserve_cv 5 ids 1 5 submission open_tables open_tables ≡ ok (filled_tables, true, 40)
unfolding reserve_cv
reserve_cv_runs = refl

reserve_cv-IsRegistered_example :
    IsRegistered filled_tables
    × ((c jd_id cv_id : ℕ) → count (is_pair c jd_id cv_id) filled_tables.pairs ≤ 1)
reserve_cv-IsRegistered_example =
    reserve_cv-IsRegistered 5 ids 1 5 submission open_tables open_tables filled_tables true 40
      open_tables-IsRegistered reserve_cv_runs

campaign_counts_total_example :
    (r : Counts) × (campaign_counts 1 5 tables ≡ ok r)
    × (sum_counts r.pairs ≡ r.jds * r.cvs)
    × (r.terminal_pairs ≡ count (λ p. pair_in 1 p && is_terminal p.status) tables.pairs)
campaign_counts_total_example = campaign_counts_total 1 5 tables campaign refl refl

abbrev unread : CampaignCv
unread = record (cv 20) { stage0_status = Stage0Status.running; encrypted_pdf = some "pdf" }

abbrev unread_tables : Db
unread_tables = record tables { cvs = unread ∷ (cv 21 ∷ []) }

abbrev no_text : Extraction
no_text = record { redacted_text = none; source_locations = none; error_code = some "PDF_EMPTY" }

finish_stage0_once_example :
    (d : Db) × (finish_stage0 9 1 5 320 no_text unread_tables ≡ ok (d, true))
    × (filter (is_candidate 1 320) d.cvs ≡ publish 9 no_text unread ∷ [])
    × ((publish 9 no_text unread).encrypted_pdf ≡ none)
    × (has_error no_text.error_code ≡ true
        → All (λ p. of_cv 1 unread.id p ≡ true → is_terminal p.status ≡ true) d.pairs)
    × KeepsEnded unread_tables.pairs d.pairs
    × ((later : ℕ) (y : Extraction) → finish_stage0 later 1 5 320 y d ≡ ok (d, false))
finish_stage0_once_example =
    finish_stage0_once 9 1 5 320 no_text unread_tables campaign unread refl refl refl refl

abbrev request : Request
request = record {
  owner_id = 5;
  request_hash = 77;
  jobs = (10, "{}") ∷ ((11, "{}") ∷ []);
  policies = "{}" ∷ ("{}" ∷ []);
  idempotency_key = some 3;
  stage3_cap = 15;
  name = none;
}

abbrev reserved_tables : Db
reserved_tables = with_campaign 5 ids request tables

reserve_campaign_runs :
    reserve_campaign 5 ids request tables tables ≡ ok (reserved_tables, true, 40)
unfolding reserve_campaign
reserve_campaign_runs = refl

reserve_campaign_retry_example :
    ((request.request_hash ≡ request.request_hash)
      → reserve_campaign 6 ids request reserved_tables reserved_tables
        ≡ ok (reserved_tables, false, 40))
    × (request.request_hash ≢ request.request_hash
        → reserve_campaign 6 ids request reserved_tables reserved_tables
          ≡ err "Idempotency key belongs to a different campaign request")
reserve_campaign_retry_example =
    reserve_campaign_retry 5 6 2 ids ids request request tables tables reserved_tables
      reserved_tables 40 reserve_campaign_runs refl refl refl refl refl
