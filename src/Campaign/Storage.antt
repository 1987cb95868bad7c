-- ===== src/Campaign/Storage.antt =====
-- app/campaigns/persistence.py: the reservations of CVs, the publication of extracted texts, and the
-- counts of a campaign.
pub mod Accounting
pub mod Counting
pub mod Publication
use text.Mathlib.Text.{◌==◌ as str_eq}
use mathlib.Core.List.{◌++◌}
use ai_cv_screening.Prelude.{
  ℕ, suc, ◌+◌, ◌*◌, String, Bool, true, false, not, ◌&&◌, ◌||◌, Option, none, some, List, [], ◌∷◌,
  ltb, ◌==◌, if◌then◌else◌, is_some, Result, ok, err, ◌>>=◌, ◌>>◌, raise_if, filter, count, any,
  map,
}
use ai_cv_screening.Prelude.Table.{find, update_where}
use ai_cv_screening.Campaign.Rows.{
  CampaignStatus, Stage0Status, PairStatus, Campaign, CampaignJd, CampaignCv, Pair, Db, is_terminal,
  is_shortlisted, is_stage3_running, is_success,
}
use ai_cv_screening.Campaign.Dispatch.{campaign_key}
use ai_cv_screening.Campaign.Completion.{jd_in}

abbrev owned : ℕ → Option Campaign → Result Campaign
owned owner none = err "Campaign not found or access denied"
owned owner (some c) =
    if c.owner_id == owner then ok c else err "Campaign not found or access denied"

abbrev pub get_campaign : Db → ℕ → ℕ → Result Campaign
get_campaign db cid owner = owned owner (find campaign_key cid db.campaigns)

abbrev pub cv_in : ℕ → CampaignCv → Bool
cv_in cid v = v.campaign_id == cid

abbrev pub is_candidate : ℕ → ℕ → CampaignCv → Bool
is_candidate cid candidate v = v.campaign_id == cid && v.candidate_id == candidate

-- `scalar_one`: exactly one row
abbrev pub scalar_one {ℓ} : {A : Type ℓ} → List A → Result A
scalar_one [] = err "NoResultFound"
scalar_one (x ∷ []) = ok x
scalar_one (x ∷ (y ∷ xs)) = err "MultipleResultsFound"

-- `scalar_one_or_none`
abbrev pub scalar_one_or_none {ℓ} : {A : Type ℓ} → List A → Result (Option A)
scalar_one_or_none [] = ok none
scalar_one_or_none (x ∷ []) = ok (some x)
scalar_one_or_none (x ∷ (y ∷ xs)) = err "MultipleResultsFound"

-- what `reserve_cv` is called with; the PDF is already encrypted
pub record Submission : Type 0 where
  pub candidate_id : ℕ
  pub source_filename : ℕ
  pub content_hash : ℕ
  pub pdf : Option String

abbrev same_document : Submission → CampaignCv → Bool
same_document s v = v.content_hash == s.content_hash && v.source_filename == s.source_filename

abbrev is_intake : CampaignStatus → Bool
is_intake CampaignStatus.intake = true
is_intake _ = false

-- the new row
abbrev pub new_cv : ℕ → ℕ → ℕ → Submission → CampaignCv
new_cv now id cid s = record {
  id = id;
  campaign_id = cid;
  candidate_id = s.candidate_id;
  document_version = 1;
  source_filename = s.source_filename;
  content_hash = s.content_hash;
  stage0_status = Stage0Status.pending;
  redacted_text = none;
  source_locations = none;
  extraction_error_code = none;
  encrypted_pdf = s.pdf;
  encrypted_original_pdf = s.pdf;
  updated_at = now;
}

abbrev pub new_pair : ℕ → ℕ → ℕ → ℕ → ℕ → Pair
new_pair now id cid jd_id cv_id = record {
  id = id;
  campaign_id = cid;
  jd_id = jd_id;
  cv_id = cv_id;
  status = PairStatus.pending;
  stage1_decision = none;
  stage1_details = none;
  stage2_score = none;
  stage2_rank = none;
  stage3_status = none;
  composite_score = none;
  tier = none;
  verification_required = false;
  verification_reasons = [];
  result_snapshot = none;
  attempt_count = 0;
  stage3_attempt_count = 0;
  lease_until = none;
  lease_owner = none;
  failure_code = none;
  updated_at = now;
}

-- `for jd_id in jds: db.add(...)`; `fresh i` is the i-th `uuid4()`
abbrev pub new_pairs : ℕ → (ℕ → ℕ) → ℕ → ℕ → ℕ → List CampaignJd → List Pair
new_pairs now fresh cid cv_id i [] = []
new_pairs now fresh cid cv_id i (j ∷ jds) =
    new_pair now (fresh i) cid j.id cv_id ∷ new_pairs now fresh cid cv_id (suc i) jds

-- uq_campaign_candidate and the primary key of campaign_cvs
abbrev pub violates : Db → CampaignCv → Bool
violates db v =
    any (λ (u : CampaignCv). is_candidate v.campaign_id v.candidate_id u || u.id == v.id) db.cvs

-- the rows of the flush and of the loop over the JDs
abbrev pub with_cv : ℕ → (ℕ → ℕ) → ℕ → Submission → Db → Db
with_cv now fresh cid s db = record db {
  cvs = db.cvs ++ (new_cv now (fresh 0) cid s ∷ []);
  pairs = db.pairs ++ new_pairs now fresh cid (fresh 0) 1 (filter (jd_in cid) db.jds);
}

abbrev reuse : Submission → Db → Option CampaignCv → Result (Db × Bool × ℕ)
reuse s db none = err "IntegrityError"
reuse s db (some v) = if same_document s v then ok (db, false, v.id) else err "IntegrityError"

abbrev insert_cv : ℕ → (ℕ → ℕ) → ℕ → Submission → Db → Result (Db × Bool × ℕ)
insert_cv now fresh cid s db =
    if violates db (new_cv now (fresh 0) cid s)
    then (scalar_one_or_none (filter (is_candidate cid s.candidate_id) db.cvs) >>= reuse s db)
    else ok (with_cv now fresh cid s db, true, fresh 0)

abbrev reserve_found :
    ℕ → (ℕ → ℕ) → ℕ → Submission → Db → Option CampaignCv → Result (Db × Bool × ℕ)
reserve_found now fresh cid s db none = insert_cv now fresh cid s db
reserve_found now fresh cid s db (some v) =
    if same_document s v
    then ok (db, false, v.id)
    else err "Candidate ID belongs to a different document"

-- `reserve_cv`. It locks nothing before it writes: `seen` is the tables when it looks for the
-- candidate, and `db` those when it inserts; other transactions may have run in between.
unfoldable pub reserve_cv : ℕ → (ℕ → ℕ) → ℕ → ℕ → Submission → Db → Db → Result (Db × Bool × ℕ)
reserve_cv now fresh cid owner s seen db = do
  campaign ← get_campaign seen cid owner
  raise_if (not (is_intake campaign.status)) "Campaign intake is closed"
  existing ← scalar_one_or_none (filter (is_candidate cid s.candidate_id) seen.cvs)
  reserve_found now fresh cid s db existing

abbrev pub is_published : Stage0Status → Bool
is_published Stage0Status.succeeded = true
is_published Stage0Status.failed = true
is_published _ = false

abbrev pub is_unstaged : Stage0Status → Bool
is_unstaged Stage0Status.pending = true
is_unstaged _ = false

abbrev stage_row : ℕ → String → CampaignCv → CampaignCv
stage_row now pdf v = record v {
  encrypted_pdf = some pdf;
  encrypted_original_pdf = some pdf;
  updated_at = now;
}

-- the PDF is already encrypted
unfoldable pub stage_pdf : ℕ → ℕ → ℕ → ℕ → String → Db → Result (Db × Bool)
stage_pdf now cid owner candidate pdf db = do
  campaign ← get_campaign db cid owner
  v ← scalar_one (filter (is_candidate cid candidate) db.cvs)
  ok (
      if is_unstaged v.stage0_status
      then (
        record db { cvs = update_where (is_candidate cid candidate) (stage_row now pdf) db.cvs },
        true,
      )
      else (db, false))

-- what `finish_stage0` is called with
pub record Extraction : Type 0 where
  pub redacted_text : Option String
  pub source_locations : Option String
  pub error_code : Option String

-- the test of the arguments, as it raises
abbrev pub is_inconsistent : Extraction → Bool
is_inconsistent x =
    (not (is_some x.error_code)
      && (not (is_some x.redacted_text) || not (is_some x.source_locations)))
    || (is_some x.error_code && (is_some x.redacted_text || is_some x.source_locations))

-- `if error_code`: not None and not empty
abbrev pub has_error : Option String → Bool
has_error none = false
has_error (some e) = not (str_eq e "")

abbrev pub publish : ℕ → Extraction → CampaignCv → CampaignCv
publish now x v = record v {
  stage0_status = if has_error x.error_code then Stage0Status.failed else Stage0Status.succeeded;
  redacted_text = if has_error x.error_code then none else x.redacted_text;
  source_locations = if has_error x.error_code then none else x.source_locations;
  extraction_error_code = x.error_code;
  encrypted_pdf = none;
  updated_at = now;
}

abbrev pub of_cv : ℕ → ℕ → Pair → Bool
of_cv cid cv_id p = p.campaign_id == cid && p.cv_id == cv_id

abbrev pub fail_pair : ℕ → Option String → Pair → Pair
fail_pair now code p =
    if is_terminal p.status
    then p
    else record p { status = PairStatus.extraction_failed; failure_code = code; updated_at = now }

abbrev pub published : ℕ → ℕ → ℕ → Extraction → Db → CampaignCv → Db
published now cid candidate x db v = record db {
  cvs = update_where (is_candidate cid candidate) (publish now x) db.cvs;
  pairs =
      if has_error x.error_code
      then update_where (of_cv cid v.id) (fail_pair now x.error_code) db.pairs
      else db.pairs;
}

abbrev pub finish_row : ℕ → ℕ → ℕ → Extraction → Db → CampaignCv → Result (Db × Bool)
finish_row now cid candidate x db v =
    if is_published v.stage0_status
    then ok (db, false)
    else if is_inconsistent x
    then err "Provide redacted text and locations, or an error code"
    else ok (published now cid candidate x db v, true)

unfoldable pub finish_stage0 : ℕ → ℕ → ℕ → ℕ → Extraction → Db → Result (Db × Bool)
finish_stage0 now cid owner candidate x db = do
  campaign ← get_campaign db cid owner
  v ← scalar_one (filter (is_candidate cid candidate) db.cvs)
  finish_row now cid candidate x db v
