-- ===== src/Tests/Rows.antt =====
-- Small tables: one campaign with a JD whose pairs are ready for the cut-off and a JD with pairs to
-- retrieve.
use ai_cv_screening.Prelude.{◌+◌, ℕ, none, some, true, false, [], ◌∷◌, arith}
use ai_cv_screening.Prelude.Table.{IsKeyed}
use ai_cv_screening.Campaign.Rows.{
  CampaignStatus, JdStatus, Stage0Status, PairStatus, Stage2Evidence, empty_snapshot, Campaign,
  CampaignJd, CampaignCv, Pair, Db,
}
use ai_cv_screening.Campaign.Lifecycle.{pair_key}

abbrev pub campaign : Campaign
campaign = record {
  id = 1;
  owner_id = 5;
  status = CampaignStatus.running;
  idempotency_key = none;
  request_hash = 0;
  name = none;
  updated_at = 0;
  completed_at = none;
}

abbrev pub jd : ℕ → ℕ → JdStatus → CampaignJd
jd id cap status = record {
  id = id;
  campaign_id = 1;
  jd_key = id;
  job_snapshot = "{}";
  policy_snapshot = "{}";
  stage3_cap = cap;
  status = status;
  updated_at = 0;
}

abbrev pub cv : ℕ → CampaignCv
cv id = record {
  id = id;
  campaign_id = 1;
  candidate_id = id + 300;
  document_version = 1;
  source_filename = id;
  content_hash = id;
  stage0_status = Stage0Status.succeeded;
  redacted_text = some "text";
  source_locations = none;
  extraction_error_code = none;
  encrypted_pdf = none;
  encrypted_original_pdf = none;
  updated_at = 0;
}

abbrev pub fresh_pair : ℕ → ℕ → ℕ → Pair
fresh_pair id jd_id cv_id = record {
  id = id;
  campaign_id = 1;
  jd_id = jd_id;
  cv_id = cv_id;
  status = PairStatus.pending;
  stage1_decision = none;
  stage1_details = none;
  stage2_score = none;
  stage2_rank = none;
  stage3_status = none;
  composite_score = none;
  tier = none;
  verification_required = false;
  verification_reasons = [];
  result_snapshot = none;
  attempt_count = 0;
  stage3_attempt_count = 0;
  lease_until = none;
  lease_owner = none;
  failure_code = none;
  updated_at = 0;
}

abbrev pub evidence : ℕ → Stage2Evidence
evidence candidate = record {
  candidate_id = candidate;
  scoring_version = some "stage2-coverage-v2";
  shortlist_eligible = some true;
  responsibility_coverage = 500000;
  applied_coverage = 500000;
  relevance_reason = none;
}

abbrev pub ready_pair : ℕ → ℕ → ℕ → Pair
ready_pair id cv_id score = record (fresh_pair id 10 cv_id) {
  status = PairStatus.stage2_ready;
  stage2_score = some score;
  attempt_count = 1;
  result_snapshot =
      some (record empty_snapshot { stage2_evidence = some (evidence (cv_id + 300)) });
}

abbrev pub held_pair : ℕ → PairStatus → ℕ → Pair
held_pair id status cv_id = record (fresh_pair id 11 cv_id) {
  status = status;
  attempt_count = 1;
  lease_owner = some 7;
  lease_until = some 50;
}

abbrev pub tables : Db
tables = record {
  campaigns = campaign ∷ [];
  jds = jd 10 1 JdStatus.pending ∷ (jd 11 1 JdStatus.pending ∷ []);
  cvs = cv 20 ∷ (cv 21 ∷ []);
  pairs =
      ready_pair 100 20 600000
      ∷ (ready_pair 101 21 800000
          ∷ (held_pair 102 PairStatus.running 20 ∷ (fresh_pair 103 11 21 ∷ [])));
}

pub tables-IsKeyed : IsKeyed pair_key tables.pairs
tables-IsKeyed = (
  (ground arith, (ground arith, (ground arith, tt))),
  ((ground arith, (ground arith, tt)), ((ground arith, tt), (tt, tt))),
)
