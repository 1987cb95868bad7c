-- ===== src/Campaign/Dispatch.antt =====
-- `dispatch_pairs` of app/campaigns/coordinator.py: expired leases are released, then free
-- retrieval slots are given to pending pairs whose document is ready.
pub mod Bounds
pub mod Moves
pub mod Flow
use ai_cv_screening.Prelude.{
  ℕ, suc, ◌+◌, ◌-◌, min, Bool, false, ◌&&◌, ◌||◌, none, some, List, [], ◌∷◌, ltb, leb, ◌==◌,
  if◌then◌else◌, filter, count, take, sort_by,
}
use ai_cv_screening.Prelude.Table.{find, update, update_where}
use ai_cv_screening.Campaign.Claims.{claim_rows}
use ai_cv_screening.Campaign.Rows.{
  PairStatus, Settings, Campaign, CampaignJd, CampaignCv, Pair, Db, is_active, is_open_jd,
  is_succeeded, is_pending, is_running, lease_expired,
}

abbrev pub campaign_key : Campaign → ℕ
campaign_key c = c.id

abbrev pub jd_row_key : CampaignJd → ℕ
jd_row_key j = j.id

abbrev pub cv_row_key : CampaignCv → ℕ
cv_row_key v = v.id

-- `campaign is None or campaign.status != "RUNNING"`, negated
abbrev pub campaign_active : Db → ℕ → Bool
campaign_active db cid = elim (find campaign_key cid db.campaigns) [
  | none ↦ false
  | some c ↦ is_active c.status
]

-- the body of the first loop
unfoldable pub release_expired : Settings → Pair → Pair
release_expired st p =
    if leb st.run_max_attempts p.attempt_count
    then record p {
      lease_owner = none;
      lease_until = none;
      status = PairStatus.processing_failed;
      failure_code = some "RETRIEVAL_ATTEMPTS_EXHAUSTED";
    }
    else record p { lease_owner = none; lease_until = none; status = PairStatus.pending }

abbrev pub is_expired : ℕ → ℕ → Pair → Bool
is_expired now cid p = p.campaign_id == cid && (is_running p.status && lease_expired now p)

unfoldable pub release_all : Settings → ℕ → ℕ → List Pair → List Pair
unfolding release_expired
release_all st now cid pairs = update_where (is_expired now cid) (release_expired st) pairs

abbrev pub runs_in : ℕ → Pair → Bool
runs_in cid p = p.campaign_id == cid && is_running p.status

abbrev pub runs : Pair → Bool
runs p = is_running p.status

-- A negative number of slots is 0 here, and both give `slots <= 0`.
slots : Settings → ℕ → List Pair → ℕ
slots st cid pairs =
    min
      (min (st.campaign_retrieval_inflight - count (runs_in cid) pairs)
        (st.campaign_retrieval_global_inflight - count runs pairs))
      st.campaign_dispatch_batch

-- the joins and the conditions of the query for pending pairs
abbrev pub document_ready : Db → Pair → Bool
document_ready db p = elim (find cv_row_key p.cv_id db.cvs) [
  | none ↦ false
  | some v ↦ is_succeeded v.stage0_status
]

abbrev pub jd_open : Db → Pair → Bool
jd_open db p = elim (find jd_row_key p.jd_id db.jds) [ none ↦ false | some j ↦ is_open_jd j.status ]

abbrev pub is_ready : Db → ℕ → Pair → Bool
is_ready db cid p =
    p.campaign_id == cid && (is_pending p.status && (document_ready db p && jd_open db p))

-- `order_by(jd_key, candidate_id)`; the joins make both rows present
abbrev pub jd_key_of : Db → Pair → ℕ
jd_key_of db p = elim (find jd_row_key p.jd_id db.jds) [ none ↦ 0 | some j ↦ j.jd_key ]

abbrev pub candidate_of : Db → Pair → ℕ
candidate_of db p = elim (find cv_row_key p.cv_id db.cvs) [ none ↦ 0 | some v ↦ v.candidate_id ]

dispatch_le : Db → Pair → Pair → Bool
dispatch_le db a b =
    ltb (jd_key_of db a) (jd_key_of db b)
    || (jd_key_of db a == jd_key_of db b && leb (candidate_of db a) (candidate_of db b))

-- the assignments of the reservation loop
unfoldable pub lease : Settings → ℕ → ℕ → Pair → Pair
lease st now token p = record p {
  status = PairStatus.running;
  lease_owner = some token;
  lease_until = some (now + (st.run_timeout_seconds + 35));
  attempt_count = p.attempt_count + 1;
  updated_at = now;
}

pub selected_rows : Settings → Db → ℕ → List Pair → List Pair
unfolding slots dispatch_le
selected_rows st db cid pairs =
    take (slots st cid pairs) (sort_by (dispatch_le db) (filter (is_ready db cid) pairs))

unfoldable pub dispatch_pairs : Settings → ℕ → (ℕ → ℕ) → ℕ → Db → Db × List (ℕ × ℕ)
unfolding release_all lease claim_rows selected_rows
dispatch_pairs st now fresh cid db =
    if campaign_active db cid
    then (let pairs = release_all st now cid db.pairs in
        let reserved = claim_rows (lease st now) fresh 0 (selected_rows st db cid pairs) pairs in
        (record db { pairs = reserved.0 }, reserved.1))
    else (db, [])
