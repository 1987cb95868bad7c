-- ===== src/Campaign/Evaluation.antt =====
-- `dispatch_stage3` of app/campaigns/coordinator.py: expired evaluation leases are released, then
-- free evaluation slots are given to shortlisted pairs whose delay has passed.
pub mod Laws
pub mod Flow
use ai_cv_screening.Prelude.{
  ℕ, ◌+◌, ◌-◌, min, Bool, false, true, ◌&&◌, ◌||◌, none, some, List, [], ltb, leb, ◌==◌,
  if◌then◌else◌, filter, count, take, sort_by,
}
use ai_cv_screening.Prelude.Table.{find, update_where}
use ai_cv_screening.Campaign.Rows.{
  PairStatus, Settings, Pair, Db, is_shortlisted_jd, is_shortlisted, is_stage3_running,
  lease_expired,
}
use ai_cv_screening.Scoring.Schemas.{EvaluationStatus}
use ai_cv_screening.Campaign.Claims.{claim_rows}
use ai_cv_screening.Campaign.Dispatch.{campaign_active, jd_row_key, jd_key_of}

-- the body of the first loop
unfoldable pub release_evaluation : Settings → Pair → Pair
release_evaluation st p =
    if leb st.campaign_stage3_max_attempts p.stage3_attempt_count
    then record p {
      lease_owner = none;
      lease_until = none;
      status = PairStatus.evaluation_failed;
      stage3_status = some EvaluationStatus.evaluation_failed;
      failure_code = some "STAGE3_ATTEMPTS_EXHAUSTED";
    }
    else record p { lease_owner = none; lease_until = none; status = PairStatus.shortlisted }

abbrev pub evaluation_expired : ℕ → ℕ → Pair → Bool
evaluation_expired now cid p =
    p.campaign_id == cid && (is_stage3_running p.status && lease_expired now p)

unfoldable pub release_evaluations : Settings → ℕ → ℕ → List Pair → List Pair
unfolding release_evaluation
release_evaluations st now cid pairs =
    update_where (evaluation_expired now cid) (release_evaluation st) pairs

abbrev pub evaluates : Pair → Bool
evaluates p = is_stage3_running p.status

-- A negative number of slots is 0 here, and both give `slots <= 0`.
evaluation_slots : Settings → List Pair → ℕ
evaluation_slots st pairs =
    min (st.campaign_stage3_global_inflight - count evaluates pairs) st.campaign_dispatch_batch

-- `or_(lease_until.is_(None), lease_until <= now)`
abbrev pub delay_passed : ℕ → Pair → Bool
delay_passed now p = elim p.lease_until [ none ↦ true | some t ↦ leb t now ]

abbrev pub jd_shortlisted : Db → Pair → Bool
jd_shortlisted db p = elim (find jd_row_key p.jd_id db.jds) [
  | none ↦ false
  | some j ↦ is_shortlisted_jd j.status
]

abbrev pub awaits_evaluation : Db → ℕ → ℕ → Pair → Bool
awaits_evaluation db now cid p =
    p.campaign_id == cid && (is_shortlisted p.status && (delay_passed now p && jd_shortlisted db p))

-- `order_by(jd_key, stage2_rank)`; PostgreSQL puts NULL last
abbrev rank_le : Pair → Pair → Bool
rank_le a b = elim b.stage2_rank [
  | none ↦ true
  | some s ↦ elim a.stage2_rank [ none ↦ false | some r ↦ leb r s ]
]

evaluation_le : Db → Pair → Pair → Bool
evaluation_le db a b =
    ltb (jd_key_of db a) (jd_key_of db b) || (jd_key_of db a == jd_key_of db b && rank_le a b)

-- the assignments of the claiming loop; the attempt is counted by the worker
unfoldable pub claim : Settings → ℕ → ℕ → Pair → Pair
claim st now token p = record p {
  status = PairStatus.stage3_running;
  lease_owner = some token;
  lease_until = some (now + (st.run_timeout_seconds + 35));
  updated_at = now;
}

pub evaluation_rows : Settings → ℕ → Db → ℕ → List Pair → List Pair
unfolding evaluation_slots evaluation_le
evaluation_rows st now db cid pairs =
    take (evaluation_slots st pairs)
      (sort_by (evaluation_le db) (filter (awaits_evaluation db now cid) pairs))

unfoldable pub dispatch_stage3 : Settings → ℕ → (ℕ → ℕ) → ℕ → Db → Db × List (ℕ × ℕ)
unfolding release_evaluations claim claim_rows evaluation_rows
dispatch_stage3 st now fresh cid db =
    if campaign_active db cid
    then (let pairs = release_evaluations st now cid db.pairs in
        let claimed =
          claim_rows (claim st now) fresh 0 (evaluation_rows st now db cid pairs) pairs in
        (record db { pairs = claimed.0 }, claimed.1))
    else (db, [])
