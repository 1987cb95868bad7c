-- ===== src/Campaign/Dispatch/Bounds.antt =====
-- How many pairs `dispatch_pairs` puts in flight.
use ai_cv_screening.Prelude.{
  ℕ, ◌+◌, ◌≤◌, max, ◌≡◌, false, List, arith, inl, inr, Bool-cases, count, length, length-take-le,
  sort_by, filter,
}
use ai_cv_screening.Prelude.Table.{count-update_where-le}
use ai_cv_screening.Campaign.Claims.{count-claim_rows-le, length-claim_rows}
use ai_cv_screening.Campaign.Rows.{Settings, Pair, Db}
use ai_cv_screening.Campaign.Dispatch.{
  campaign_active, release_expired, is_expired, release_all, runs, runs_in, slots, is_ready,
  dispatch_le, lease, selected_rows, dispatch_pairs,
}

release_not_running :
    (st : Settings) (cid : ℕ) (p : Pair) → runs_in cid (release_expired st p) ≡ false
unfolding release_expired
release_not_running st cid p = ground arith

release_not_running_any : (st : Settings) (p : Pair) → runs (release_expired st p) ≡ false
unfolding release_expired
release_not_running_any st p = ground arith

count-release_all-le :
    (st : Settings) (now cid : ℕ) (ps : List Pair)
    → (count runs (release_all st now cid ps) ≤ count runs ps)
      × (count (runs_in cid) (release_all st now cid ps) ≤ count (runs_in cid) ps)
unfolding release_all
count-release_all-le st now cid ps = (
  count-update_where-le runs (is_expired now cid) (release_expired st)
      (λ a e h. cc (release_not_running_any st a)) ps,
  count-update_where-le (runs_in cid) (is_expired now cid) (release_expired st)
      (λ a e h. cc (release_not_running st cid a)) ps,
)

length-selected_rows-le :
    (st : Settings) (db : Db) (cid : ℕ) (ps : List Pair)
    → length (selected_rows st db cid ps) ≤ slots st cid ps
unfolding selected_rows
length-selected_rows-le st db cid ps =
    length-take-le (slots st cid ps) (sort_by (dispatch_le db) (filter (is_ready db cid) ps))

slots_bounds :
    (st : Settings) (cid : ℕ) (ps : List Pair)
    → (slots st cid ps + count runs ps ≤ max st.campaign_retrieval_global_inflight (count runs ps))
      × (slots st cid ps + count (runs_in cid) ps
          ≤ max st.campaign_retrieval_inflight (count (runs_in cid) ps))
      × (slots st cid ps ≤ st.campaign_dispatch_batch)
unfolding slots
slots_bounds st cid ps = omega arith

-- One call of `dispatch_pairs` leaves at most as many pairs RUNNING as the larger of the limit and
-- what was running before, over all campaigns and within the campaign, and returns at most one
-- batch of reservations.
pub dispatch_pairs-inflight :
    (st : Settings) (now : ℕ) (fresh : ℕ → ℕ) (cid : ℕ) (db : Db)
    → (count runs (dispatch_pairs st now fresh cid db).0.pairs
        ≤ max st.campaign_retrieval_global_inflight (count runs db.pairs))
      × (count (runs_in cid) (dispatch_pairs st now fresh cid db).0.pairs
          ≤ max st.campaign_retrieval_inflight (count (runs_in cid) db.pairs))
      × (length (dispatch_pairs st now fresh cid db).1 ≤ st.campaign_dispatch_batch)
unfolding dispatch_pairs
dispatch_pairs-inflight st now fresh cid db = elim (Bool-cases (campaign_active db cid)) [
  | inr e ↦ rw e (omega arith)
  | inl e ↦
      let ps = release_all st now cid db.pairs in
      let rows = selected_rows st db cid ps in
      rw e (
        omega (
          arith,
          count-claim_rows-le (lease st now) fresh runs 0 rows ps,
          count-claim_rows-le (lease st now) fresh (runs_in cid) 0 rows ps,
          length-claim_rows (lease st now) fresh 0 rows ps,
          count-release_all-le st now cid db.pairs,
          length-selected_rows-le st db cid ps,
          slots_bounds st cid ps,
        ))
]
