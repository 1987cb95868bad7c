-- ===== src/Campaign/Dispatch/Moves.antt =====
-- What `dispatch_pairs` does to each pair, and what its reservations stand for.
use ai_cv_screening.Prelude.{ℕ, ◌≡◌, refl, true, some, List, arith, inl, inr, Bool-cases, All, leb}
use ai_cv_screening.Prelude.Table.{IsKeyed, Pointwise-update_where}
use ai_cv_screening.Campaign.Rows.{PairStatus, Settings, Pair, Db, is_pending}
use ai_cv_screening.Campaign.Claims.{
  IsSelected, IsHeld, claim_rows, query_selects, claim_rows_advance, claim_rows-IsHeld,
}
use ai_cv_screening.Campaign.Lifecycle.{
  pair_key, IsKeyed-AllAdvance, Advances, Advances-refl, AllAdvance, AllAdvance-refl,
  AllAdvance-trans, Advances-from, moves, status_of_is_running, status_of_is_pending,
}
use ai_cv_screening.Campaign.Dispatch.{
  campaign_active, release_expired, is_expired, release_all, slots, is_ready, dispatch_le, lease,
  selected_rows, dispatch_pairs,
}

release-Advances :
    (st : Settings) (now cid : ℕ) (p : Pair)
    → is_expired now cid p ≡ true
    → Advances st p (release_expired st p)
unfolding release_expired
release-Advances st now cid p h =
    let running = status_of_is_running p.status (ground arith) in
    elim (Bool-cases (leb st.run_max_attempts p.attempt_count)) [
      | inl e ↦ rw e (
          Advances-from st PairStatus.running p _ running refl refl refl refl refl (search moves)
            (λ h. ground arith))
      | inr e ↦ rw e (
          Advances-from st PairStatus.running p _ running refl refl refl refl refl (search moves)
            (λ h. ground arith))
    ]

lease-Advances :
    (st : Settings) (now token : ℕ) (p : Pair)
    → is_pending p.status ≡ true
    → Advances st p (lease st now token p)
unfolding lease
lease-Advances st now token p h =
    Advances-from st PairStatus.pending p _ (status_of_is_pending p.status h) refl refl refl refl
      refl (search moves) (λ k. ground (arith, k.pending_spare h))

lease_keeps_id : (st : Settings) (now token : ℕ) (p : Pair) → (lease st now token p).id ≡ p.id
unfolding lease
lease_keeps_id st now token p = refl

lease_gives :
    (st : Settings) (now token : ℕ) (p : Pair)
    → ((lease st now token p).status ≡ PairStatus.running)
      × ((lease st now token p).lease_owner ≡ some token)
unfolding lease
lease_gives st now token p = (refl, refl)

selected_rows_sound :
    (st : Settings) (db : Db) (cid : ℕ) (ps : List Pair)
    → IsKeyed pair_key ps
    → IsKeyed pair_key (selected_rows st db cid ps)
      × All (IsSelected is_pending ps) (selected_rows st db cid ps)
unfolding selected_rows
selected_rows_sound st db cid ps k =
    query_selects is_pending (is_ready db cid) (λ r e. ground arith) (dispatch_le db)
      (slots st cid ps) ps k

release_all_advance :
    (st : Settings) (now cid : ℕ) (ps : List Pair) → AllAdvance st ps (release_all st now cid ps)
unfolding release_all
release_all_advance st now cid ps =
    Pointwise-update_where (Advances st) (is_expired now cid) (release_expired st)
      (Advances-refl st) (release-Advances st now cid) ps

-- In tables with distinct pair keys, `dispatch_pairs` moves every pair along the diagram, keeps its
-- soundness, and changes no field of a terminal pair, and every reservation that it returns names a pair that it left
-- RUNNING under the returned lease token.
pub dispatch_pairs-AllAdvance :
    (st : Settings) (now : ℕ) (fresh : ℕ → ℕ) (cid : ℕ) (db : Db)
    → IsKeyed pair_key db.pairs
    → AllAdvance st db.pairs (dispatch_pairs st now fresh cid db).0.pairs
      × All
          (IsHeld PairStatus.running (dispatch_pairs st now fresh cid db).0.pairs)
          (dispatch_pairs st now fresh cid db).1
unfolding dispatch_pairs
dispatch_pairs-AllAdvance st now fresh cid db k = elim (Bool-cases (campaign_active db cid)) [
  | inr e ↦ rw e (AllAdvance-refl st db.pairs, tt)
  | inl e ↦
      let ps = release_all st now cid db.pairs in
      let released = release_all_advance st now cid db.pairs in
      let rows = selected_rows st db cid ps in
      let sound = selected_rows_sound st db cid ps (IsKeyed-AllAdvance st db.pairs ps released k) in
      rw e (
        AllAdvance-trans st db.pairs ps (claim_rows (lease st now) fresh 0 rows ps).0 released (
            claim_rows_advance st (lease st now) fresh is_pending PairStatus.running
              (lease_keeps_id st now) (lease_gives st now) (lease-Advances st now) 0 rows ps sound.0
              sound.1),
        claim_rows-IsHeld st (lease st now) fresh is_pending PairStatus.running
            (lease_keeps_id st now) (lease_gives st now) (lease-Advances st now) 0 rows ps sound.0
            sound.1,
      )
]
