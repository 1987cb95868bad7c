-- ===== src/Campaign/Evaluation/Laws.antt =====
-- How many pairs `dispatch_stage3` puts in flight, what it does to each pair, and what its claims
-- stand for.
use ai_cv_screening.Prelude.{
  ℕ, ◌+◌, ◌≤◌, max, ◌≡◌, refl, false, true, some, List, arith, inl, inr, Bool-cases, count, length,
  length-take-le, sort_by, filter, All, leb,
}
use ai_cv_screening.Prelude.Table.{IsKeyed, count-update_where-le, Pointwise-update_where}
use ai_cv_screening.Campaign.Rows.{PairStatus, Settings, Pair, Db, is_shortlisted}
use ai_cv_screening.Campaign.Lifecycle.{
  pair_key, Advances, Advances-refl, Advances-from, AllAdvance, AllAdvance-refl, AllAdvance-trans,
  IsKeyed-AllAdvance, moves, status_of_is_shortlisted, status_of_is_stage3_running,
}
use ai_cv_screening.Campaign.Claims.{
  IsSelected, IsHeld, claim_rows, count-claim_rows-le, length-claim_rows, query_selects,
  claim_rows_advance, claim_rows-IsHeld,
}
use ai_cv_screening.Campaign.Dispatch.{campaign_active}
use ai_cv_screening.Campaign.Evaluation.{
  release_evaluation, evaluation_expired, release_evaluations, evaluates, evaluation_slots,
  awaits_evaluation, evaluation_le, claim, evaluation_rows, dispatch_stage3,
}

release_evaluation_ends : (st : Settings) (p : Pair) → evaluates (release_evaluation st p) ≡ false
unfolding release_evaluation
release_evaluation_ends st p = ground arith

count-release_evaluations-le :
    (st : Settings) (now cid : ℕ) (ps : List Pair)
    → count evaluates (release_evaluations st now cid ps) ≤ count evaluates ps
unfolding release_evaluations
count-release_evaluations-le st now cid ps =
    count-update_where-le evaluates (evaluation_expired now cid) (release_evaluation st)
      (λ a e h. cc (release_evaluation_ends st a)) ps

length-evaluation_rows-le :
    (st : Settings) (now : ℕ) (db : Db) (cid : ℕ) (ps : List Pair)
    → length (evaluation_rows st now db cid ps) ≤ evaluation_slots st ps
unfolding evaluation_rows
length-evaluation_rows-le st now db cid ps =
    length-take-le (evaluation_slots st ps)
      (sort_by (evaluation_le db) (filter (awaits_evaluation db now cid) ps))

evaluation_slots_bounds :
    (st : Settings) (ps : List Pair)
    → (evaluation_slots st ps + count evaluates ps
        ≤ max st.campaign_stage3_global_inflight (count evaluates ps))
      × (evaluation_slots st ps ≤ st.campaign_dispatch_batch)
unfolding evaluation_slots
evaluation_slots_bounds st ps = omega arith

-- One call of `dispatch_stage3` leaves at most as many pairs STAGE3_RUNNING, over all campaigns, as
-- the larger of the limit and what was running before, and returns at most one batch of claims.
pub dispatch_stage3-inflight :
    (st : Settings) (now : ℕ) (fresh : ℕ → ℕ) (cid : ℕ) (db : Db)
    → (count evaluates (dispatch_stage3 st now fresh cid db).0.pairs
        ≤ max st.campaign_stage3_global_inflight (count evaluates db.pairs))
      × (length (dispatch_stage3 st now fresh cid db).1 ≤ st.campaign_dispatch_batch)
unfolding dispatch_stage3
dispatch_stage3-inflight st now fresh cid db = elim (Bool-cases (campaign_active db cid)) [
  | inr e ↦ rw e (omega arith)
  | inl e ↦
      let ps = release_evaluations st now cid db.pairs in
      let rows = evaluation_rows st now db cid ps in
      rw e (
        omega (
          arith,
          count-claim_rows-le (claim st now) fresh evaluates 0 rows ps,
          length-claim_rows (claim st now) fresh 0 rows ps,
          count-release_evaluations-le st now cid db.pairs,
          length-evaluation_rows-le st now db cid ps,
          evaluation_slots_bounds st ps,
        ))
]

release_evaluation-Advances :
    (st : Settings) (now cid : ℕ) (p : Pair)
    → evaluation_expired now cid p ≡ true
    → Advances st p (release_evaluation st p)
unfolding release_evaluation
release_evaluation-Advances st now cid p h =
    let running = status_of_is_stage3_running p.status (ground arith) in
    elim (Bool-cases (leb st.campaign_stage3_max_attempts p.stage3_attempt_count)) [
      | inl e ↦ rw e (
          Advances-from st PairStatus.stage3_running p _ running refl refl refl refl refl
            (search moves) (λ k. ground arith))
      | inr e ↦ rw e (
          Advances-from st PairStatus.stage3_running p _ running refl refl refl refl refl
            (search moves) (λ k. ground arith))
    ]

claim-Advances :
    (st : Settings) (now token : ℕ) (p : Pair)
    → is_shortlisted p.status ≡ true
    → Advances st p (claim st now token p)
unfolding claim
claim-Advances st now token p h =
    Advances-from st PairStatus.shortlisted p _ (status_of_is_shortlisted p.status h) refl refl refl
      refl refl (search moves) (λ k. ground arith)

claim_keeps_id : (st : Settings) (now token : ℕ) (p : Pair) → (claim st now token p).id ≡ p.id
unfolding claim
claim_keeps_id st now token p = refl

claim_gives :
    (st : Settings) (now token : ℕ) (p : Pair)
    → ((claim st now token p).status ≡ PairStatus.stage3_running)
      × ((claim st now token p).lease_owner ≡ some token)
unfolding claim
claim_gives st now token p = (refl, refl)

evaluation_rows_sound :
    (st : Settings) (now : ℕ) (db : Db) (cid : ℕ) (ps : List Pair)
    → IsKeyed pair_key ps
    → IsKeyed pair_key (evaluation_rows st now db cid ps)
      × All (IsSelected is_shortlisted ps) (evaluation_rows st now db cid ps)
unfolding evaluation_rows
evaluation_rows_sound st now db cid ps k =
    query_selects is_shortlisted (awaits_evaluation db now cid) (λ r e. ground arith)
      (evaluation_le db) (evaluation_slots st ps) ps k

release_evaluations_advance :
    (st : Settings) (now cid : ℕ) (ps : List Pair)
    → AllAdvance st ps (release_evaluations st now cid ps)
unfolding release_evaluations
release_evaluations_advance st now cid ps =
    Pointwise-update_where (Advances st) (evaluation_expired now cid) (release_evaluation st)
      (Advances-refl st) (release_evaluation-Advances st now cid) ps

-- In tables with distinct pair keys, `dispatch_stage3` moves every pair along the diagram, keeps its
-- soundness, and changes no field of a terminal pair, and every claim that it returns names a pair
-- that it left STAGE3_RUNNING under the returned lease token.
pub dispatch_stage3-AllAdvance :
    (st : Settings) (now : ℕ) (fresh : ℕ → ℕ) (cid : ℕ) (db : Db)
    → IsKeyed pair_key db.pairs
    → AllAdvance st db.pairs (dispatch_stage3 st now fresh cid db).0.pairs
      × All
          (IsHeld PairStatus.stage3_running (dispatch_stage3 st now fresh cid db).0.pairs)
          (dispatch_stage3 st now fresh cid db).1
unfolding dispatch_stage3
dispatch_stage3-AllAdvance st now fresh cid db k = elim (Bool-cases (campaign_active db cid)) [
  | inr e ↦ rw e (AllAdvance-refl st db.pairs, tt)
  | inl e ↦
      let ps = release_evaluations st now cid db.pairs in
      let released = release_evaluations_advance st now cid db.pairs in
      let rows = evaluation_rows st now db cid ps in
      let sound =
        evaluation_rows_sound st now db cid ps (IsKeyed-AllAdvance st db.pairs ps released k) in
      rw e (
        AllAdvance-trans st db.pairs ps (claim_rows (claim st now) fresh 0 rows ps).0 released (
            claim_rows_advance st (claim st now) fresh is_shortlisted PairStatus.stage3_running
              (claim_keeps_id st now) (claim_gives st now) (claim-Advances st now) 0 rows ps sound.0
              sound.1),
        claim_rows-IsHeld st (claim st now) fresh is_shortlisted PairStatus.stage3_running
            (claim_keeps_id st now) (claim_gives st now) (claim-Advances st now) 0 rows ps sound.0
            sound.1,
      )
]
