-- ===== src/Campaign/Cutoff/Barrier.antt =====
-- When a JD is cut off, and what that does to its pairs.
use native.Mathlib.Nat.{sub-zero}
use ai_cv_screening.Prelude.{
  ℕ, ◌≡◌, refl, Bool, true, false, Option, none, some, List, [], ◌∷◌, arith, inl, inr, Bool-cases,
  ltb, Result, ok, err, filter, count, any, All, All-sort_by, IsSorted, IsSorted-sort_by, map,
}
use ai_cv_screening.Prelude.Table.{
  find, IsKeyed, IsKeyed-filter, IsKeyed-sort_by, IsKeyed-find, All-filter, All-both, filter_sound,
}
use ai_cv_screening.Campaign.Lifecycle.{
  pair_key, AllAdvance, AllAdvance-refl, AllAdvance-trans, IsKeyed-AllAdvance,
}
use ai_cv_screening.Campaign.Rows.{tables_after, Settings, CampaignJd, Db, is_open_jd}
use ai_cv_screening.Campaign.Dispatch.{jd_row_key}
use ai_cv_screening.Campaign.Cutoff.{
  Finalized, finalize_then, SortKey, sort_key_le, result_le, candidate_sort_key, payload, row_le,
  is_unresolved, is_ranked, unscored, ranked_rows, stage3_room, cut_off, finalize_found,
  finalize_jd, finalize_loop, finalize_ready_jds, jd_is_ready,
}
use ai_cv_screening.Campaign.Cutoff.Placement.{
  IsWaiting, IsPlaced, rank_rows_advance, rank_rows-IsPlaced,
}

sort_key_total : (a b : SortKey) → sort_key_le a b ≡ false → sort_key_le b a ≡ true
unfolding sort_key_le
sort_key_total a b h = ground arith

sort_key_trans :
    (a b c : SortKey) → sort_key_le a b ≡ true → sort_key_le b c ≡ true → sort_key_le a c ≡ true
unfolding sort_key_le
sort_key_trans a b c h k = ground arith

pub result_total : (a b : Result SortKey) → result_le a b ≡ false → result_le b a ≡ true
result_total (ok a) (ok b) h = sort_key_total a b h
result_total (ok a) (err f) h = cc
result_total (err e) (ok b) h = refl
result_total (err e) (err f) h = cc

pub result_trans :
    (a b c : Result SortKey) → result_le a b ≡ true → result_le b c ≡ true → result_le a c ≡ true
result_trans (ok a) (ok b) (ok c) h k = sort_key_trans a b c h k
result_trans (ok a) (err f) (ok c) h k = cc
result_trans (err e) (ok b) (ok c) h k = cc
result_trans (err e) (err f) (ok c) h k = cc
result_trans (ok a) b (err g) h k = refl
result_trans (err e) b (err g) h k = refl

ranked_rows-IsSorted : (db : Db) (jd_id : ℕ) → IsSorted (row_le db) (ranked_rows db jd_id)
unfolding ranked_rows
ranked_rows-IsSorted db jd_id =
    IsSorted-sort_by (row_le db)
      (λ a b.
        unfold row_le in
        result_total (candidate_sort_key (payload db a)) (candidate_sort_key (payload db b)))
      (λ a b c.
        unfold row_le in
        result_trans (candidate_sort_key (payload db a)) (candidate_sort_key (payload db b))
          (candidate_sort_key (payload db c)))
      (filter (is_ranked db jd_id) db.pairs)

ranked_rows_sound :
    (db : Db) (jd_id : ℕ)
    → IsKeyed pair_key db.pairs
    → IsKeyed pair_key (ranked_rows db jd_id) × All (IsWaiting db.pairs) (ranked_rows db jd_id)
unfolding ranked_rows
ranked_rows_sound db jd_id k =
    let p = is_ranked db jd_id in
    let rows = filter p db.pairs in
    let found : All (IsWaiting db.pairs) rows =
      All-both (λ r. find pair_key r.id db.pairs ≡ some r) (λ r. p r ≡ true) (IsWaiting db.pairs)
        (λ r f e. (f, ground arith)) rows
        (All-filter (λ r. find pair_key r.id db.pairs ≡ some r) p db.pairs
          (IsKeyed-find pair_key db.pairs k))
        (filter_sound p db.pairs) in
    (
      IsKeyed-sort_by pair_key (row_le db) rows (IsKeyed-filter pair_key p db.pairs k),
      All-sort_by (IsWaiting db.pairs) (row_le db) rows found,
    )

cut_off_advance :
    (st : Settings) (now : ℕ) (db : Db) (jd : CampaignJd)
    → IsKeyed pair_key db.pairs
    → AllAdvance st db.pairs (cut_off now db jd).pairs
unfolding cut_off
cut_off_advance st now db jd k =
    let sound = ranked_rows_sound db jd.id k in
    rank_rows_advance now db (stage3_room jd) st 0 1 (ranked_rows db jd.id) db.pairs sound.0 sound.1

finalize_found_advance :
    (st : Settings) (now : ℕ) (db : Db) (found : Option CampaignJd)
    → IsKeyed pair_key db.pairs
    → AllAdvance st db.pairs (tables_after db (finalize_found now db found)).pairs
unfolding finalize_found
finalize_found_advance st now db none k = AllAdvance-refl st db.pairs
finalize_found_advance st now db (some jd) k = elim (Bool-cases (is_open_jd jd.status)) [
  | inr e ↦ rw e (AllAdvance-refl st db.pairs)
  | inl e ↦ rw e (elim (Bool-cases (ltb 0 (count (is_unresolved jd.id) db.pairs))) [
    | inl u ↦ rw u (AllAdvance-refl st db.pairs)
    | inr u ↦ rw u (elim (Bool-cases (any unscored (filter (is_ranked db jd.id) db.pairs))) [
      | inl s ↦ rw s (AllAdvance-refl st db.pairs)
      | inr s ↦ rw s (cut_off_advance st now db jd k)
    ])
  ])
]

pub finalize_jd_advance :
    (st : Settings) (now jd_id : ℕ) (db : Db)
    → IsKeyed pair_key db.pairs
    → AllAdvance st db.pairs (tables_after db (finalize_jd now jd_id db)).pairs
unfolding finalize_jd
finalize_jd_advance st now jd_id db k =
    finalize_found_advance st now db (find jd_row_key jd_id db.jds) k

finalize_then_advance :
    (st : Settings) (jd_id : ℕ) (db : Db) (rest : Db → Finalized) (r : Result (Db × Bool))
    → IsKeyed pair_key db.pairs
    → AllAdvance st db.pairs (tables_after db r).pairs
    → ((d : Db) → IsKeyed pair_key d.pairs → AllAdvance st d.pairs (rest d).0.pairs)
    → AllAdvance st db.pairs (finalize_then jd_id db rest r).0.pairs
unfolding finalize_then
finalize_then_advance st jd_id db rest (err e) k h more = h
finalize_then_advance st jd_id db rest (ok r) k h more =
    AllAdvance-trans st db.pairs r.0.pairs (rest r.0).0.pairs h
      (more r.0 (IsKeyed-AllAdvance st db.pairs r.0.pairs h k))

finalize_loop_advance :
    (st : Settings) (now : ℕ) (jd_ids : List ℕ) (db : Db)
    → IsKeyed pair_key db.pairs
    → AllAdvance st db.pairs (finalize_loop now jd_ids db).0.pairs
unfolding finalize_loop finalize_jd
finalize_loop_advance st now [] db k = AllAdvance-refl st db.pairs
finalize_loop_advance st now (jd_id ∷ jd_ids) db k =
    finalize_then_advance st jd_id db (finalize_loop now jd_ids) (finalize_jd now jd_id db) k
      (finalize_found_advance st now db (find jd_row_key jd_id db.jds) k)
      (finalize_loop_advance st now jd_ids)

-- In tables with distinct pair keys, `finalize_ready_jds` moves every pair along the diagram, keeps
-- its soundness, and changes no field of a terminal pair, also when it ends by an exception.
pub finalize_ready_jds-AllAdvance :
    (st : Settings) (now cid : ℕ) (db : Db)
    → IsKeyed pair_key db.pairs
    → AllAdvance st db.pairs (finalize_ready_jds now cid db).0.pairs
unfolding finalize_ready_jds
finalize_ready_jds-AllAdvance st now cid db k =
    finalize_loop_advance st now (map (λ (j : CampaignJd). j.id) (filter (jd_is_ready cid) db.jds))
      db k

finalize_found_inv :
    (now : ℕ) (db d : Db) (jd : CampaignJd)
    → finalize_found now db (some jd) ≡ ok (d, true)
    → (count (is_unresolved jd.id) db.pairs ≡ 0) × (d ≡ cut_off now db jd)
unfolding finalize_found
finalize_found_inv now db d jd h = ground arith

-- When `finalize_jd` finalizes a JD in tables with distinct pair keys, no pair of the JD was
-- unresolved, and the JD's ranked rows, in the order of `candidate_sort_key`, are placed: the first
-- min(stage3_cap, 15) eligible rows are SHORTLISTED, the other eligible rows CUTOFF_EXCLUDED, and
-- the rows that are not eligible REVIEW_REQUIRED.
pub finalize_jd-IsPlaced :
    (now : ℕ) (db d : Db) (jd : CampaignJd)
    → IsKeyed pair_key db.pairs
    → find jd_row_key jd.id db.jds ≡ some jd
    → finalize_jd now jd.id db ≡ ok (d, true)
    → (count (is_unresolved jd.id) db.pairs ≡ 0)
      × IsSorted (row_le db) (ranked_rows db jd.id)
      × IsPlaced db (stage3_room jd) (ranked_rows db jd.id) d.pairs
unfolding finalize_jd
finalize_jd-IsPlaced now db d jd k f h =
    let found : finalize_found now db (some jd) ≡ ok (d, true) = rw f at h in
    let (none_left, same) = finalize_found_inv now db d jd found in
    let sound = ranked_rows_sound db jd.id k in
    (
      none_left,
      ranked_rows-IsSorted db jd.id,
      rw same (
          unfold cut_off in
          rw sub-zero at (
            rank_rows-IsPlaced now db (stage3_room jd) 0 1 (ranked_rows db jd.id) db.pairs sound.0
              sound.1)),
    )
