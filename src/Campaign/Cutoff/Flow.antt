-- ===== src/Campaign/Cutoff/Flow.antt =====
-- The cut-off puts no pair in flight.
use ai_cv_screening.Prelude.{
  ℕ, ◌+◌, Bool, true, false, Option, none, some, List, [], ◌∷◌, arith, inl, inr, Bool-cases, ltb,
  any, filter, count,
}
use ai_cv_screening.Prelude.Table.{find, update}
use ai_cv_screening.Campaign.Rows.{CampaignJd, Pair, Db, tables_after, is_open_jd}
use ai_cv_screening.Campaign.Lifecycle.{pair_key}
use ai_cv_screening.Campaign.Dispatch.{jd_row_key}
use ai_cv_screening.Campaign.Inflight.{StartsNone, NoMore, update-NoMore}
use ai_cv_screening.Campaign.Cutoff.{
  Payload, place, write, next_selected, rank_rows, payload, row_eligible, stage3_room, ranked_rows,
  is_unresolved, is_ranked, unscored, cut_off, finalize_found, finalize_jd,
}

place-StartsNone :
    (now rank : ℕ) (evidence : Payload) (ok room : Bool)
    → StartsNone (place now rank evidence ok room)
unfolding place
place-StartsNone now rank evidence true true p = ground arith
place-StartsNone now rank evidence true false p = ground arith
place-StartsNone now rank evidence false room p = ground arith

rank_rows-NoMore :
    (db : Db) (now limit selected rank : ℕ) (rows table : List Pair)
    → NoMore table (rank_rows db now limit selected rank rows table)
unfolding rank_rows
rank_rows-NoMore db now limit selected rank [] table = (omega arith, omega arith)
rank_rows-NoMore db now limit selected rank (r ∷ rows) table =
    let w = write db now limit selected rank r in
    let starts =
      place-StartsNone now rank (payload db r) (row_eligible db r) (ltb selected limit) in
    omega (
      arith,
      update-NoMore r.id w starts table,
      rank_rows-NoMore db now limit (next_selected db limit selected r) (rank + 1) rows
          (update pair_key r.id w table),
    )

finalize_found-NoMore :
    (now : ℕ) (db : Db) (found : Option CampaignJd)
    → NoMore db.pairs (tables_after db (finalize_found now db found)).pairs
unfolding finalize_found cut_off
finalize_found-NoMore now db none = (omega arith, omega arith)
finalize_found-NoMore now db (some jd) = elim (Bool-cases (is_open_jd jd.status)) [
  | inr e ↦ rw e (omega arith, omega arith)
  | inl e ↦ rw e (elim (Bool-cases (ltb 0 (count (is_unresolved jd.id) db.pairs))) [
    | inl u ↦ rw u (omega arith, omega arith)
    | inr u ↦ rw u (elim (Bool-cases (any unscored (filter (is_ranked db jd.id) db.pairs))) [
      | inl s ↦ rw s (omega arith, omega arith)
      | inr s ↦ rw s (rank_rows-NoMore db now (stage3_room jd) 0 1 (ranked_rows db jd.id) db.pairs)
    ])
  ])
]

pub finalize_jd-NoMore :
    (now jd_id : ℕ) (db : Db) → NoMore db.pairs (tables_after db (finalize_jd now jd_id db)).pairs
unfolding finalize_jd
finalize_jd-NoMore now jd_id db = finalize_found-NoMore now db (find jd_row_key jd_id db.jds)
