-- ===== src/Campaign/Cutoff/Placement.antt =====
-- Which pairs the ranking loop shortlists, cuts off and holds for review.
use ai_cv_screening.Prelude.{
  ℕ, suc, ◌+◌, ◌-◌, ◌≡◌, ◌≢◌, refl, sym, ◌∙◌, Bool, true, false, not, some, List, [], ◌∷◌, arith,
  ltb, ltb→lt, filter, take, drop, take-nil, drop-nil, All,
}
use ai_cv_screening.Prelude.Table.{
  find, update, IsKeyed, All-both, find-update_ne, find-update_self, Pointwise-update,
}
use ai_cv_screening.Campaign.Lifecycle.{
  pair_key, Advances, Advances-refl, Advances-from, AllAdvance, AllAdvance-refl, AllAdvance-trans,
  moves, status_of_is_stage2_ready,
}
use ai_cv_screening.Campaign.Rows.{PairStatus, Settings, Pair, Db, is_stage2_ready}
use ai_cv_screening.Campaign.Cutoff.{
  Payload, payload, row_eligible, place, next_selected, write, rank_rows,
}

place_keeps_id :
    (now rank : ℕ) (ev : Payload) (e room : Bool) (p : Pair)
    → (place now rank ev e room p).id ≡ p.id
unfolding place
place_keeps_id now rank ev true true p = refl
place_keeps_id now rank ev true false p = refl
place_keeps_id now rank ev false room p = refl

place-Advances :
    (st : Settings) (now rank : ℕ) (ev : Payload) (e room : Bool) (p : Pair)
    → is_stage2_ready p.status ≡ true
    → Advances st p (place now rank ev e room p)
unfolding place
place-Advances st now rank ev true true p h =
    Advances-from st PairStatus.stage2_ready p _ (status_of_is_stage2_ready p.status h) refl refl
      refl refl refl (search moves) (λ k. ground arith)
place-Advances st now rank ev true false p h =
    Advances-from st PairStatus.stage2_ready p _ (status_of_is_stage2_ready p.status h) refl refl
      refl refl refl (search moves) (λ k. ground arith)
place-Advances st now rank ev false room p h =
    Advances-from st PairStatus.stage2_ready p _ (status_of_is_stage2_ready p.status h) refl refl
      refl refl refl (search moves) (λ k. ground arith)

-- a row of the ranking is the table's row for its key, and waits for the cutoff
abbrev pub IsWaiting : List Pair → Pair → Type 0
IsWaiting table r = (find pair_key r.id table ≡ some r) × (is_stage2_ready r.status ≡ true)

-- the table's row for the key of `r` now has the status `s`
abbrev pub HasNow : List Pair → PairStatus → Pair → Type 0
HasNow table s r = (p : Pair) × (find pair_key r.id table ≡ some p) × (p.status ≡ s)

-- The eligible rows are shortlisted in order while there is room, the other eligible rows are cut
-- off, and the rows that are not eligible are held for review.
pub record IsPlaced (db : Db) (room : ℕ) (rows table : List Pair) : Type 0 where
  pub chosen : All (HasNow table PairStatus.shortlisted) (take room (filter (row_eligible db) rows))
  pub cut :
      All (HasNow table PairStatus.cutoff_excluded) (drop room (filter (row_eligible db) rows))
  pub held :
      All (HasNow table PairStatus.review_required) (filter (λ r. not (row_eligible db r)) rows)

module _ (now : ℕ) (db : Db) (limit : ℕ) where
  still-IsWaiting :
      (selected rank : ℕ) (r : Pair) (table rows : List Pair)
      → All (λ x. r.id ≢ x.id) rows
      → All (IsWaiting table) rows
      → All (IsWaiting (update pair_key r.id (write db now limit selected rank r) table)) rows
  still-IsWaiting selected rank r table rows =
      let f = write db now limit selected rank r in
      let keeps = place_keeps_id now rank (payload db r) (row_eligible db r) (ltb selected limit) in
      All-both (λ x. r.id ≢ x.id) (IsWaiting table) (IsWaiting (update pair_key r.id f table))
        (λ x ne h. (find-update_ne pair_key r.id x.id f keeps ne table ∙ h.0, h.1)) rows

  find-rank_rows_apart :
      (k selected rank : ℕ) (rows table : List Pair)
      → All (λ r. k ≢ r.id) rows
      → find pair_key k (rank_rows db now limit selected rank rows table) ≡ find pair_key k table
  unfolding rank_rows
  find-rank_rows_apart k selected rank [] table h = refl
  find-rank_rows_apart k selected rank (r ∷ rows) table h =
      let f = write db now limit selected rank r in
      let keeps = place_keeps_id now rank (payload db r) (row_eligible db r) (ltb selected limit) in
      find-rank_rows_apart k (next_selected db limit selected r) (rank + 1) rows
        (update pair_key r.id f table) h.1
      ∙ find-update_ne pair_key r.id k f keeps (λ e. h.0 (sym e)) table

  pub rank_rows_advance :
      (st : Settings) (selected rank : ℕ) (rows table : List Pair)
      → IsKeyed pair_key rows
      → All (IsWaiting table) rows
      → AllAdvance st table (rank_rows db now limit selected rank rows table)
  unfolding rank_rows
  rank_rows_advance st selected rank [] table k h = AllAdvance-refl st table
  rank_rows_advance st selected rank (r ∷ rows) table k h =
      let f = write db now limit selected rank r in
      let table' = update pair_key r.id f table in
      let selected' = next_selected db limit selected r in
      AllAdvance-trans st table table' (rank_rows db now limit selected' (rank + 1) rows table')
        (Pointwise-update pair_key (Advances st) r.id f (Advances-refl st) table (λ a e.
          place-Advances st now rank (payload db r) (row_eligible db r) (ltb selected limit) a
            (cc (e, h.0.0, h.0.1))))
        (rank_rows_advance st selected' (rank + 1) rows table' k.1
          (still-IsWaiting selected rank r table rows k.0 h.1))

  -- what the loop wrote to the row at its head
  head_placed :
      (selected rank : ℕ) (r : Pair) (rows table : List Pair)
      → IsKeyed pair_key (r ∷ rows)
      → find pair_key r.id table ≡ some r
      → find pair_key r.id (rank_rows db now limit selected rank (r ∷ rows) table)
        ≡ some (write db now limit selected rank r r)
  unfolding rank_rows
  head_placed selected rank r rows table k h =
      let f = write db now limit selected rank r in
      let keeps = place_keeps_id now rank (payload db r) (row_eligible db r) (ltb selected limit) in
      find-rank_rows_apart r.id (next_selected db limit selected r) (rank + 1) rows
        (update pair_key r.id f table) k.0
      ∙ find-update_self pair_key r.id f keeps table h

  IsPlaced-step :
      (selected rank : ℕ) (r : Pair) (rows table : List Pair)
      → (e : Bool) → row_eligible db r ≡ e
      → (b : Bool) → ltb selected limit ≡ b
      → HasNow table (place now rank (payload db r) e b r).status r
      → IsPlaced db (limit - next_selected db limit selected r) rows table
      → IsPlaced db (limit - selected) (r ∷ rows) table
  unfolding place
  IsPlaced-step selected rank r rows table false e b l h ih =
      let rest : IsPlaced db (limit - selected) rows table = rw e at ih in
      record { chosen = rw e rest.chosen; cut = rw e rest.cut; held = rw e (h, rest.held) }
  IsPlaced-step selected rank r rows table true e true l h ih =
      let rest : IsPlaced db (limit - (selected + 1)) rows table = rw (e, l) at ih in
      let room : limit - selected ≡ suc (limit - (selected + 1)) =
        omega (arith, ltb→lt selected limit l) in
      record {
        chosen = rw (e, room) (h, rest.chosen);
        cut = rw (e, room) rest.cut;
        held = rw e rest.held;
      }
  IsPlaced-step selected rank r rows table true e false l h ih =
      let rest : IsPlaced db (limit - selected) rows table = rw (e, l) at ih in
      let full : limit - selected ≡ 0 = ground arith in
      record {
        chosen = rw (e, full) tt;
        cut = rw (e, full) (h, (rw full at rest.cut));
        held = rw e rest.held;
      }

  pub rank_rows-IsPlaced :
      (selected rank : ℕ) (rows table : List Pair)
      → IsKeyed pair_key rows
      → All (IsWaiting table) rows
      → IsPlaced db (limit - selected) rows (rank_rows db now limit selected rank rows table)
  unfolding rank_rows
  rank_rows-IsPlaced selected rank [] table k h = record {
    chosen = rw (take-nil {A = Pair} (limit - selected)) tt;
    cut = rw (drop-nil {A = Pair} (limit - selected)) tt;
    held = tt;
  }
  rank_rows-IsPlaced selected rank (r ∷ rows) table k h =
      let f = write db now limit selected rank r in
      IsPlaced-step selected rank r rows (rank_rows db now limit selected rank (r ∷ rows) table)
        (row_eligible db r) refl (ltb selected limit) refl
        (f r, head_placed selected rank r rows table k h.0.0, refl)
        (rank_rows-IsPlaced (next_selected db limit selected r) (rank + 1) rows
          (update pair_key r.id f table) k.1 (still-IsWaiting selected rank r table rows k.0 h.1))
