-- ===== src/Campaign/Claims.antt =====
-- The loop by which the dispatchers of app/campaigns/coordinator.py hand out leases: each selected
-- row is written under a fresh token, and the pair of its key and token is returned.
use ai_cv_screening.Prelude.{
  ℕ, suc, ◌+◌, ◌≤◌, ◌≡◌, ◌≢◌, refl, sym, ◌∙◌, Bool, true, some, List, [], ◌∷◌, arith, count, length,
  take, sort_by, filter, All, All-take, All-sort_by,
}
use ai_cv_screening.Prelude.Table.{
  find, update, IsKeyed, IsKeyed-filter, IsKeyed-take, IsKeyed-sort_by, IsKeyed-find, All-filter,
  All-both, filter_sound, count-update-le, count-update-le_of, find-update_ne, find-update_self,
  Pointwise-update,
}
use ai_cv_screening.Campaign.Rows.{PairStatus, Settings, Pair}
use ai_cv_screening.Campaign.Lifecycle.{
  pair_key, Advances, Advances-refl, AllAdvance, AllAdvance-refl, AllAdvance-trans,
}

module _ (give : ℕ → Pair → Pair) (fresh : ℕ → ℕ) where
  -- `give token` is the assignments to a row; `fresh i` is the i-th `uuid4()`
  unfoldable pub claim_rows : ℕ → List Pair → List Pair → List Pair × List (ℕ × ℕ)
  claim_rows i [] table = (table, [])
  claim_rows i (r ∷ rows) table =
      let rest = claim_rows (suc i) rows (update pair_key r.id (give (fresh i)) table) in
      (rest.0, (r.id, fresh i) ∷ rest.1)

  pub count-claim_rows-le :
      (q : Pair → Bool) (i : ℕ) (rows table : List Pair)
      → count q (claim_rows i rows table).0 ≤ count q table + length rows
  unfolding claim_rows
  count-claim_rows-le q i [] table = omega arith
  count-claim_rows-le q i (r ∷ rows) table = omega (
    arith,
    count-claim_rows-le q (suc i) rows (update pair_key r.id (give (fresh i)) table),
    count-update-le pair_key q r.id (give (fresh i)) table,
  )

  -- a claim that does not make `q` true of a row does not raise the count of `q`
  pub count-claim_rows-le_of :
      (q : Pair → Bool)
      → ((i : ℕ) (p : Pair) → q (give (fresh i) p) ≡ true → q p ≡ true)
      → (i : ℕ) (rows table : List Pair) → count q (claim_rows i rows table).0 ≤ count q table
  unfolding claim_rows
  count-claim_rows-le_of q h i [] table = omega arith
  count-claim_rows-le_of q h i (r ∷ rows) table = omega (
    arith,
    count-claim_rows-le_of q h (suc i) rows (update pair_key r.id (give (fresh i)) table),
    count-update-le_of pair_key q r.id (give (fresh i)) (h i) table,
  )

  pub length-claim_rows :
      (i : ℕ) (rows table : List Pair) → length (claim_rows i rows table).1 ≡ length rows
  unfolding claim_rows
  length-claim_rows i [] table = omega arith
  length-claim_rows i (r ∷ rows) table =
      omega (arith, length-claim_rows (suc i) rows (update pair_key r.id (give (fresh i)) table))

-- a selected row is the table's row for its key, and is in the state that may be claimed
abbrev pub IsSelected : (PairStatus → Bool) → List Pair → Pair → Type 0
IsSelected from table r = (find pair_key r.id table ≡ some r) × (from r.status ≡ true)

-- a claim names a row in the given state that its token fences
abbrev pub IsHeld : PairStatus → List Pair → ℕ × ℕ → Type 0
IsHeld to table c =
    (p : Pair) × (find pair_key c.0 table ≡ some p) × (p.status ≡ to) × (p.lease_owner ≡ some c.1)

-- The rows of a query, ordered and limited, are selected rows.
pub query_selects :
    (from : PairStatus → Bool) (p : Pair → Bool)
    → ((r : Pair) → p r ≡ true → from r.status ≡ true)
    → (le : Pair → Pair → Bool) (n : ℕ) (table : List Pair) → IsKeyed pair_key table
    → IsKeyed pair_key (take n (sort_by le (filter p table)))
      × All (IsSelected from table) (take n (sort_by le (filter p table)))
query_selects from p sound le n table k =
    let rows = filter p table in
    let found : All (IsSelected from table) rows =
      All-both (λ r. find pair_key r.id table ≡ some r) (λ r. p r ≡ true) (IsSelected from table)
        (λ r f e. (f, sound r e)) rows
        (All-filter (λ r. find pair_key r.id table ≡ some r) p table
          (IsKeyed-find pair_key table k))
        (filter_sound p table) in
    (
      IsKeyed-take pair_key n (sort_by le rows)
          (IsKeyed-sort_by pair_key le rows (IsKeyed-filter pair_key p table k)),
      All-take (IsSelected from table) n (sort_by le rows)
          (All-sort_by (IsSelected from table) le rows found),
    )

module _ (st : Settings) (give : ℕ → Pair → Pair) (fresh : ℕ → ℕ) (from : PairStatus → Bool)
    (to : PairStatus) (keeps : (token : ℕ) (p : Pair) → (give token p).id ≡ p.id)
    (gives : (token : ℕ) (p : Pair)
      → ((give token p).status ≡ to) × ((give token p).lease_owner ≡ some token))
    (advances : (token : ℕ) (p : Pair) → from p.status ≡ true → Advances st p (give token p)) where
  still-IsSelected :
      (token k : ℕ) (table rows : List Pair)
      → All (λ r. k ≢ r.id) rows
      → All (IsSelected from table) rows
      → All (IsSelected from (update pair_key k (give token) table)) rows
  still-IsSelected token k table rows =
      All-both (λ r. k ≢ r.id) (IsSelected from table)
        (IsSelected from (update pair_key k (give token) table))
        (λ r ne h. (find-update_ne pair_key k r.id (give token) (keeps token) ne table ∙ h.0, h.1))
        rows

  pub claim_rows_advance :
      (i : ℕ) (rows table : List Pair)
      → IsKeyed pair_key rows
      → All (IsSelected from table) rows
      → AllAdvance st table (claim_rows give fresh i rows table).0
  unfolding claim_rows
  claim_rows_advance i [] table k h = AllAdvance-refl st table
  claim_rows_advance i (r ∷ rows) table k h =
      let table' = update pair_key r.id (give (fresh i)) table in
      AllAdvance-trans st table table' (claim_rows give fresh (suc i) rows table').0
        (Pointwise-update pair_key (Advances st) r.id (give (fresh i)) (Advances-refl st) table
          (λ a e. advances (fresh i) a (cc (e, h.0.0, h.0.1))))
        (claim_rows_advance (suc i) rows table' k.1
          (still-IsSelected (fresh i) r.id table rows k.0 h.1))

  find-claim_rows_apart :
      (i k : ℕ) (rows table : List Pair)
      → All (λ r. k ≢ r.id) rows
      → find pair_key k (claim_rows give fresh i rows table).0 ≡ find pair_key k table
  unfolding claim_rows
  find-claim_rows_apart i k [] table h = refl
  find-claim_rows_apart i k (r ∷ rows) table h =
      find-claim_rows_apart (suc i) k rows (update pair_key r.id (give (fresh i)) table) h.1
      ∙ find-update_ne pair_key r.id k (give (fresh i)) (keeps (fresh i)) (λ e. h.0 (sym e)) table

  pub claim_rows-IsHeld :
      (i : ℕ) (rows table : List Pair)
      → IsKeyed pair_key rows
      → All (IsSelected from table) rows
      → All
          (IsHeld to (claim_rows give fresh i rows table).0)
          (claim_rows give fresh i rows table).1
  unfolding claim_rows
  claim_rows-IsHeld i [] table k h = tt
  claim_rows-IsHeld i (r ∷ rows) table k h =
      let table' = update pair_key r.id (give (fresh i)) table in
      (
        (
          give (fresh i) r,
          find-claim_rows_apart (suc i) r.id rows table' k.0
              ∙ find-update_self pair_key r.id (give (fresh i)) (keeps (fresh i)) table h.0.0,
          (gives (fresh i) r).0,
          (gives (fresh i) r).1,
        ),
        claim_rows-IsHeld (suc i) rows table' k.1
            (still-IsSelected (fresh i) r.id table rows k.0 h.1),
      )
