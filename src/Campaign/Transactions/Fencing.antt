-- ===== src/Campaign/Transactions/Fencing.antt =====
-- A lease token that nobody holds any more is dead.
use ai_cv_screening.Prelude.{
  ℕ, ◌≡◌, refl, Bool, false, Option, none, some, List, [], ◌∷◌, arith, count,
}
use ai_cv_screening.Prelude.Table.{find}
use ai_cv_screening.Campaign.Rows.{PairStatus, Settings, Pair, Db, tables_after}
use ai_cv_screening.Campaign.Lifecycle.{pair_key}
use ai_cv_screening.Campaign.Worker.{owns, fence, fenced}
use ai_cv_screening.Campaign.Transactions.{Report, report, Transaction, perform, perform_all}
use ai_cv_screening.Campaign.Transactions.Reports.{reporting_state, report_write, report-fenced}
use ai_cv_screening.Campaign.Transactions.Tokens.{holds, Spares, perform-NoMoreHeld}

-- none of the transactions gives out the token
abbrev pub AllSpare : ℕ → List Transaction → Type 0
AllSpare token [] = Unit {0}
AllSpare token (t ∷ ts) = Spares token t × AllSpare token ts

perform_all-NoneHeld :
    (st : Settings) (token : ℕ) (ts : List Transaction) (db : Db)
    → AllSpare token ts
    → count (holds token) db.pairs ≡ 0
    → count (holds token) (perform_all st ts db).pairs ≡ 0
unfolding perform_all
perform_all-NoneHeld st token [] db h z = z
perform_all-NoneHeld st token (t ∷ ts) db h z =
    perform_all-NoneHeld st token ts (perform st t db) h.1
      (omega (arith, perform-NoMoreHeld token st t db h.0, z))

found_unheld :
    (token k : ℕ) (ps : List Pair) (p : Pair)
    → count (holds token) ps ≡ 0
    → find pair_key k ps ≡ some p
    → holds token p ≡ false
found_unheld token k [] p z f = cc
found_unheld token k (q ∷ ps) p z f = ground (arith, found_unheld token k ps p)

fence_unheld :
    (state : PairStatus → Bool) (token : ℕ) (write : Pair → Pair) (db : Db) (found : Option Pair)
    → ((p : Pair) → found ≡ some p → holds token p ≡ false)
    → tables_after db (fence state token write db found) ≡ db
fence_unheld state token write db none h = refl
fence_unheld state token write db (some p) h =
    let lost : owns state token p ≡ false = ground (arith, h p refl) in rw lost refl

-- Once no pair is held under a lease token, then after any sequence of transactions of coordinators and
-- workers that does not issue the token again, a report under it on any pair changes nothing: a worker
-- whose lease was released writes no more.
pub report_fenced :
    (st : Settings) (r : Report) (pair_id token : ℕ) (ts : List Transaction) (db : Db)
    → count (holds token) db.pairs ≡ 0
    → AllSpare token ts
    → report st r pair_id token (perform_all st ts db) ≡ perform_all st ts db
unfolding fenced
report_fenced st r pair_id token ts db z spare =
    let d = perform_all st ts db in
    rw (report-fenced st r pair_id token d) (
      fence_unheld (reporting_state r) token (report_write st r) d (find pair_key pair_id d.pairs)
        (λ p f.
          found_unheld token pair_id d.pairs p (perform_all-NoneHeld st token ts db spare z) f))
