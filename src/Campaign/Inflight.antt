-- ===== src/Campaign/Inflight.antt =====
-- The pairs in flight: those that retrieval workers and evaluation workers hold.
use ai_cv_screening.Prelude.{ℕ, ◌≤◌, ◌≡◌, Bool, true, List, count}
use ai_cv_screening.Prelude.Table.{update, update_where, count-update-le_of, count-update_where-le}
use ai_cv_screening.Campaign.Rows.{Pair}
use ai_cv_screening.Campaign.Lifecycle.{pair_key}
use ai_cv_screening.Campaign.Dispatch.{runs}
use ai_cv_screening.Campaign.Evaluation.{evaluates}

-- a write that puts no pair in flight
abbrev pub StartsNone : (Pair → Pair) → Type 0
StartsNone write =
    (p : Pair)
    → (runs (write p) ≡ true → runs p ≡ true) × (evaluates (write p) ≡ true → evaluates p ≡ true)

-- neither count has grown
abbrev pub NoMore : List Pair → List Pair → Type 0
NoMore ps qs = (count runs qs ≤ count runs ps) × (count evaluates qs ≤ count evaluates ps)

pub update-NoMore :
    (k : ℕ) (write : Pair → Pair)
    → StartsNone write
    → (ps : List Pair) → NoMore ps (update pair_key k write ps)
update-NoMore k write h ps = (
  count-update-le_of pair_key runs k write (λ a. (h a).0) ps,
  count-update-le_of pair_key evaluates k write (λ a. (h a).1) ps,
)

pub update_where-NoMore :
    (selects : Pair → Bool) (write : Pair → Pair)
    → StartsNone write
    → (ps : List Pair) → NoMore ps (update_where selects write ps)
update_where-NoMore selects write h ps = (
  count-update_where-le runs selects write (λ a e. (h a).0) ps,
  count-update_where-le evaluates selects write (λ a e. (h a).1) ps,
)
