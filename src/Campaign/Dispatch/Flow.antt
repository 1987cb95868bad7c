-- ===== src/Campaign/Dispatch/Flow.antt =====
-- A dispatch of retrievals starts no evaluation.
use ai_cv_screening.Prelude.{ℕ, ◌≤◌, ◌≡◌, true, arith, inl, inr, Bool-cases, count}
use ai_cv_screening.Campaign.Rows.{Settings, Pair, Db}
use ai_cv_screening.Campaign.Claims.{count-claim_rows-le_of}
use ai_cv_screening.Campaign.Inflight.{StartsNone, update_where-NoMore}
use ai_cv_screening.Campaign.Evaluation.{evaluates}
use ai_cv_screening.Campaign.Dispatch.{
  campaign_active, release_expired, is_expired, release_all, lease, selected_rows, dispatch_pairs,
}

release-StartsNone : (st : Settings) → StartsNone (release_expired st)
unfolding release_expired
release-StartsNone st p = ground arith

lease-evaluates_none :
    (st : Settings) (now token : ℕ) (p : Pair)
    → evaluates (lease st now token p) ≡ true
    → evaluates p ≡ true
unfolding lease
lease-evaluates_none st now token p h = ground arith

pub dispatch_pairs-evaluates :
    (st : Settings) (now : ℕ) (fresh : ℕ → ℕ) (cid : ℕ) (db : Db)
    → count evaluates (dispatch_pairs st now fresh cid db).0.pairs ≤ count evaluates db.pairs
unfolding dispatch_pairs release_all
dispatch_pairs-evaluates st now fresh cid db = elim (Bool-cases (campaign_active db cid)) [
  | inr e ↦ rw e (omega arith)
  | inl e ↦
      let ps = release_all st now cid db.pairs in
      rw e (
        omega (
          arith,
          count-claim_rows-le_of (lease st now) fresh evaluates
              (λ i. lease-evaluates_none st now (fresh i)) 0 (selected_rows st db cid ps) ps,
          update_where-NoMore (is_expired now cid) (release_expired st) (release-StartsNone st)
              db.pairs,
        ))
]
