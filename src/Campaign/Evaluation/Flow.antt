-- ===== src/Campaign/Evaluation/Flow.antt =====
-- A dispatch of evaluations starts no retrieval.
use ai_cv_screening.Prelude.{ℕ, ◌≤◌, ◌≡◌, true, arith, inl, inr, Bool-cases, count}
use ai_cv_screening.Campaign.Rows.{Settings, Pair, Db}
use ai_cv_screening.Campaign.Claims.{count-claim_rows-le_of}
use ai_cv_screening.Campaign.Inflight.{StartsNone, update_where-NoMore}
use ai_cv_screening.Campaign.Dispatch.{campaign_active, runs}
use ai_cv_screening.Campaign.Evaluation.{
  release_evaluation, evaluation_expired, release_evaluations, claim, evaluation_rows,
  dispatch_stage3,
}

release_evaluation-StartsNone : (st : Settings) → StartsNone (release_evaluation st)
unfolding release_evaluation
release_evaluation-StartsNone st p = ground arith

claim_runs_none :
    (st : Settings) (now token : ℕ) (p : Pair) → runs (claim st now token p) ≡ true → runs p ≡ true
unfolding claim
claim_runs_none st now token p h = ground arith

pub dispatch_stage3-runs :
    (st : Settings) (now : ℕ) (fresh : ℕ → ℕ) (cid : ℕ) (db : Db)
    → count runs (dispatch_stage3 st now fresh cid db).0.pairs ≤ count runs db.pairs
unfolding dispatch_stage3 release_evaluations
dispatch_stage3-runs st now fresh cid db = elim (Bool-cases (campaign_active db cid)) [
  | inr e ↦ rw e (omega arith)
  | inl e ↦
      let ps = release_evaluations st now cid db.pairs in
      rw e (
        omega (
          arith,
          count-claim_rows-le_of (claim st now) fresh runs (λ i. claim_runs_none st now (fresh i)) 0
              (evaluation_rows st now db cid ps) ps,
          update_where-NoMore (evaluation_expired now cid) (release_evaluation st)
              (release_evaluation-StartsNone st) db.pairs,
        ))
]
