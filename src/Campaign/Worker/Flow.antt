-- ===== src/Campaign/Worker/Flow.antt =====
-- No write of a worker puts a pair in flight.
use ai_cv_screening.Prelude.{ℕ, Bool, Option, none, some, arith, inl, inr, Bool-cases, String}
use ai_cv_screening.Prelude.Table.{find}
use ai_cv_screening.Scoring.Schemas.{FinalCandidateEvaluation}
use ai_cv_screening.Campaign.Rows.{PairStatus, Settings, Pair, Db, tables_after}
use ai_cv_screening.Campaign.Lifecycle.{pair_key}
use ai_cv_screening.Campaign.Inflight.{StartsNone, NoMore, update-NoMore}
use ai_cv_screening.Campaign.Worker.{
  owns, fence, fenced, Outcome, failed, rejected, retrieved, record_details, settle_retrieval,
  give_back, unclaim, park, start_attempt, ProviderFailure, settle_failure, settle_evaluation,
}

fence-NoMore :
    (state : PairStatus → Bool) (token : ℕ) (write : Pair → Pair) (db : Db) (found : Option Pair)
    → StartsNone write
    → NoMore db.pairs (tables_after db (fence state token write db found)).pairs
fence-NoMore state token write db none h = (omega arith, omega arith)
fence-NoMore state token write db (some p) h = elim (Bool-cases (owns state token p)) [
  | inl e ↦ rw e (update-NoMore p.id write h db.pairs)
  | inr e ↦ rw e (omega arith, omega arith)
]

pub fenced-NoMore :
    (state : PairStatus → Bool) (pair_id token : ℕ) (write : Pair → Pair) (db : Db)
    → StartsNone write
    → NoMore db.pairs (tables_after db (fenced state pair_id token write db)).pairs
unfolding fenced
fenced-NoMore state pair_id token write db h =
    fence-NoMore state token write db (find pair_key pair_id db.pairs) h

pub settle_retrieval-StartsNone :
    (st : Settings) (now version : ℕ) (outcome : Outcome)
    → StartsNone (settle_retrieval st now version outcome)
unfolding settle_retrieval record_details
settle_retrieval-StartsNone st now version (failed none error) p = ground arith
settle_retrieval-StartsNone st now version (failed (some d) error) p = ground arith
settle_retrieval-StartsNone st now version (rejected d) p = ground arith
settle_retrieval-StartsNone st now version (retrieved d e score) p = ground arith

pub settle_failure-StartsNone :
    (st : Settings) (now attempt : ℕ) (e : ProviderFailure)
    → StartsNone (settle_failure st now attempt e)
unfolding settle_failure
settle_failure-StartsNone st now attempt e p = ground arith

pub settle_evaluation-StartsNone :
    (now : ℕ) (result : FinalCandidateEvaluation) (policy : String)
    → StartsNone (settle_evaluation now result policy)
unfolding settle_evaluation
settle_evaluation-StartsNone now result policy p = ground arith

pub give_back-StartsNone : StartsNone give_back
unfolding give_back
give_back-StartsNone p = ground arith

pub unclaim-StartsNone : StartsNone unclaim
unfolding unclaim
unclaim-StartsNone p = ground arith

pub start_attempt-StartsNone : StartsNone start_attempt
unfolding start_attempt
start_attempt-StartsNone p = (λ h. h, λ h. h)

pub park-StartsNone : (now wait : ℕ) → StartsNone (park now wait)
unfolding park
park-StartsNone now wait p = ground arith
