-- ===== src/Campaign/Worker/Writes.antt =====
-- Each write of a worker moves its pair along the diagram.
use ai_cv_screening.Prelude.{
  String, sym, ap, ◌∙◌, ℕ, ◌≡◌, refl, Bool, true, false, Option, none, some, List, arith, inl, inr,
  Bool-cases, ltb, leb,
}
use ai_cv_screening.Prelude.Table.{find, find-key, Pointwise-update}
use ai_cv_screening.Scoring.Schemas.{EvaluationStatus, FinalCandidateEvaluation}
use ai_cv_screening.Campaign.Rows.{
  PairStatus, Settings, Pair, Db, is_pending, is_running, is_stage3_running, tables_after,
}
use ai_cv_screening.Campaign.Lifecycle.{
  pair_key, here, ◌⟶*◌, Advances, Advances-refl, Advances-from, AllAdvance, AllAdvance-refl, moves,
  status_of_is_running, status_of_is_stage3_running,
}
use ai_cv_screening.Campaign.Worker.{
  owns, fence, fenced, Outcome, failed, rejected, retrieved, record_details, settle_retrieval,
  give_back, unclaim, park, start_attempt, ProviderFailure, settle_failure, settle_evaluation,
  status_of_evaluation,
}

owns_state :
    (state : PairStatus → Bool) (token : ℕ) (p : Pair)
    → owns state token p ≡ true
    → state p.status ≡ true
owns_state state token p h = ground arith

find_own :
    (pair_id : ℕ) (ps : List Pair) (p : Pair)
    → find pair_key pair_id ps ≡ some p
    → find pair_key p.id ps ≡ some p
find_own pair_id ps p h = ap (λ k. find pair_key k ps) (find-key pair_key pair_id ps {a = p} h) ∙ h

fence_advance :
    (st : Settings) (state : PairStatus → Bool) (token : ℕ) (write : Pair → Pair) (db : Db)
    (found : Option Pair)
    → ((p : Pair) → found ≡ some p → find pair_key p.id db.pairs ≡ some p)
    → ((p : Pair) → state p.status ≡ true → Advances st p (write p))
    → AllAdvance st db.pairs (tables_after db (fence state token write db found)).pairs
fence_advance st state token write db none f h = AllAdvance-refl st db.pairs
fence_advance st state token write db (some p) f h = elim (Bool-cases (owns state token p)) [
  | inr e ↦ rw e (AllAdvance-refl st db.pairs)
  | inl e ↦ rw e (
      Pointwise-update pair_key (Advances st) p.id write (Advances-refl st) db.pairs
        (λ a same. h a (held a (cc (f p refl, same)) e)))
]
  where
    held : (a : Pair) → p ≡ a → owns state token p ≡ true → state a.status ≡ true
    held a same o = ap (λ (x : Pair). state x.status) (sym same) ∙ owns_state state token p o

pub fenced_advance :
    (st : Settings) (state : PairStatus → Bool) (pair_id token : ℕ) (write : Pair → Pair) (db : Db)
    → ((p : Pair) → state p.status ≡ true → Advances st p (write p))
    → AllAdvance st db.pairs (tables_after db (fenced state pair_id token write db)).pairs
unfolding fenced
fenced_advance st state pair_id token write db h =
    fence_advance st state token write db (find pair_key pair_id db.pairs)
      (find_own pair_id db.pairs) h

pub settle_retrieval-Advances :
    (st : Settings) (now version : ℕ) (outcome : Outcome) (p : Pair)
    → is_running p.status ≡ true
    → Advances st p (settle_retrieval st now version outcome p)
unfolding settle_retrieval record_details
settle_retrieval-Advances st now version (failed none error) p h =
    elim (Bool-cases (ltb p.attempt_count st.run_max_attempts)) [
      | inl e ↦ rw e (
          Advances-from st PairStatus.running p _ (status_of_is_running p.status h) refl refl refl
            refl refl (search moves) (λ k. ground arith))
      | inr e ↦ rw e (
          Advances-from st PairStatus.running p _ (status_of_is_running p.status h) refl refl refl
            refl refl (search moves) (λ k. ground arith))
    ]
settle_retrieval-Advances st now version (failed (some d) error) p h =
    elim (Bool-cases (ltb p.attempt_count st.run_max_attempts)) [
      | inl e ↦ rw e (
          Advances-from st PairStatus.running p _ (status_of_is_running p.status h) refl refl refl
            refl refl (search moves) (λ k. ground arith))
      | inr e ↦ rw e (
          Advances-from st PairStatus.running p _ (status_of_is_running p.status h) refl refl refl
            refl refl (search moves) (λ k. ground arith))
    ]
settle_retrieval-Advances st now version (rejected d) p h =
    Advances-from st PairStatus.running p _ (status_of_is_running p.status h) refl refl refl refl
      refl (search moves) (λ k. ground arith)
settle_retrieval-Advances st now version (retrieved d evidence score) p h =
    Advances-from st PairStatus.running p _ (status_of_is_running p.status h) refl refl refl refl
      refl (search moves) (λ k. ground arith)

pub give_back-Advances :
    (st : Settings) (p : Pair) → is_running p.status ≡ true → Advances st p (give_back p)
unfolding give_back
give_back-Advances st p h =
    Advances-from st PairStatus.running p _ (status_of_is_running p.status h) refl refl refl refl
      refl (search moves) (λ k. ground (arith, k.running_counted h))

pub unclaim-Advances :
    (st : Settings) (p : Pair) → is_stage3_running p.status ≡ true → Advances st p (unclaim p)
unfolding unclaim
unclaim-Advances st p h =
    Advances-from st PairStatus.stage3_running p _ (status_of_is_stage3_running p.status h) refl
      refl refl refl refl (search moves) (λ k. ground arith)

pub park-Advances :
    (st : Settings) (now wait : ℕ) (p : Pair)
    → is_stage3_running p.status ≡ true
    → Advances st p (park now wait p)
unfolding park
park-Advances st now wait p h =
    Advances-from st PairStatus.stage3_running p _ (status_of_is_stage3_running p.status h) refl
      refl refl refl refl (search moves) (λ k. ground arith)

pub start_attempt-Advances :
    (st : Settings) (p : Pair) → is_stage3_running p.status ≡ true → Advances st p (start_attempt p)
unfolding start_attempt
start_attempt-Advances st p h =
    Advances-from st PairStatus.stage3_running p _ (status_of_is_stage3_running p.status h) refl
      refl refl refl refl (rw (status_of_is_stage3_running p.status h) here)
      (λ k. ground (arith, k))

pub settle_failure-Advances :
    (st : Settings) (now attempt : ℕ) (e : ProviderFailure) (p : Pair)
    → is_stage3_running p.status ≡ true
    → Advances st p (settle_failure st now attempt e p)
unfolding settle_failure
settle_failure-Advances st now attempt e p h =
    let s3 = status_of_is_stage3_running p.status h in
    elim (Bool-cases (leb st.campaign_stage3_max_attempts attempt)) [
      | inl e ↦ rw e (
          Advances-from st PairStatus.stage3_running p _ s3 refl refl refl refl refl (search moves)
            (λ k. ground arith))
      | inr e ↦ rw e (
          Advances-from st PairStatus.stage3_running p _ s3 refl refl refl refl refl (search moves)
            (λ k. ground arith))
    ]

evaluation_path : (s : EvaluationStatus) → PairStatus.stage3_running ⟶* status_of_evaluation s
evaluation_path EvaluationStatus.success = search moves
evaluation_path EvaluationStatus.review_required = search moves
evaluation_path EvaluationStatus.evaluation_failed = search moves

evaluation_ends :
    (s : EvaluationStatus)
    → (is_pending (status_of_evaluation s) ≡ false)
      × (is_running (status_of_evaluation s) ≡ false)
      × (is_stage3_running (status_of_evaluation s) ≡ false)
evaluation_ends EvaluationStatus.success = (refl, refl, refl)
evaluation_ends EvaluationStatus.review_required = (refl, refl, refl)
evaluation_ends EvaluationStatus.evaluation_failed = (refl, refl, refl)

pub settle_evaluation-Advances :
    (st : Settings) (now : ℕ) (result : FinalCandidateEvaluation) (policy : String) (p : Pair)
    → is_stage3_running p.status ≡ true
    → Advances st p (settle_evaluation now result policy p)
unfolding settle_evaluation
settle_evaluation-Advances st now result policy p h =
    Advances-from st PairStatus.stage3_running p _ (status_of_is_stage3_running p.status h) refl
      refl refl refl refl (evaluation_path result.evaluation_status)
      (λ k. ground (arith, evaluation_ends result.evaluation_status))
