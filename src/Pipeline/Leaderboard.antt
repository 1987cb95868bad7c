-- ===== src/Pipeline/Leaderboard.antt =====
-- What the last loop of the synchronous pipeline (app/orchestrator.py) puts on the leaderboard.
use mathlib.Core.Bool.{false≢true}
use ai_cv_screening.Prelude.{
  String, Bool, true, false, Option, some, List, [], ◌∷◌, ◌++◌, map, if◌then◌else◌, Result, ok, err,
  Option-cases, ◌≡◌, refl, sym, ap, ◌∙◌, inl, inr,
}
use ai_cv_screening.Prelude.Table.{find}
use ai_cv_screening.Scoring.Schemas.{EvaluationStatus, FinalCandidateEvaluation}
use ai_cv_screening.Pipeline.Ledger.{Item, Progress}
use ai_cv_screening.Pipeline.Stages.{Survivor, survivor_key}
use ai_cv_screening.Pipeline.Run.{
  Judged, is_success, evaluation_item, list_result, file_result, take_result, result_loop,
}

abbrev pub evaluations : List Item → List (Option FinalCandidateEvaluation)
evaluations items = map (λ (i : Item). i.evaluation) items

abbrev pub successes : List Judged → List (Option FinalCandidateEvaluation)
successes [] = []
successes (r ∷ rs) =
    if is_success r.evaluation.evaluation_status
    then some r.evaluation ∷ successes rs
    else successes rs

append_nil : {A : Type 0} (xs : List A) → xs ++ [] ≡ xs
append_nil [] = refl
append_nil (x ∷ xs) = ap (λ ys. x ∷ ys) (append_nil xs)

append_one :
    {A : Type 0} (xs : List A) (y : A) (zs : List A) → (xs ++ (y ∷ [])) ++ zs ≡ xs ++ (y ∷ zs)
append_one [] y zs = refl
append_one (x ∷ xs) y zs = ap (λ ys. x ∷ ys) (append_one xs y zs)

evaluations-append :
    (xs : List Item) (i : Item)
    → evaluations (xs ++ (i ∷ [])) ≡ evaluations xs ++ (i.evaluation ∷ [])
evaluations-append [] i = refl
evaluations-append (x ∷ xs) i = ap (λ ys. x.evaluation ∷ ys) (evaluations-append xs i)

step :
    (st : EvaluationStatus) (item : Item) (s : Progress)
    (later : List (Option FinalCandidateEvaluation))
    → evaluations (list_result st item s).leaderboard ++ later
      ≡ evaluations s.leaderboard ++ (if is_success st then item.evaluation ∷ later else later)
step EvaluationStatus.success item s later =
    ap (λ xs. xs ++ later) (evaluations-append s.leaderboard item)
    ∙ append_one (evaluations s.leaderboard) item.evaluation later
step EvaluationStatus.review_required item s later = refl
step EvaluationStatus.evaluation_failed item s later = refl

value_or : Progress → Result Progress → Progress
value_or s (err e) = s
value_or s (ok t) = t

returns : Result Progress → Bool
returns (err e) = false
returns (ok t) = true

err_ok : {e : String} {t : Progress} → err e ≡ ok t → ⊥
unfolding returns
err_ok {e} {t} h = false≢true (ap returns h)

ok-injective : (s t : Progress) → ok s ≡ ok t → s ≡ t
unfolding value_or
ok-injective s t h = ap (value_or s) h

-- Where the last loop returns, it has put the evaluations that are a SUCCESS on the leaderboard, each
-- once and in the order in which it went through them, after what stood there; and no others.
pub result_loop-leaderboard :
    (survivors : List Survivor) (rs : List Judged) (s t : Progress)
    → result_loop survivors rs s ≡ ok t
    → evaluations t.leaderboard ≡ evaluations s.leaderboard ++ successes rs
unfolding result_loop
result_loop-leaderboard survivors [] s t h =
    ap (λ (p : Progress). evaluations p.leaderboard) (sym (ok-injective s t h))
    ∙ sym (append_nil (evaluations s.leaderboard))
result_loop-leaderboard survivors (r ∷ rs) s t h =
    elim (Option-cases (find survivor_key r.candidate_id survivors)) [
      | inl e ↦ absurd (err_ok (rw e at h))
      | inr (x, e) ↦
          result_loop-leaderboard survivors rs (take_result r x.filter_details s) t (rw e at h)
          ∙ step r.evaluation.evaluation_status (evaluation_item r x.filter_details)
              (file_result r (evaluation_item r x.filter_details) s) (successes rs)
    ]
