-- ===== src/Pipeline/Evaluate.antt =====
-- Lemmas on the results of the third stage of the synchronous pipeline, and the induction over its last
-- loop (app/orchestrator.py).
use mathlib.Core.Option.{some-injective, none-ne-some}
use ai_cv_screening.Prelude.{
  ℕ, ◌+◌, String, true, false, Option, none, some, List, [], ◌∷◌, ◌==◌, ok, length, All, Bool-cases,
  Option-cases, ==→eq, ◌≡◌, ◌≢◌, refl, sym, ap, ◌∙◌, inl, inr, arith,
}
use ai_cv_screening.Prelude.Table.{find, IsKeyed, All-both}
use ai_cv_screening.Rules.Engine.{Details}
use ai_cv_screening.Scoring.Schemas.{EvaluationStatus}
use ai_cv_screening.Scoring.Outcome.{failure}
use ai_cv_screening.Scoring.Outcome.Laws.{failed_evaluation_returns}
use ai_cv_screening.Pipeline.Ledger.{Item, Progress}
use ai_cv_screening.Pipeline.Stages.{Survivor, survivor_key, survivor, Retrieved}
use ai_cv_screening.Pipeline.Run.{
  Judged, judged, judged_key, last_of, or_first, or_failed, complete_evaluations, take_result,
  result_loop, list_result, file_result, evaluation_item,
}
use ai_cv_screening.Pipeline.Books.{Books}
use ai_cv_screening.Pipeline.Filing.{Pending, carry_Pending}
use ai_cv_screening.Pipeline.Moves.{take_result-Books, take_result-Touches}
use ai_cv_screening.Pipeline.Filter.{on_stage2, on_stage3}
use ai_cv_screening.Pipeline.Extract.{early}

last_of_key : (k : ℕ) (rs : List Judged) {r : Judged} → last_of k rs ≡ some r → r.candidate_id ≡ k
last_of_key k [] h = cc
last_of_key k (x ∷ rs) {r} h = or_first_key (last_of k rs) (λ e. last_of_key k rs e) h
  where
    or_first_key :
        (o : Option Judged)
        → (o ≡ some r → r.candidate_id ≡ k)
        → or_first k x o ≡ some r
        → r.candidate_id ≡ k
    or_first_key (some y) later e = later e
    or_first_key none later e = elim (Bool-cases (x.candidate_id == k)) [
      | inl t ↦
          ap (λ (j : Judged). j.candidate_id) (some-injective r x (sym e ∙ taken t))
          ∙ ==→eq x.candidate_id k t
      | inr f ↦ absurd (none-ne-some r (sym (dropped f) ∙ e))
    ]
      where
        taken : (x.candidate_id == k) ≡ true → or_first k x none ≡ some x
        taken t = rw t

        dropped : (x.candidate_id == k) ≡ false → or_first k x none ≡ none
        dropped f = rw f

-- one of the shortlisted gets a result of its own
or_failed_total :
    (name : ℕ → String) (k : ℕ) (rs : List Judged)
    → (r : Judged) × (or_failed name k (last_of k rs) ≡ ok r) × (r.candidate_id ≡ k)
or_failed_total name k rs = elim (Option-cases (last_of k rs)) [
  | inl e ↦
      let message : String = "Evaluation did not return a result." in
      let f = failure (name k) "BATCH_EVALUATION_FAILED" message false in
      let made =
        failed_evaluation_returns (name k) "BATCH_EVALUATION_FAILED" message false refl refl in
      (judged k f, rw (e, made), refl)
  | inr (r, e) ↦ (r, rw e, last_of_key k rs e)
]

-- the results are those of the shortlisted, in their order
abbrev pub Answers : List Retrieved → List Judged → Type 0
Answers [] [] = Unit
Answers [] (r ∷ rs) = ⊥
Answers (y ∷ ys) [] = ⊥
Answers (y ∷ ys) (r ∷ rs) = (r.candidate_id ≡ y.candidate_id) × Answers ys rs

pub complete_evaluations_total :
    (name : ℕ → String) (results : List Judged) (ys : List Retrieved)
    → (rs : List Judged) × (complete_evaluations name results ys ≡ ok rs) × Answers ys rs
unfolding complete_evaluations
complete_evaluations_total name results [] = ([], refl, tt)
complete_evaluations_total name results (y ∷ ys) =
    let (r, made, own) = or_failed_total name y.candidate_id results in
    let (rs, rest, answers) = complete_evaluations_total name results ys in
    (r ∷ rs, rw (made, rest), (own, answers))

-- a result that the last loop can file: its candidate's details are known and it is not settled
abbrev pub Fileable : List Survivor → Progress → Judged → Type 0
Fileable all s r =
    (d : Details) × (find survivor_key r.candidate_id all ≡ some (survivor r.candidate_id d))
    × Pending r.candidate_id d s.outcomes

-- the end of the last loop
pub record Filed (ids : List ℕ) (all : List Survivor) (rs : List Judged) (s : Progress)
    : Type 0 where
  pub last : Progress
  pub returned : result_loop all rs s ≡ ok last
  pub books : Books ids last
  pub same : early last.metrics ≡ early s.metrics
  pub second : on_stage2 last.metrics ≡ on_stage2 s.metrics
  pub third : on_stage3 last.metrics ≡ on_stage3 s.metrics + length rs

-- the metrics after one result
list_result_lem :
    (st : EvaluationStatus) (item : Item) (s : Progress)
    → (early (list_result st item s).metrics ≡ early s.metrics)
      × (on_stage2 (list_result st item s).metrics ≡ on_stage2 s.metrics)
      × (on_stage3 (list_result st item s).metrics ≡ on_stage3 s.metrics + 1)
list_result_lem EvaluationStatus.success item s = (refl, refl, omega arith)
list_result_lem EvaluationStatus.review_required item s = (refl, refl, omega arith)
list_result_lem EvaluationStatus.evaluation_failed item s = (refl, refl, omega arith)

pub result_loop-Filed :
    (ids : List ℕ) (all : List Survivor) (rs : List Judged) (s : Progress)
    → IsKeyed judged_key rs
    → All (Fileable all s) rs
    → Books ids s
    → Filed ids all rs s
unfolding result_loop
result_loop-Filed ids all [] s keyed fileable b = record {
  last = s;
  returned = refl;
  books = b;
  same = refl;
  second = refl;
  third = omega arith;
}
result_loop-Filed ids all (r ∷ rs) s keyed fileable b =
    let (d, known, waits) = fileable.0 in
    let t = take_result r d s in
    let touches = take_result-Touches r d s in
    let flow =
      list_result_lem r.evaluation.evaluation_status (evaluation_item r d)
        (file_result r (evaluation_item r d) s) in
    let later =
      result_loop-Filed ids all rs t keyed.1
        (All-both (λ (q : Judged). r.candidate_id ≢ q.candidate_id) (Fileable all s)
          (Fileable all t)
          (λ q ne f. (
            f.0,
            f.1,
            carry_Pending q.candidate_id f.0 s.outcomes t.outcomes (touches q.candidate_id ne) f.2,
          ))
          rs keyed.0 fileable.1)
        (take_result-Books ids r d s waits b) in
    record {
      last = later.last;
      returned = rw known later.returned;
      books = later.books;
      same = later.same ∙ flow.0;
      second = later.second ∙ flow.1;
      third = later.third ∙ ap (λ n. n + length rs) flow.2 ∙ omega arith;
    }
