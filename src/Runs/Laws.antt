-- ===== src/Runs/Laws.antt =====
-- What every sequence of transactions keeps of every screening run.
use ai_cv_screening.Prelude.{
  ℕ, ◌≤◌, ◌≡◌, refl, ◌∙◌, String, Bool, true, false, not, ◌&&◌, none, some, List, [], ◌∷◌, arith,
  inl, inr, Bool-cases, is_some, leb, opt_eq,
}
use ai_cv_screening.Prelude.Table.{
  Pointwise, Pointwise-refl, Pointwise-trans, Pointwise-update, Pointwise-update_where,
}
use ai_cv_screening.Campaign.Rows.{Settings}
use ai_cv_screening.Runs.{
  Run, run_key, is_completed, is_ended, is_running_run, is_leased, is_exhausted, is_postponed,
  was_selected, claim_run, finish_run, fail_run, interrupt, postpone, fail_exhausted,
  postpone_queued, RunStep, claimed, finished, run_failed, interrupted, postponed, run_step,
  run_steps,
}

-- a run that has ended with a response: its request is erased and nobody owns it
abbrev pub IsDone : Run → Type 0
IsDone r =
    (is_ended r.status ≡ true)
    × (r.request_snapshot ≡ none)
    × (is_some r.response_snapshot ≡ true)
    × (r.lease_owner ≡ none)

-- what a run that is done keeps
abbrev pub StaysDone : Run → Run → Type 0
StaysDone r q =
    IsDone q
    × (q.response_snapshot ≡ r.response_snapshot)
    × (q.metrics ≡ r.metrics)
    × (q.attempt_count ≡ r.attempt_count)

-- A run keeps its key, counts attempts upwards within the limit, is completed only with a response and
-- without its request, and then keeps its response.
pub record RunAdvances (st : Settings) (r q : Run) : Type 0 where
  pub same_id : q.id ≡ r.id
  pub counts_up : r.attempt_count ≤ q.attempt_count
  pub capped : r.attempt_count ≤ st.run_max_attempts → q.attempt_count ≤ st.run_max_attempts
  pub published : is_completed r.status ≡ false → is_completed q.status ≡ true → IsDone q
  pub done : IsDone r → StaysDone r q

RunAdvances-refl : (st : Settings) (r : Run) → RunAdvances st r r
RunAdvances-refl st r = record {
  same_id = refl;
  counts_up = omega arith;
  capped = λ h. h;
  published = λ h k. cc;
  done = λ d. (d, refl, refl, refl);
}

StaysDone-trans : (a b c : Run) → StaysDone a b → StaysDone b c → StaysDone a c
StaysDone-trans a b c h k = (k.0, k.1 ∙ h.1, k.2 ∙ h.2, k.3 ∙ h.3)

RunAdvances-trans :
    (st : Settings) (a b c : Run) → RunAdvances st a b → RunAdvances st b c → RunAdvances st a c
RunAdvances-trans st a b c h k = record {
  same_id = k.same_id ∙ h.same_id;
  counts_up = omega (arith, h.counts_up, k.counts_up);
  capped = λ t. k.capped (h.capped t);
  published = λ t u. elim (Bool-cases (is_completed b.status)) [
    | inl e ↦ (k.done (h.published t e)).0
    | inr e ↦ k.published e u
  ];
  done = λ d. let first = h.done d in StaysDone-trans a b c first (k.done first.0);
}

-- a write to a run that is not completed
RunAdvances-from :
    (st : Settings) (r q : Run)
    → is_completed r.status ≡ false
    → q.id ≡ r.id
    → r.attempt_count ≤ q.attempt_count
    → (r.attempt_count ≤ st.run_max_attempts → q.attempt_count ≤ st.run_max_attempts)
    → (is_completed q.status ≡ true → IsDone q)
    → (IsDone r → StaysDone r q)
    → RunAdvances st r q
RunAdvances-from st r q unfinished same up cap shown kept = record {
  same_id = same;
  counts_up = up;
  capped = cap;
  published = λ t u. shown u;
  done = kept;
}

claim_run-RunAdvances :
    (st : Settings) (now owner : ℕ) (r : Run) → RunAdvances st r (claim_run st now owner r).0
unfolding claim_run
claim_run-RunAdvances st now owner r = elim (Bool-cases (is_completed r.status)) [
  | inl e ↦ rw e (RunAdvances-refl st r)
  | inr e ↦ rw e (elim (Bool-cases (is_running_run r.status && is_leased now r.lease_until)) [
    | inl l ↦ rw l (RunAdvances-refl st r)
    | inr l ↦ rw l (elim (Bool-cases (is_some r.request_snapshot)) [
      | inr s ↦ rw s (RunAdvances-refl st r)
      | inl s ↦ rw s (elim (Bool-cases (leb st.run_max_attempts r.attempt_count)) [
        | inl m ↦ rw m (
            RunAdvances-from st r _ e refl (omega arith) (λ h. h) (λ h. cc)
              (λ d. ground (arith, d)))
        | inr m ↦ rw m (
            RunAdvances-from st r _ e refl (omega arith) (λ h. ground arith) (λ h. cc)
              (λ d. ground (arith, d)))
      ])
    ])
  ])
]

finish_run-RunAdvances :
    (st : Settings) (owner : ℕ) (accounted : Bool) (response metrics : String) (r : Run)
    → RunAdvances st r (finish_run owner accounted response metrics r).0
unfolding finish_run
finish_run-RunAdvances st owner accounted response metrics r =
    elim (Bool-cases (is_completed r.status)) [
      | inl e ↦ rw e (RunAdvances-refl st r)
      | inr e ↦
          rw e (elim (Bool-cases (is_running_run r.status && opt_eq r.lease_owner (some owner))) [
            | inr l ↦ rw l (RunAdvances-refl st r)
            | inl l ↦ rw l (elim (Bool-cases accounted) [
              | inr s ↦ rw s (RunAdvances-refl st r)
              | inl s ↦ rw s (
                  RunAdvances-from st r _ e refl (omega arith) (λ h. h)
                    (λ h. (refl, refl, refl, refl)) (λ d. ground (arith, d)))
            ])
          ])
    ]

fail_run-RunAdvances :
    (st : Settings) (owner : ℕ) (code : String) (final : Bool) (r : Run)
    → RunAdvances st r (fail_run owner code final r)
unfolding fail_run
fail_run-RunAdvances st owner code final r =
    elim (Bool-cases (not (is_completed r.status) && opt_eq r.lease_owner (some owner))) [
      | inr e ↦ rw e (RunAdvances-refl st r)
      | inl e ↦
          let unfinished : is_completed r.status ≡ false = ground arith in
          rw e (elim (Bool-cases final) [
            | inl f ↦ rw f (
                RunAdvances-from st r _ unfinished refl (omega arith) (λ h. h) (λ h. cc)
                  (λ d. ground (arith, d)))
            | inr f ↦ rw f (
                RunAdvances-from st r _ unfinished refl (omega arith) (λ h. h) (λ h. cc)
                  (λ d. ground (arith, d)))
          ])
    ]

interrupt-RunAdvances : (st : Settings) (r : Run) → RunAdvances st r (interrupt r)
interrupt-RunAdvances st r = record {
  same_id = refl;
  counts_up = omega arith;
  capped = λ h. h;
  published = λ t u. cc;
  done = λ d. ((refl, d.1, d.2, refl), refl, refl, refl);
}

postpone-RunAdvances : (st : Settings) (now : ℕ) (r : Run) → RunAdvances st r (postpone st now r)
postpone-RunAdvances st now r = record {
  same_id = refl;
  counts_up = omega arith;
  capped = λ h. h;
  published = λ t u. cc;
  done = λ d. (d, refl, refl, refl);
}

-- the table, run by run
abbrev pub AllRunsAdvance : Settings → List Run → List Run → Type 0
AllRunsAdvance st = Pointwise (RunAdvances st)

run_step-AllRunsAdvance :
    (st : Settings) (s : RunStep) (runs : List Run) → AllRunsAdvance st runs (run_step st s runs)
unfolding run_step fail_exhausted postpone_queued
run_step-AllRunsAdvance st (claimed id now owner) runs =
    Pointwise-update run_key (RunAdvances st) id _ (RunAdvances-refl st) runs
      (λ a e. claim_run-RunAdvances st now owner a)
run_step-AllRunsAdvance st (finished id owner accounted response metrics) runs =
    Pointwise-update run_key (RunAdvances st) id _ (RunAdvances-refl st) runs
      (λ a e. finish_run-RunAdvances st owner accounted response metrics a)
run_step-AllRunsAdvance st (run_failed id owner code final) runs =
    Pointwise-update run_key (RunAdvances st) id _ (RunAdvances-refl st) runs
      (λ a e. fail_run-RunAdvances st owner code final a)
run_step-AllRunsAdvance st (interrupted now seen) runs =
    Pointwise-update_where (RunAdvances st) (was_selected (is_exhausted st now) seen) interrupt
      (RunAdvances-refl st) (λ a e. interrupt-RunAdvances st a) runs
run_step-AllRunsAdvance st (postponed now seen got) runs =
    Pointwise-update_where (RunAdvances st) (is_postponed st now seen got) (postpone st now)
      (RunAdvances-refl st) (λ a e. postpone-RunAdvances st now a) runs

-- Any sequence of claims, completions, failures and writes of recoveries, whatever tables the
-- recoveries saw when they read, keeps the key of every run and never lowers the number of attempts of
-- a run nor raises it above RUN_MAX_ATTEMPTS. A run that it completes has then ended, with a response,
-- with its request erased and with no owner; and a run that has so ended stays so, with the same
-- response, metrics and number of attempts.
pub run_steps-AllRunsAdvance :
    (st : Settings) (steps : List RunStep) (runs : List Run)
    → AllRunsAdvance st runs (run_steps st steps runs)
unfolding run_steps
run_steps-AllRunsAdvance st [] runs = Pointwise-refl (RunAdvances st) (RunAdvances-refl st) runs
run_steps-AllRunsAdvance st (s ∷ steps) runs =
    let next = run_step st s runs in
    Pointwise-trans (RunAdvances st) (RunAdvances-trans st) runs next (run_steps st steps next)
      (run_step-AllRunsAdvance st s runs) (run_steps-AllRunsAdvance st steps next)
