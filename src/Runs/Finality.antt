-- ===== src/Runs/Finality.antt =====
-- A completed run is final, unless a recovery that read it before writes it afterwards.
use ai_cv_screening.Prelude.{◌≡◌, Bool, true, false, List, [], ◌∷◌, All}
use ai_cv_screening.Campaign.Rows.{Settings}
use ai_cv_screening.Runs.{
  Run, is_completed, is_exhausted, is_postponed, was_selected, RunStep, interrupted, postponed,
  run_step,
}

-- once completed, a run keeps every field
abbrev pub IsFinal : Run → Run → Type 0
IsFinal r q = is_completed r.status ≡ true → q ≡ r

-- no completed run of the table is among those that a recovery writes
abbrev pub Spares : (Run → Bool) → List Run → Type 0
Spares writes runs = All (λ r. is_completed r.status ≡ true → writes r ≡ false) runs

abbrev pub IsUnraced : Settings → RunStep → List Run → Type 0
IsUnraced st (interrupted now seen) runs = Spares (was_selected (is_exhausted st now) seen) runs
IsUnraced st (postponed now seen got) runs = Spares (is_postponed st now seen got) runs
IsUnraced st _ runs = Unit {0}

-- so it is at every step
unfoldable pub AllUnraced : Settings → List RunStep → List Run → Type 0
AllUnraced st [] runs = Unit {0}
AllUnraced st (s ∷ steps) runs = IsUnraced st s runs × AllUnraced st steps (run_step st s runs)
