-- ===== src/Pipeline/Books.antt =====
-- The invariant of the synchronous pipeline's state, which relates its metrics and lists to its
-- outcomes.
use ai_cv_screening.Prelude.{
  ltb, ℕ, ◌+◌, Bool, true, false, ◌||◌, Option, none, some, List, [], ◌∷◌, ◌==◌, is_some, ok, any,
  count, length, map, All, ◌≡◌,
}
use ai_cv_screening.Prelude.Table.{find}
use ai_cv_screening.Rules.Engine.{}
use ai_cv_screening.Pipeline.Ledger.{
  Stage, Code, code_number, Item, Entry, entry_key, Metrics, Progress,
}
use ai_cv_screening.Pipeline.Run.{is_settled}
use ai_cv_screening.Pipeline.Accounting.{
  booked, is_code, is_stage_failure, is_stage_review, was_reviewed, check_metadata,
}

-- a test of the settled code and stage
abbrev pub Test : Type 0
Test = Code → Stage → Bool

abbrev pub tests : List Test
tests =
    is_code Code.success
    ∷ (is_code Code.evaluation_failed
        ∷ (is_code Code.filter_rejected
            ∷ (is_code Code.cutoff_excluded
                ∷ (is_stage_failure Stage.stage0
                    ∷ (is_stage_failure Stage.stage1
                        ∷ (is_stage_failure Stage.stage2
                            ∷ (is_stage_review Stage.stage0
                                ∷ (is_stage_review Stage.stage2
                                    ∷ (is_stage_review Stage.stage3 ∷ [])))))))))

-- the metric that keeps the count of each test
abbrev pub kept_counts : Metrics → List ℕ
kept_counts m =
    m.stage3_succeeded
    ∷ (m.stage3_failed
        ∷ (m.stage1_rejected
            ∷ (m.stage2_excluded
                ∷ (m.stage0_failed
                    ∷ (m.stage1_failed
                        ∷ (m.stage2_failed
                            ∷ (m.stage0_review_required
                                ∷ (m.stage2_review_required
                                    ∷ (m.stage3_review_required ∷ [])))))))))

abbrev pub sum : List ℕ → ℕ
sum [] = 0
sum (n ∷ ns) = n + sum ns

abbrev pub closed : Metrics → ℕ
closed m = sum (kept_counts m)

abbrev pub tallies : List Test → List Entry → List ℕ
tallies [] es = []
tallies (t ∷ ts) es = count (booked t) es ∷ tallies ts es

abbrev pub tick : Bool → ℕ → ℕ
tick true n = n + 1
tick false n = n

-- one more of each test that the code and the stage pass
abbrev pub ticks : Code → Stage → List Test → List ℕ → List ℕ
ticks code stage [] ns = ns
ticks code stage (t ∷ ts) [] = []
ticks code stage (t ∷ ts) (n ∷ ns) = tick (t code stage) n ∷ ticks code stage ts ns

abbrev pub is_of : ℕ → Item → Bool
is_of k item = item.candidate_id == k

abbrev pub listed_in : ℕ → Progress → Bool
listed_in k s =
    any (is_of k) s.leaderboard
    || (any (is_of k) s.review_candidates
        || (any (is_of k) s.rejected_candidates || any (is_of k) s.failed_candidates))

abbrev pub list_length : Progress → ℕ
list_length s =
    length s.leaderboard
    + (length s.review_candidates + (length s.rejected_candidates + length s.failed_candidates))

abbrev pub settled_opt : Option Entry → Bool
settled_opt none = false
settled_opt (some e) = is_settled e

abbrev pub settled_in : ℕ → List Entry → Bool
settled_in k es = settled_opt (find entry_key k es)

-- one of the seven codes that the code names
abbrev pub is_known : Code → Stage → Bool
is_known c s = ltb (code_number c) 7

abbrev pub has_name : Option Code → Bool
has_name none = true
has_name (some c) = ltb (code_number c) 7

abbrev pub Sound : Entry → Type 0
Sound e =
    (check_metadata e ≡ ok tt) × (is_some e.stage ≡ is_some e.outcome) × (has_name e.outcome ≡ true)

pub record Books (ids : List ℕ) (s : Progress) : Type 0 where
  pub keys : map entry_key s.outcomes ≡ ids
  pub total : s.metrics.total_input_candidates ≡ length ids
  pub tallied : tallies tests s.outcomes ≡ kept_counts s.metrics
  pub settled : count is_settled s.outcomes ≡ closed s.metrics
  pub listed : list_length s ≡ closed s.metrics
  pub reviews : count was_reviewed s.outcomes ≡ s.metrics.stage1_review_required
  pub published : (k : ℕ) → listed_in k s ≡ settled_in k s.outcomes
  pub sound : All Sound s.outcomes
