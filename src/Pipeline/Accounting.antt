-- ===== src/Pipeline/Accounting.antt =====
-- `validate_accounting` of app/run_audit.py, which a response passes before it is stored.
use text.Mathlib.Text.{◌==◌ as str_eq}
use ai_cv_screening.Prelude.{
  ℕ, ◌+◌, Bool, true, false, not, ◌&&◌, ◌||◌, Option, none, some, List, [], ◌∷◌, ◌++◌, ◌==◌,
  if◌then◌else◌, is_some, Result, ok, err, ◌>>◌, raise_if, filter, any, all, count, length, map,
}
use ai_cv_screening.Rules.Engine.{Decision, Check, Details, is_review}
use ai_cv_screening.Pipeline.Ledger.{
  Stage, Code, EventStatus, Event, Verification, Item, Entry, stage_number, code_number, decided,
}
use ai_cv_screening.Pipeline.Run.{Report, distinct}

abbrev pub same_stage : Stage → Stage → Bool
same_stage a b = stage_number a == stage_number b

abbrev pub same_code : Code → Code → Bool
same_code a b = code_number a == code_number b

-- a test of `item["outcome"]` and `item["stage"]`, false where one is absent
abbrev pub booked : (Code → Stage → Bool) → Entry → Bool
booked p e = elim e.outcome [
  | none ↦ false
  | some c ↦ elim e.stage [ none ↦ false | some s ↦ p c s ]
]

abbrev pub is_code : Code → Code → Stage → Bool
is_code name c s = same_code c name

-- the tests of the sums over stages
abbrev pub is_stage_failure : Stage → Code → Stage → Bool
is_stage_failure stage c s =
    same_stage s stage && (same_code c Code.extraction_failed || same_code c Code.processing_failed)

abbrev pub is_stage_review : Stage → Code → Stage → Bool
is_stage_review stage c s = same_stage s stage && same_code c Code.review_required

abbrev pub is_review_status : EventStatus → Bool
is_review_status (decided Decision.review) = true
is_review_status _ = false

abbrev pub is_review_event : Event → Bool
is_review_event v = same_stage v.stage Stage.stage1 && is_review_status v.status

abbrev pub was_reviewed : Entry → Bool
was_reviewed e = any is_review_event e.stage_history

-- the details of an event that `event["stage"] == "STAGE1" and "details" in event` selects
abbrev pub own_details : Event → Option Details
own_details v = if same_stage v.stage Stage.stage1 then v.details else none

abbrev pub or_else : Option Details → Option Details → Option Details
or_else none later = later
or_else (some d) later = some d

-- `next((event["details"] for event in history if ...), None)`
abbrev pub first_details : List Event → Option Details
first_details [] = none
first_details (v ∷ rest) = or_else (own_details v) (first_details rest)

-- The comparisons of dicts by `==`.
abbrev pub same_decision : Decision → Decision → Bool
same_decision Decision.pass Decision.pass = true
same_decision Decision.review Decision.review = true
same_decision Decision.fail Decision.fail = true
same_decision _ _ = false

abbrev pub same_check : Check → Check → Bool
same_check a b = str_eq a.rule b.rule && (same_decision a.status b.status && str_eq a.code b.code)

abbrev pub same_checks : List Check → List Check → Bool
same_checks [] [] = true
same_checks [] (b ∷ bs) = false
same_checks (a ∷ xs) [] = false
same_checks (a ∷ xs) (b ∷ ys) = same_check a b && same_checks xs ys

abbrev pub same_details : Details → Details → Bool
same_details a b = same_decision a.status b.status && same_checks a.checks b.checks

abbrev pub same_bool : Bool → Bool → Bool
same_bool true b = b
same_bool false b = not b

abbrev pub some_check : List Check → Bool
some_check reasons = any (λ c. true) reasons

-- whether the metadata of the decision are those of the details
abbrev pub carries : Details → Option Verification → Bool
carries d none = false
carries d (some v) =
    let reasons = filter is_review d.checks in
    same_details v.stage1_filter_details d
    && (same_checks v.verification_reasons reasons
        && same_bool v.verification_required (some_check reasons))

abbrev pub is_provisional : Bool → Option Bool → Bool
is_provisional expected none = false
is_provisional expected (some b) = same_bool b expected

-- the body of the loop over the outcomes, for one that has details, a stage and a snapshot
abbrev pub check_decision : Details → Code → Stage → Item → Result (Unit {0})
check_decision d code stage item = do
  raise_if (not (carries d item.verification)) "Stage 1 verification metadata does not reconcile"
  raise_if
      (same_stage stage Stage.stage3
        && not (
            is_provisional (same_code code Code.success && some_check (filter is_review d.checks))
              item.provisional))
      "Provisional outcome does not reconcile"
  ok tt

abbrev pub is_decided_stage : Stage → Bool
is_decided_stage s = same_stage s Stage.stage2 || same_stage s Stage.stage3

-- the loop's body; an absent snapshot is the empty dict, which has none of the keys
abbrev pub check_snapshot : Details → Code → Stage → Option Item → Result (Unit {0})
check_snapshot d code stage none = err "Stage 1 verification metadata does not reconcile"
check_snapshot d code stage (some item) = check_decision d code stage item

abbrev pub check_staged : Details → Option Code → Option Stage → Option Item → Result (Unit {0})
check_staged d (some code) (some stage) snapshot =
    if is_decided_stage stage then check_snapshot d code stage snapshot else ok tt
check_staged d _ _ snapshot = ok tt

abbrev pub check_found : Option Details → Entry → Result (Unit {0})
check_found none e = ok tt
check_found (some d) e = check_staged d e.outcome e.stage e.result_snapshot

abbrev pub check_metadata : Entry → Result (Unit {0})
check_metadata e = check_found (first_details e.stage_history) e

abbrev pub check_all : List Entry → Result (Unit {0})
check_all [] = ok tt
check_all (e ∷ rest) = check_metadata e >> check_all rest

abbrev pub is_incomplete : Entry → Bool
is_incomplete e = not (is_some e.outcome) || not (is_some e.stage)

abbrev pub member : List ℕ → ℕ → Bool
member xs k = any (λ j. j == k) xs

-- `set(xs) != set(ys)`
abbrev pub different_sets : List ℕ → List ℕ → Bool
different_sets xs ys = not (all (member ys) xs) || not (all (member xs) ys)

abbrev pub entry_id : Entry → ℕ
entry_id e = e.candidate_id

abbrev pub item_id : Item → ℕ
item_id i = i.candidate_id

abbrev pub public_items : Report → List Item
public_items r =
    r.leaderboard ++ (r.review_candidates ++ (r.rejected_candidates ++ r.failed_candidates))

abbrev pub counted : (Code → Stage → Bool) → Report → ℕ
counted p r = count (booked p) r.outcomes

abbrev pub with_code : Code → List Entry → ℕ
with_code c es = count (booked (is_code c)) es

-- `sum(counts.values())`
abbrev pub count_codes : List Entry → ℕ
count_codes es =
    with_code Code.success es
    + (with_code Code.review_required es
        + (with_code Code.evaluation_failed es
            + (with_code Code.filter_rejected es
                + (with_code Code.cutoff_excluded es
                    + (with_code Code.extraction_failed es
                        + with_code Code.processing_failed es)))))

infix 50 ◌=/=◌
abbrev pub ◌=/=◌ : ℕ → ℕ → Bool
a =/= b = not (a == b)

-- the checks of the identifiers, the lists and the completeness of the outcomes
unfoldable pub check_lists : Report → List ℕ → Result (Unit {0})
check_lists r ids =
    let expected = distinct ids in
    do
      raise_if (length expected =/= length ids || length r.outcomes =/= length expected)
          "Candidate outcomes do not match the input batch"
      raise_if (different_sets (map entry_id r.outcomes) expected)
          "Candidate outcomes do not match the input batch"
      raise_if
          (length (public_items r) =/= length expected
            || different_sets (map item_id (public_items r)) expected)
          "Candidate response lists do not reconcile"
      raise_if (any is_incomplete r.outcomes) "Candidate outcome is incomplete"

-- the checks of the counts, up to the loop over the metadata
unfoldable pub check_counts : Report → ℕ → Result (Unit {0})
check_counts r n =
    let m = r.metrics in
    do
      raise_if (m.total_input_candidates =/= n) "Input metric does not match candidate outcomes"
      raise_if (count_codes r.outcomes =/= n) "Outcome counts do not reconcile"
      raise_if
          (m.stage3_succeeded =/= with_code Code.success r.outcomes
            || m.stage3_failed =/= with_code Code.evaluation_failed r.outcomes)
          "Stage 3 metrics do not reconcile"
      raise_if (counted (is_stage_failure Stage.stage0) r =/= m.stage0_failed)
          "STAGE0 failure metric does not reconcile"
      raise_if (counted (is_stage_failure Stage.stage1) r =/= m.stage1_failed)
          "STAGE1 failure metric does not reconcile"
      raise_if (counted (is_stage_failure Stage.stage2) r =/= m.stage2_failed)
          "STAGE2 failure metric does not reconcile"
      raise_if (m.stage1_review_required =/= count was_reviewed r.outcomes)
          "Stage 1 review metric does not reconcile"

-- the checks of the metrics, after that loop
unfoldable pub check_metrics : Report → ℕ → Result (Unit {0})
check_metrics r n =
    let m = r.metrics in
    do
      raise_if (m.stage3_review_required =/= counted (is_stage_review Stage.stage3) r)
          "Stage 3 review metric does not reconcile"
      raise_if
          (m.stage1_rejected =/= with_code Code.filter_rejected r.outcomes
            || m.stage2_excluded =/= with_code Code.cutoff_excluded r.outcomes)
          "Stage 1/2 metrics do not reconcile"
      raise_if (m.accounted_candidates =/= n) "Accounted metric does not reconcile"
      raise_if (m.stage0_processed + m.stage0_failed + m.stage0_review_required =/= n)
          "Stage 0 metrics do not reconcile"
      raise_if (m.stage0_review_required =/= counted (is_stage_review Stage.stage0) r)
          "Stage 0 review metric does not reconcile"
      raise_if
          (m.stage1_passed + m.stage1_rejected + m.stage1_review_required + m.stage1_failed
            =/= m.stage0_processed)
          "Stage 1 metrics do not reconcile"
      raise_if (m.stage2_review_required =/= counted (is_stage_review Stage.stage2) r)
          "Stage 2 review metric does not reconcile"
      raise_if
          (m.stage2_shortlisted + m.stage2_excluded + m.stage2_failed + m.stage2_review_required
            =/= m.stage1_passed + m.stage1_review_required)
          "Stage 2 metrics do not reconcile"
      raise_if
          (m.stage3_succeeded + m.stage3_review_required + m.stage3_failed =/= m.stage3_evaluated
            || m.stage3_evaluated =/= m.stage2_shortlisted)
          "Stage 3 metrics do not reconcile"

unfoldable pub validate_accounting : Report → List ℕ → Result (Unit {0})
validate_accounting r ids =
    let n = length (distinct ids) in
    do check_lists r ids; check_counts r n; check_all r.outcomes; check_metrics r n
