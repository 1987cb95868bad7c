-- ===== src/Pipeline/Run.antt =====
-- `run_end_to_end_screening_pipeline` of app/orchestrator.py: its third stage, `finish`, and the whole.
--
-- Candidates are numbers; `name k` is the identifier that the number `k` stands for. What reads a CV,
-- retrieves evidence and calls the language model is a parameter that may raise.
use ai_cv_screening.Prelude.{
  ℕ, ◌+◌, String, Bool, true, false, not, ◌&&◌, ◌||◌, Option, none, some, List, [], ◌∷◌, ◌++◌, leb,
  ◌==◌, if◌then◌else◌, is_some, Result, ok, err, ◌>>=◌, ◌>>◌, raise_if, filter, any, all, count,
  length, sort_by, map,
}
use ai_cv_screening.Prelude.Table.{find}
use ai_cv_screening.Rules.Contracts.{HardFilterRules, consistent_authorization}
use ai_cv_screening.Rules.Engine.{Details, Reading}
use ai_cv_screening.Scoring.Schemas.{EvaluationStatus, FinalCandidateEvaluation}
use ai_cv_screening.Scoring.Outcome.{failed_evaluation, evaluation_le}
use ai_cv_screening.Pipeline.Ledger.{
  Stage, Code, stage1_verification, Item, Entry, Metrics, new_metrics, Progress, event, log, settle,
  evaluated,
}
use ai_cv_screening.Pipeline.Stages.{
  Applicant, Survivor, survivor_key, filter_loop, Evidence, Retrieved, extract_loop,
  rank_and_filter_candidate_batch, fail_all, is_shortlisted_in, cut_loop,
}

-- an element of `final_evaluations`, with the number of its candidate
pub record Judged : Type 0 where
  pub candidate_id : ℕ
  pub evaluation : FinalCandidateEvaluation

abbrev pub judged_key : Judged → ℕ
judged_key x = x.candidate_id

abbrev pub judged : ℕ → FinalCandidateEvaluation → Judged
judged k e = record { candidate_id = k; evaluation = e }

-- `returned.get(k)`: of two results for one candidate the dict keeps the later
abbrev pub or_first : ℕ → Judged → Option Judged → Option Judged
or_first k x (some y) = some y
or_first k x none = if x.candidate_id == k then some x else none

abbrev pub last_of : ℕ → List Judged → Option Judged
last_of k [] = none
last_of k (x ∷ rest) = or_first k x (last_of k rest)

-- `returned.get(k) or failed_evaluation(k, ...)`
abbrev pub or_failed : (ℕ → String) → ℕ → Option Judged → Result Judged
or_failed name k (some x) = ok x
or_failed name k none = do
  e ←
      failed_evaluation (name k) "BATCH_EVALUATION_FAILED" "Evaluation did not return a result."
        false
  ok (judged k e)

-- one result for each of the shortlisted
unfoldable pub complete_evaluations :
    (ℕ → String) → List Judged → List Retrieved → Result (List Judged)
complete_evaluations name results [] = ok []
complete_evaluations name results (x ∷ rest) = do
  r ← or_failed name x.candidate_id (last_of x.candidate_id results)
  later ← complete_evaluations name results rest
  ok (r ∷ later)

abbrev pub results_of : Result (List Judged) → List Judged
results_of (err e) = []
results_of (ok rs) = rs

abbrev pub judged_le : Judged → Judged → Bool
judged_le a b = evaluation_le a.evaluation b.evaluation

abbrev pub outcome_of : EvaluationStatus → Code
outcome_of EvaluationStatus.success = Code.success
outcome_of EvaluationStatus.review_required = Code.review_required
outcome_of EvaluationStatus.evaluation_failed = Code.evaluation_failed

abbrev pub is_success : EvaluationStatus → Bool
is_success EvaluationStatus.success = true
is_success _ = false

abbrev pub evaluation_item : Judged → Details → Item
evaluation_item r d =
    let v = stage1_verification d in
    record {
      candidate_id = r.candidate_id;
      reason = none;
      verification = some v;
      provisional = some (is_success r.evaluation.evaluation_status && v.verification_required);
      evaluation = some r.evaluation;
    }

-- the three branches on the status of a result
abbrev pub list_result : EvaluationStatus → Item → Progress → Progress
list_result EvaluationStatus.success item s =
    let m = s.metrics in
    record s {
      metrics = record m { stage3_succeeded = m.stage3_succeeded + 1 };
      leaderboard = s.leaderboard ++ (item ∷ []);
    }
list_result EvaluationStatus.review_required item s =
    let m = s.metrics in
    record s {
      metrics = record m { stage3_review_required = m.stage3_review_required + 1 };
      review_candidates = s.review_candidates ++ (item ∷ []);
    }
list_result EvaluationStatus.evaluation_failed item s =
    let m = s.metrics in
    record s {
      metrics = record m { stage3_failed = m.stage3_failed + 1 };
      failed_candidates = s.failed_candidates ++ (item ∷ []);
    }

abbrev pub file_result : Judged → Item → Progress → Progress
file_result r item s =
    let status = r.evaluation.evaluation_status in
    record s {
      outcomes =
          log r.candidate_id (event Stage.stage3 (evaluated status))
            (settle r.candidate_id (outcome_of status) Stage.stage3 item s.outcomes);
    }

-- the body of the last loop, with the details of the candidate
abbrev pub take_result : Judged → Details → Progress → Progress
take_result r d s =
    let item = evaluation_item r d in
    list_result r.evaluation.evaluation_status item (file_result r item s)

-- the body of the last loop; a missing key of `stage1_details` raises
abbrev pub take_known : Judged → Option Survivor → Progress → Result Progress
take_known r none s = err "KeyError"
take_known r (some x) s = ok (take_result r x.filter_details s)

unfoldable pub result_loop : List Survivor → List Judged → Progress → Result Progress
result_loop survivors [] s = ok s
result_loop survivors (r ∷ rest) s = do
  filed ← take_known r (find survivor_key r.candidate_id survivors) s
  result_loop survivors rest filed

-- the response
pub record Report : Type 0 where
  pub metrics : Metrics
  pub leaderboard : List Item
  pub rejected_candidates : List Item
  pub review_candidates : List Item
  pub failed_candidates : List Item
  pub outcomes : List Entry

abbrev pub item_le : Item → Item → Bool
item_le a b = leb a.candidate_id b.candidate_id

abbrev pub is_settled : Entry → Bool
is_settled e = is_some e.outcome

abbrev pub report : Progress → Metrics → Report
report s m = record {
  metrics = m;
  leaderboard = s.leaderboard;
  rejected_candidates = sort_by item_le s.rejected_candidates;
  review_candidates = sort_by item_le s.review_candidates;
  failed_candidates = sort_by item_le s.failed_candidates;
  outcomes = s.outcomes;
}

unfoldable pub finish : ℕ → Progress → Result Report
finish n s =
    let m = s.metrics in
    let accounted = count is_settled s.outcomes in
    do
      raise_if (not (accounted == n)) "Candidate accounting is incomplete"
      ok (report s (record m { accounted_candidates = accounted }))

-- the settings that the pipeline reads
pub record Backend : Type 0 where
  pub is_production : Bool
  pub is_postgres : Bool

-- What is not code of the pipeline: the readings of the CVs, the retrieval, the language model.
pub record Services : Type 0 where
  pub name : ℕ → String
  pub read : ℕ → Result Reading
  pub extract : ℕ → Result Evidence
  pub evaluate : List Retrieved → Result (List Judged)

abbrev pub new_entry : ℕ → Entry
new_entry k = record {
  candidate_id = k;
  outcome = none;
  stage = none;
  stage_history = [];
  result_snapshot = none;
}

-- The keys of a dict that is built from `ks`. The dict's order is that of the first occurrences; here
-- it is that of the last ones, which is the same where they are distinct.
abbrev pub distinct : List ℕ → List ℕ
distinct [] = []
distinct (k ∷ ks) = if any (λ j. j == k) ks then distinct ks else k ∷ distinct ks

abbrev pub applicant_id : Applicant → ℕ
applicant_id a = a.candidate_id

abbrev pub start : List Applicant → Progress
start candidates = record {
  outcomes = map new_entry (distinct (map applicant_id candidates));
  metrics = new_metrics (length candidates);
  leaderboard = [];
  review_candidates = [];
  rejected_candidates = [];
  failed_candidates = [];
}

-- `CandidateInput.model_validate` of every candidate
abbrev pub validate_inputs : List Applicant → Result (Unit {0})
validate_inputs [] = ok tt
validate_inputs (a ∷ rest) = do valid ← consistent_authorization a.input; validate_inputs rest

abbrev pub retrieved_id : Retrieved → ℕ
retrieved_id x = x.candidate_id

-- the two checks on `selected_ids`
abbrev pub invalid_shortlist : List Retrieved → List Retrieved → Bool
invalid_shortlist payloads shortlisted =
    let ids = map retrieved_id shortlisted in
    not (length ids == length (distinct ids)) || not (all (is_shortlisted_in payloads) ids)

-- the `try` of the ranking
abbrev pub shortlist : ℕ → List Retrieved → Result (List Retrieved)
shortlist cutoff payloads = do
  shortlisted ← rank_and_filter_candidate_batch cutoff payloads
  raise_if (invalid_shortlist payloads shortlisted) "Invalid shortlist"
  ok shortlisted

-- `stage2_shortlisted` is set after the failures of a ranking that raised
abbrev pub count_shortlist : List Retrieved → Progress → Progress
count_shortlist shortlisted s =
    let m = s.metrics in record s { metrics = record m { stage2_shortlisted = length shortlisted } }

abbrev pub cut_batch :
    List Retrieved → Result (List Retrieved) → Progress → Progress × List Retrieved
cut_batch payloads (err e) s = (count_shortlist [] (fail_all payloads s), [])
cut_batch payloads (ok shortlisted) s =
    (cut_loop shortlisted payloads (count_shortlist shortlisted s), shortlisted)

abbrev pub count_evaluated : List Judged → Progress → Progress
count_evaluated rs s =
    let m = s.metrics in record s { metrics = record m { stage3_evaluated = length rs } }

-- the calls of stage 3, to the end
abbrev pub evaluate_shortlist :
    Services → List Survivor → List Retrieved → Progress → Result Progress
evaluate_shortlist services survivors shortlisted s = do
  let known = λ (r : Judged). is_shortlisted_in shortlisted r.candidate_id
  rs ←
      complete_evaluations services.name (filter known (results_of (services.evaluate shortlisted)))
        shortlisted
  result_loop survivors (sort_by judged_le rs) (count_evaluated rs s)

-- stages 2 and 3, for the survivors of the hard filters
unfoldable pub screen_survivors : Services → ℕ → List Survivor → Progress → Result Progress
screen_survivors services cutoff survivors s =
    let extracted = extract_loop services.extract survivors s in
    let cut = cut_batch extracted.1 (shortlist cutoff extracted.1) extracted.0 in
    evaluate_shortlist services survivors cut.1 cut.0

abbrev pub is_nonempty {ℓ} : {A : Type ℓ} → List A → Bool
is_nonempty [] = false
is_nonempty (x ∷ xs) = true

abbrev pub empty_report : ℕ → Report
empty_report n = report (start []) (new_metrics n)

-- what follows the first loop
abbrev pub finish_screening : Services → Backend → ℕ → ℕ → Progress × List Survivor → Result Report
finish_screening services backend cutoff n (s, []) = finish n s
finish_screening services backend cutoff n (s, x ∷ rest) = do
  raise_if (backend.is_production && not backend.is_postgres)
      "Production Stage 2 requires STAGE2_BACKEND=postgres"
  done ← screen_survivors services cutoff (x ∷ rest) s
  finish n done

-- `rules` is the result of `resolve_hard_filters`, `has_profile` is `bool(jd_profile)`. The early
-- response has no "outcomes"; `result.get("outcomes", [])` reads an empty list.
unfoldable pub run_end_to_end_screening_pipeline :
    Services → Backend → Result HardFilterRules → Bool → ℕ → List Applicant → Result Report
run_end_to_end_screening_pipeline services backend rules has_profile cutoff candidates = do
  resolved ← rules
  raise_if (not (leb 1 cutoff && leb cutoff 15)) "Stage 2 cutoff must be between 1 and 15"
  validate_inputs candidates
  if not (is_nonempty candidates) || not has_profile
      then ok (empty_report (length candidates))
      else finish_screening services backend cutoff (length candidates)
          (filter_loop resolved services.read candidates (start candidates))
