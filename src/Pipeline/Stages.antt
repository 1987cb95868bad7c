-- ===== src/Pipeline/Stages.antt =====
-- The loops of `run_end_to_end_screening_pipeline` of app/orchestrator.py, over a candidate, a survivor
-- of the hard filters, or an evaluation.
use text.Mathlib.Text.{◌==◌ as str_eq}
use ai_cv_screening.Prelude.{
  ℕ, ◌+◌, String, Bool, false, not, ◌&&◌, ◌||◌, Option, none, some, List, [], ◌∷◌, ◌++◌, leb, ◌==◌,
  if◌then◌else◌, is_some, Result, ok, err, ◌>>◌, raise_if, filter, any, take, sort_by,
}
use ai_cv_screening.Rules.Contracts.{HardFilterRules, CandidateInput, rule_facts}
use ai_cv_screening.Rules.Engine.{
  Decision, Details, Reading, pass, review, fail, evaluate_stage1_hard_filters,
}
use ai_cv_screening.Scoring.Outcome.{}
use ai_cv_screening.Campaign.Cutoff.{
  Payload, result_le, candidate_sort_key, eligible, scoring_version, max_candidates_per_jd,
  review_code,
}
use ai_cv_screening.Pipeline.Ledger.{
  Stage, Code, EventStatus, Event, stage1_verification, Item, Progress, event, log, settle,
  processed, extracted, excluded, held, decided,
}

pub record Applicant : Type 0 where
  pub candidate_id : ℕ
  pub input : CandidateInput

pub record Survivor : Type 0 where
  pub candidate_id : ℕ
  pub filter_details : Details

abbrev pub survivor_key : Survivor → ℕ
survivor_key x = x.candidate_id

abbrev pub plain_item : ℕ → String → Item
plain_item k reason = record {
  candidate_id = k;
  reason = some reason;
  verification = none;
  provisional = none;
  evaluation = none;
}

abbrev pub verified_item : ℕ → String → Details → Item
verified_item k reason d = record (plain_item k reason) {
  verification = some (stage1_verification d);
}

-- the stage 0 part of the first loop
abbrev pub process_text : ℕ → Progress → Progress
process_text k s =
    let m = s.metrics in
    record s {
      outcomes = log k (event Stage.stage0 processed) s.outcomes;
      metrics = record m { stage0_processed = m.stage0_processed + 1 };
    }

-- the handler of `RULE_EVALUATION_FAILED`
abbrev pub fail_rules : ℕ → Progress → Progress
fail_rules k s =
    let m = s.metrics in
    let item = plain_item k "RULE_EVALUATION_FAILED" in
    record s {
      outcomes =
          log k (event Stage.stage1 EventStatus.failed)
            (settle k Code.processing_failed Stage.stage1 item s.outcomes);
      metrics = record m { stage1_failed = m.stage1_failed + 1 };
      failed_candidates = s.failed_candidates ++ (item ∷ []);
    }

abbrev pub decision_event : Details → Event
decision_event d = record { stage = Stage.stage1; status = decided d.status; details = some d }

abbrev pub log_decision : ℕ → Details → Progress → Progress
log_decision k d s = record s { outcomes = log k (decision_event d) s.outcomes }

abbrev pub reject : ℕ → Progress → Progress
reject k s =
    let m = s.metrics in
    let item = plain_item k "FAILED_STAGE1_FILTERS" in
    record s {
      outcomes = settle k Code.filter_rejected Stage.stage1 item s.outcomes;
      metrics = record m { stage1_rejected = m.stage1_rejected + 1 };
      rejected_candidates = s.rejected_candidates ++ (item ∷ []);
    }

abbrev pub count_pass : Progress → Progress
count_pass s =
    let m = s.metrics in record s { metrics = record m { stage1_passed = m.stage1_passed + 1 } }

abbrev pub count_review : Progress → Progress
count_review s =
    let m = s.metrics in
    record s { metrics = record m { stage1_review_required = m.stage1_review_required + 1 } }

abbrev pub survivor : ℕ → Details → Survivor
survivor k d = record { candidate_id = k; filter_details = d }

-- the two branches on `filter_result["status"]`
abbrev pub decide : ℕ → Details → Decision → Progress → Progress × Option Survivor
decide k d pass s = (count_pass s, some (survivor k d))
decide k d review s = (count_review s, some (survivor k d))
decide k d fail s = (reject k s, none)

-- the `try` and what follows it; the argument is what is read from the CV
abbrev pub apply_rules :
    HardFilterRules → Applicant → Result Reading → Progress → Progress × Option Survivor
apply_rules rules a (err e) s = (fail_rules a.candidate_id s, none)
apply_rules rules a (ok cv) s =
    let d = evaluate_stage1_hard_filters rules (rule_facts a.input) cv in
    decide a.candidate_id d d.status (log_decision a.candidate_id d s)

abbrev pub keep {ℓ} : {A : Type ℓ} → Option A → List A → List A
keep none xs = xs
keep (some x) xs = x ∷ xs

-- The first loop, with the survivors in order. `read k` is what is read from the CV of `k`.
unfoldable pub filter_loop :
    HardFilterRules → (ℕ → Result Reading) → List Applicant → Progress → Progress × List Survivor
filter_loop rules read [] s = (s, [])
filter_loop rules read (a ∷ rest) s =
    let r = apply_rules rules a (read a.candidate_id) (process_text a.candidate_id s) in
    let later = filter_loop rules read rest r.0 in (later.0, keep r.1 later.1)

-- The retrieval's dict: what the ranking reads of it, and `relevance_review_required`.
pub record Evidence : Type 0 where
  pub payload : Payload
  pub relevance_review_required : Bool

-- an element of `stage2_payloads`
pub record Retrieved : Type 0 where
  pub candidate_id : ℕ
  pub evidence : Evidence
  pub filter_details : Details

abbrev pub retrieved_key : Retrieved → ℕ
retrieved_key x = x.candidate_id

-- a failure of stage 2, with its reason
abbrev pub fail_stage2 : ℕ → Code → String → Details → Progress → Progress
fail_stage2 k code reason d s =
    let m = s.metrics in
    let item = verified_item k reason d in
    record s {
      outcomes =
          log k (event Stage.stage2 EventStatus.failed)
            (settle k code Stage.stage2 item s.outcomes);
      metrics = record m { stage2_failed = m.stage2_failed + 1 };
      failed_candidates = s.failed_candidates ++ (item ∷ []);
    }

abbrev pub log_extracted : ℕ → Progress → Progress
log_extracted k s = record s { outcomes = log k (event Stage.stage2 extracted) s.outcomes }

abbrev pub fail_extraction : Survivor → Progress → Progress
fail_extraction x s =
    fail_stage2 x.candidate_id Code.extraction_failed "EVIDENCE_EXTRACTION_FAILED" x.filter_details
      s

abbrev pub retrieved : Survivor → Evidence → Retrieved
retrieved x v = record {
  candidate_id = x.candidate_id;
  evidence = v;
  filter_details = x.filter_details;
}

-- the body of the loop over the survivors, by what the extractor returned
abbrev pub take_evidence : Survivor → Result Evidence → Progress → Progress × Option Retrieved
take_evidence x (err e) s = (fail_extraction x s, none)
take_evidence x (ok v) s =
    if v.payload.candidate_id == x.candidate_id
    then (log_extracted x.candidate_id s, some (retrieved x v))
    else (fail_extraction x s, none)

unfoldable pub extract_loop :
    (ℕ → Result Evidence) → List Survivor → Progress → Progress × List Retrieved
extract_loop extract [] s = (s, [])
extract_loop extract (x ∷ rest) s =
    let r = take_evidence x (extract x.candidate_id) s in
    let later = extract_loop extract rest r.0 in (later.0, keep r.1 later.1)

abbrev pub retrieved_le : Retrieved → Retrieved → Bool
retrieved_le a b =
    result_le (candidate_sort_key a.evidence.payload) (candidate_sort_key b.evidence.payload)

abbrev pub unsortable : Retrieved → Bool
unsortable x = not (is_some x.evidence.payload.composite_score)

abbrev pub ranked : ℕ → List Retrieved → List Retrieved
ranked cutoff xs =
    take cutoff (filter (λ (x : Retrieved). eligible x.evidence.payload) (sort_by retrieved_le xs))

-- `rank_and_filter_candidate_batch` of app/stage2_retrieval/evidence_extractor.py
unfoldable pub rank_and_filter_candidate_batch : ℕ → List Retrieved → Result (List Retrieved)
rank_and_filter_candidate_batch cutoff xs = do
  raise_if (not (leb 1 cutoff && leb cutoff max_candidates_per_jd))
      "Stage 2 cutoff must be between 1 and 15"
  raise_if (any unsortable xs) "Invalid candidate coverage score"
  ok (ranked cutoff xs)

abbrev pub fail_ranking : Retrieved → Progress → Progress
fail_ranking x s =
    fail_stage2 x.candidate_id Code.processing_failed "RANKING_FAILED" x.filter_details s

-- the handler of a ranking that raised
unfoldable pub fail_all : List Retrieved → Progress → Progress
fail_all [] s = s
fail_all (x ∷ rest) s = fail_all rest (fail_ranking x s)

abbrev current : Option String → Bool
current none = false
current (some v) = str_eq v scoring_version

abbrev pub hold_relevance : Retrieved → Progress → Progress
hold_relevance x s =
    let m = s.metrics in
    let item =
      verified_item x.candidate_id (review_code x.evidence.payload.relevance_reason)
        x.filter_details in
    record s {
      outcomes =
          log x.candidate_id (event Stage.stage2 held)
            (settle x.candidate_id Code.review_required Stage.stage2 item s.outcomes);
      metrics = record m { stage2_review_required = m.stage2_review_required + 1 };
      review_candidates = s.review_candidates ++ (item ∷ []);
    }

abbrev pub exclude : Retrieved → Progress → Progress
exclude x s =
    let m = s.metrics in
    let item = verified_item x.candidate_id "CUTOFF_EXCLUDED" x.filter_details in
    record s {
      outcomes =
          log x.candidate_id (event Stage.stage2 excluded)
            (settle x.candidate_id Code.cutoff_excluded Stage.stage2 item s.outcomes);
      metrics = record m { stage2_excluded = m.stage2_excluded + 1 };
      rejected_candidates = s.rejected_candidates ++ (item ∷ []);
    }

abbrev pub wants_review : Retrieved → Bool
wants_review x =
    x.evidence.relevance_review_required || not (current x.evidence.payload.scoring_version)

abbrev pub is_shortlisted_in : List Retrieved → ℕ → Bool
is_shortlisted_in shortlisted k = any (λ (y : Retrieved). y.candidate_id == k) shortlisted

abbrev pub cut_one : List Retrieved → Retrieved → Progress → Progress
cut_one shortlisted x s =
    if is_shortlisted_in shortlisted x.candidate_id
    then s
    else if wants_review x
    then hold_relevance x s
    else exclude x s

unfoldable pub cut_loop : List Retrieved → List Retrieved → Progress → Progress
cut_loop shortlisted [] s = s
cut_loop shortlisted (x ∷ rest) s = cut_loop shortlisted rest (cut_one shortlisted x s)
