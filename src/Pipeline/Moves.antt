-- ===== src/Pipeline/Moves.antt =====
-- Lemmas on the changes that the loops of the synchronous pipeline (app/orchestrator.py) make, each for
-- one candidate.
use ai_cv_screening.Prelude.{
  true, ℕ, ◌+◌, String, Option, none, some, List, [], ok, filter, ◌≡◌, refl, sym, ap, ◌∙◌, arith,
}
use ai_cv_screening.Prelude.Table.{find-update_self}
use ai_cv_screening.Rules.Engine.{Details, is_review}
use ai_cv_screening.Scoring.Schemas.{EvaluationStatus, FinalCandidateEvaluation}
use ai_cv_screening.Pipeline.Ledger.{
  Stage, Code, EventStatus, Event, stage1_verification, Item, Entry, entry_key, Progress, logged,
  log, filed, settle, event, extracted, held, excluded, evaluated,
}
use ai_cv_screening.Pipeline.Stages.{
  plain_item, verified_item, fail_rules, reject, Retrieved, fail_stage2, log_extracted,
  hold_relevance, exclude,
}
use ai_cv_screening.Campaign.Cutoff.{review_code}
use ai_cv_screening.Pipeline.Run.{
  Judged, judged, outcome_of, evaluation_item, list_result, take_result,
}
use ai_cv_screening.Pipeline.Accounting.{first_details, check_found, some_check}
use ai_cv_screening.Pipeline.Books.{is_known, Books, kept_counts, ticks, tests}
use ai_cv_screening.Pipeline.Changes.{Closed, indicator, Open, settle-Books, note-Books}
use ai_cv_screening.Pipeline.Filing.{
  Touches, Pending, both, both-Touches, Plain, carries_own, file-Books, early_checked,
  same_bool_refl, reviewed-append, details-append, length-lead, length-hold, length-refuse,
  length-fall, listed-lead, listed-hold, listed-refuse, listed-fall,
}

module _ (ids : List ℕ) (k : ℕ) (s : Progress) where
  pub fail_rules-Books : Open k s.outcomes → Books ids s → Books ids (fail_rules k s)
  fail_rules-Books o b =
      let item = plain_item k "RULE_EVALUATION_FAILED" in
      let v = event Stage.stage1 EventStatus.failed in
      file-Books ids k Code.processing_failed Stage.stage1 item v s (fail_rules k s) (refl, refl)
        refl
        (record {
          total = refl;
          counts = refl;
          named = refl;
          one = omega arith;
          lists = length-fall s item;
          reviews = refl;
          public = listed-fall s item;
        })
        o
        (early_checked (first_details o.entry.stage_history) Code.processing_failed item v o.entry)
        b

  pub reject-Books : Open k s.outcomes → Books ids s → Books ids (reject k s)
  reject-Books o b =
      let item = plain_item k "FAILED_STAGE1_FILTERS" in
      settle-Books ids k Code.filter_rejected Stage.stage1
        (filed Code.filter_rejected Stage.stage1 item) s (reject k s) (λ e. refl) o
        (record {
          code_of = refl;
          stage_of = refl;
          reviewed = refl;
          checked = rejected_checked (first_details o.entry.stage_history) o.entry;
        })
        refl
        (record {
          total = refl;
          counts = refl;
          named = refl;
          one = omega arith;
          lists = length-refuse s item;
          reviews = refl;
          public = listed-refuse s item;
        })
        b
    where
      rejected_checked :
          (o : Option Details) (e : Entry)
          → check_found o
              (filed Code.filter_rejected Stage.stage1 (plain_item k "FAILED_STAGE1_FILTERS") e)
            ≡ ok tt
      rejected_checked none e = refl
      rejected_checked (some d) e = refl

required_own :
    (d : Details)
    → (stage1_verification d).verification_required ≡ some_check (filter is_review d.checks)
unfolding stage1_verification
required_own d = refl

stage2_checked :
    (d : Details) (code : Code) (v : Event) (item : Item) (e : Entry)
    → item.verification ≡ some (stage1_verification d)
    → (o : Option Details) → o ≡ some d
    → check_found o (both code Stage.stage2 item v e) ≡ ok tt
stage2_checked d code v item e own o h = rw (h, own, carries_own d)

module _ (ids : List ℕ) (k : ℕ) (d : Details) (s : Progress) (p : Pending k d s.outcomes) where
  pub fail_stage2-Books :
      (code : Code) (reason : String)
      → is_known code Stage.stage2 ≡ true
      → kept_counts (fail_stage2 k code reason d s).metrics
        ≡ ticks code Stage.stage2 tests (kept_counts s.metrics)
      → Books ids s
      → Books ids (fail_stage2 k code reason d s)
  fail_stage2-Books code reason n h b =
      let item = verified_item k reason d in
      let v = event Stage.stage2 EventStatus.failed in
      file-Books ids k code Stage.stage2 item v s (fail_stage2 k code reason d s) (refl, refl) refl
        (record {
          total = refl;
          counts = h;
          named = n;
          one = omega arith;
          lists = length-fall s item;
          reviews = refl;
          public = listed-fall s item;
        })
        p.opened
        (stage2_checked d code v item p.opened.entry refl
          (first_details p.opened.entry.stage_history) p.details)
        b

module _ (ids : List ℕ) (x : Retrieved) (s : Progress)
    (p : Pending x.candidate_id x.filter_details s.outcomes) where
  pub hold_relevance-Books : Books ids s → Books ids (hold_relevance x s)
  hold_relevance-Books b =
      let k = x.candidate_id in
      let item =
        verified_item k (review_code x.evidence.payload.relevance_reason) x.filter_details in
      let v = event Stage.stage2 held in
      file-Books ids k Code.review_required Stage.stage2 item v s (hold_relevance x s) (refl, refl)
        refl
        (record {
          total = refl;
          counts = refl;
          named = refl;
          one = omega arith;
          lists = length-hold s item;
          reviews = refl;
          public = listed-hold s item;
        })
        p.opened
        (stage2_checked x.filter_details Code.review_required v item p.opened.entry refl
          (first_details p.opened.entry.stage_history) p.details)
        b

  pub exclude-Books : Books ids s → Books ids (exclude x s)
  exclude-Books b =
      let k = x.candidate_id in
      let item = verified_item k "CUTOFF_EXCLUDED" x.filter_details in
      let v = event Stage.stage2 excluded in
      file-Books ids k Code.cutoff_excluded Stage.stage2 item v s (exclude x s) (refl, refl) refl
        (record {
          total = refl;
          counts = refl;
          named = refl;
          one = omega arith;
          lists = length-refuse s item;
          reviews = refl;
          public = listed-refuse s item;
        })
        p.opened
        (stage2_checked x.filter_details Code.cutoff_excluded v item p.opened.entry refl
          (first_details p.opened.entry.stage_history) p.details)
        b

stage3_checked :
    (st : EvaluationStatus) (k : ℕ) (f : FinalCandidateEvaluation) (d : Details) (v : Event)
    (e : Entry)
    → f.evaluation_status ≡ st
    → (o : Option Details) → o ≡ some d
    → check_found o (both (outcome_of st) Stage.stage3 (evaluation_item (judged k f) d) v e) ≡ ok tt
stage3_checked EvaluationStatus.success k f d v e st o h =
    rw (
      h,
      carries_own d,
      st,
      required_own d,
      same_bool_refl (some_check (filter is_review d.checks)),
    )
stage3_checked EvaluationStatus.review_required k f d v e st o h = rw (h, carries_own d, st)
stage3_checked EvaluationStatus.evaluation_failed k f d v e st o h = rw (h, carries_own d, st)

-- a result with its status given apart
module _ (ids : List ℕ) (k : ℕ) (f : FinalCandidateEvaluation) (d : Details) (s : Progress) where
  abbrev item_of : Item
  item_of = evaluation_item (judged k f) d

  abbrev event_of : EvaluationStatus → Event
  event_of st = event Stage.stage3 (evaluated st)

  abbrev filed_as : EvaluationStatus → Progress
  filed_as st = list_result st item_of (record s {
    outcomes = log k (event_of st) (settle k (outcome_of st) Stage.stage3 item_of s.outcomes);
  })

  filed_as-Closed : (st : EvaluationStatus) → Closed k (outcome_of st) Stage.stage3 s (filed_as st)
  filed_as-Closed EvaluationStatus.success = record {
    total = refl;
    counts = refl;
    named = refl;
    one = omega arith;
    lists = length-lead s item_of;
    reviews = refl;
    public = listed-lead s item_of;
  }
  filed_as-Closed EvaluationStatus.review_required = record {
    total = refl;
    counts = refl;
    named = refl;
    one = omega arith;
    lists = length-hold s item_of;
    reviews = refl;
    public = listed-hold s item_of;
  }
  filed_as-Closed EvaluationStatus.evaluation_failed = record {
    total = refl;
    counts = refl;
    named = refl;
    one = omega arith;
    lists = length-fall s item_of;
    reviews = refl;
    public = listed-fall s item_of;
  }

  filed_as-made :
      (st : EvaluationStatus)
      → (filed_as st).outcomes
        ≡ log k (event_of st) (settle k (outcome_of st) Stage.stage3 item_of s.outcomes)
  filed_as-made EvaluationStatus.success = refl
  filed_as-made EvaluationStatus.review_required = refl
  filed_as-made EvaluationStatus.evaluation_failed = refl

  filed_as-Books :
      (p : Pending k d s.outcomes) (st : EvaluationStatus)
      → f.evaluation_status ≡ st
      → Books ids s
      → Books ids (filed_as st)
  filed_as-Books p st h b =
      file-Books ids k (outcome_of st) Stage.stage3 item_of (event_of st) s (filed_as st)
        (refl, refl) (filed_as-made st) (filed_as-Closed st) p.opened
        (stage3_checked st k f d (event_of st) p.opened.entry h
          (first_details p.opened.entry.stage_history) p.details)
        b

pub take_result-Books :
    (ids : List ℕ) (r : Judged) (d : Details) (s : Progress)
    → Pending r.candidate_id d s.outcomes
    → Books ids s
    → Books ids (take_result r d s)
take_result-Books ids r d s p b =
    filed_as-Books ids r.candidate_id r.evaluation d s p r.evaluation.evaluation_status refl b

pub take_result-Touches :
    (r : Judged) (d : Details) (s : Progress) → Touches r.candidate_id s (take_result r d s)
take_result-Touches r d s =
    let k = r.candidate_id in
    let st = r.evaluation.evaluation_status in
    both-Touches k (outcome_of st) Stage.stage3 (evaluation_item r d)
      (event Stage.stage3 (evaluated st)) s (take_result r d s)
      (filed_as-made [] k r.evaluation d s st)

-- An event that is neither a decision nor carries details keeps a candidate as it is.
pub log-Pending :
    (k : ℕ) (d : Details) (v : Event) (s : Progress)
    → Plain v
    → Pending k d s.outcomes
    → Pending k d (log k v s.outcomes)
log-Pending k d v s plain p = record {
  opened = record {
    entry = logged v p.opened.entry;
    found = find-update_self entry_key k (logged v) (λ e. refl) s.outcomes p.opened.found;
    unsettled = p.opened.unsettled;
  };
  details = details-append v p.opened.entry.stage_history plain.1 ∙ p.details;
}

pub log_extracted-Books :
    (ids : List ℕ) (k : ℕ) (d : Details) (s : Progress)
    → Pending k d s.outcomes
    → Books ids s
    → Books ids (log_extracted k s)
log_extracted-Books ids k d s p b =
    note-Books ids k (event Stage.stage2 extracted) s (log_extracted k s) p.opened refl
      (record {
        total = refl;
        counts = refl;
        lists = refl;
        reviews =
            ap (λ x. s.metrics.stage1_review_required + indicator x)
              (sym
                (reviewed-append (event Stage.stage2 extracted) p.opened.entry.stage_history refl));
        public = λ j. refl;
      })
      b
