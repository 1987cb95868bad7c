-- ===== src/Pipeline/Filter.antt =====
-- Lemmas on the body of the first loop of the synchronous pipeline (app/orchestrator.py).
use ai_cv_screening.Prelude.{
  ℕ, ◌+◌, Option, none, some, List, [], ◌∷◌, Result, ok, err, length, ◌≡◌, refl, ◌∙◌, arith,
}
use ai_cv_screening.Prelude.Table.{find, find-update_ne, find-update_self}
use ai_cv_screening.Rules.Contracts.{HardFilterRules, rule_facts}
use ai_cv_screening.Rules.Engine.{Decision, Details, Reading, evaluate_stage1_hard_filters}
use ai_cv_screening.Pipeline.Ledger.{
  Stage, Code, EventStatus, Entry, entry_key, Metrics, Progress, logged, filed, event, processed,
}
use ai_cv_screening.Pipeline.Stages.{
  Applicant, Survivor, plain_item, process_text, fail_rules, decision_event, log_decision,
  count_pass, count_review, decide, apply_rules, keep,
}
use ai_cv_screening.Pipeline.Run.{new_entry}
use ai_cv_screening.Pipeline.Books.{Books}
use ai_cv_screening.Pipeline.Changes.{Open, note-Books}
use ai_cv_screening.Pipeline.Filing.{Touches, Pending, both-Touches}
use ai_cv_screening.Pipeline.Moves.{fail_rules-Books, reject-Books}

abbrev pub seen : Metrics → ℕ
seen m = m.stage1_passed + m.stage1_rejected + m.stage1_review_required + m.stage1_failed

abbrev pub passing : Metrics → ℕ
passing m = m.stage1_passed + m.stage1_review_required

abbrev pub on_stage2 : Metrics → ℕ
on_stage2 m = m.stage2_excluded + m.stage2_failed + m.stage2_review_required

abbrev pub on_stage3 : Metrics → ℕ
on_stage3 m = m.stage3_succeeded + m.stage3_review_required + m.stage3_failed

-- the metrics of the stages that the first loop has nothing to do with
abbrev pub other_stages : Metrics → List ℕ
other_stages m =
    m.stage0_failed
    ∷ (m.stage0_review_required
        ∷ (m.stage2_shortlisted ∷ (m.stage3_evaluated ∷ (on_stage2 m ∷ (on_stage3 m ∷ [])))))

-- `n` candidates have been through the hard filters and `kept` of them have passed
pub record Filtered (n kept : ℕ) (a b : Metrics) : Type 0 where
  pub processed_count : b.stage0_processed ≡ a.stage0_processed + n
  pub seen_count : seen b ≡ seen a + n
  pub passing_count : passing b ≡ passing a + kept
  pub others : other_stages b ≡ other_stages a

abbrev pub Fresh : Progress → ℕ → Type 0
Fresh s k = find entry_key k s.outcomes ≡ some (new_entry k)

abbrev pub Awaits : Progress → Survivor → Type 0
Awaits s x = Pending x.candidate_id x.filter_details s.outcomes

abbrev pub Kept : ℕ → Progress → Option Survivor → Type 0
Kept k s none = Unit
Kept k s (some x) = (x.candidate_id ≡ k) × Awaits s x

pub record Step (ids : List ℕ) (k : ℕ) (s : Progress) (r : Progress × Option Survivor)
    : Type 0 where
  pub books : Books ids r.0
  pub touches : Touches k s r.0
  pub kept : Kept k r.0 r.1
  pub counted : Filtered 1 (length (keep r.1 [])) s.metrics r.0.metrics

module _ (ids : List ℕ) (k : ℕ) (s : Progress) (fresh : Fresh s k) (b : Books ids s) where
  abbrev read_entry : Entry
  read_entry = logged (event Stage.stage0 processed) (new_entry k)

  opened_fresh : Open k s.outcomes
  opened_fresh = record { entry = new_entry k; found = fresh; unsettled = refl }

  read_found : find entry_key k (process_text k s).outcomes ≡ some read_entry
  read_found =
      find-update_self entry_key k (logged (event Stage.stage0 processed)) (λ e. refl) s.outcomes
        fresh

  abbrev opened_read : Open k (process_text k s).outcomes
  opened_read = record { entry = read_entry; found = read_found; unsettled = refl }

  process_text-Books : Books ids (process_text k s)
  process_text-Books =
      note-Books ids k (event Stage.stage0 processed) s (process_text k s)
        (record { entry = new_entry k; found = fresh; unsettled = refl }) refl
        (record { total = refl; counts = refl; lists = refl; reviews = refl; public = λ j. refl }) b

  process_text-Touches : Touches k s (process_text k s)
  process_text-Touches j ne =
      find-update_ne entry_key k j (logged (event Stage.stage0 processed)) (λ e. refl) ne s.outcomes

  fail_rules-Step : Step ids k s (fail_rules k (process_text k s), none)
  fail_rules-Step =
      let s1 = process_text k s in
      record {
        books = fail_rules-Books ids k s1 opened_read process_text-Books;
        touches = λ j ne.
            both-Touches k Code.processing_failed Stage.stage1
              (plain_item k "RULE_EVALUATION_FAILED") (event Stage.stage1 EventStatus.failed) s1
              (fail_rules k s1) refl j ne
            ∙ process_text-Touches j ne;
        kept = tt;
        counted = record {
          processed_count = refl;
          seen_count = omega arith;
          passing_count = omega arith;
          others = refl;
        };
      }

  module _ (d : Details) where
    abbrev decided_entry : Entry
    decided_entry = logged (decision_event d) read_entry

    abbrev told : Progress
    told = log_decision k d (process_text k s)

    told_found : find entry_key k told.outcomes ≡ some decided_entry
    told_found =
        find-update_self entry_key k (logged (decision_event d)) (λ e. refl)
          (process_text k s).outcomes read_found

    told-Touches : Touches k s told
    told-Touches j ne =
        find-update_ne entry_key k j (logged (decision_event d)) (λ e. refl) ne
          (process_text k s).outcomes
        ∙ process_text-Touches j ne

    abbrev opened_told : Open k told.outcomes
    opened_told = record { entry = decided_entry; found = told_found; unsettled = refl }

    abbrev pending_told : Pending k d told.outcomes
    pending_told = record { opened = opened_told; details = refl }

    -- the branches on the status
    decide-Step : (st : Decision) → d.status ≡ st → Step ids k s (decide k d st told)
    decide-Step Decision.pass h = record {
      books =
          note-Books ids k (decision_event d) (process_text k s) (count_pass told) opened_read refl
            (record {
              total = refl;
              counts = refl;
              lists = refl;
              reviews = rw h;
              public = λ j. refl;
            })
            process_text-Books;
      touches = told-Touches;
      kept = (refl, pending_told);
      counted = record {
        processed_count = refl;
        seen_count = omega arith;
        passing_count = omega arith;
        others = refl;
      };
    }
    decide-Step Decision.review h = record {
      books =
          note-Books ids k (decision_event d) (process_text k s) (count_review told) opened_read
            refl
            (record {
              total = refl;
              counts = refl;
              lists = refl;
              reviews = rw h (omega arith);
              public = λ j. refl;
            })
            process_text-Books;
      touches = told-Touches;
      kept = (refl, pending_told);
      counted = record {
        processed_count = refl;
        seen_count = omega arith;
        passing_count = omega arith;
        others = refl;
      };
    }
    decide-Step Decision.fail h = record {
      books = reject-Books ids k told opened_told (
          note-Books ids k (decision_event d) (process_text k s) told opened_read refl
            (record {
              total = refl;
              counts = refl;
              lists = refl;
              reviews = rw h;
              public = λ j. refl;
            })
            process_text-Books);
      touches = λ j ne.
          find-update_ne entry_key k j
            (filed Code.filter_rejected Stage.stage1 (plain_item k "FAILED_STAGE1_FILTERS"))
            (λ e. refl) ne told.outcomes
          ∙ told-Touches j ne;
      kept = tt;
      counted = record {
        processed_count = refl;
        seen_count = omega arith;
        passing_count = omega arith;
        others = refl;
      };
    }

pub apply_rules-Step :
    (ids : List ℕ) (rules : HardFilterRules) (a : Applicant) (cv : Result Reading) (s : Progress)
    → Fresh s a.candidate_id
    → Books ids s
    → Step ids a.candidate_id s (apply_rules rules a cv (process_text a.candidate_id s))
apply_rules-Step ids rules a (err e) s fresh b = fail_rules-Step ids a.candidate_id s fresh b
apply_rules-Step ids rules a (ok cv) s fresh b =
    let d = evaluate_stage1_hard_filters rules (rule_facts a.input) cv in
    decide-Step ids a.candidate_id s fresh b d d.status refl
