-- ===== src/Pipeline/Total.antt =====
-- `run_end_to_end_screening_pipeline` of app/orchestrator.py as a whole, and `validate_accounting` of
-- app/run_audit.py on its response.
use mathlib.Core.Path.{subst}
use ai_cv_screening.Prelude.{
  ℕ, ◌≤◌, true, false, not, ◌&&◌, List, [], ◌∷◌, Result, ok, length, le→leb, ◌≡◌, refl, sym, ap,
  ◌∙◌, arith,
}
use ai_cv_screening.Prelude.Table.{IsKeyed}
use ai_cv_screening.Rules.Contracts.{HardFilterRules}
use ai_cv_screening.Pipeline.Ledger.{Metrics, Progress}
use ai_cv_screening.Pipeline.Stages.{Applicant, Survivor, filter_loop}
use ai_cv_screening.Pipeline.Run.{
  Services, Backend, Report, applicant_id, distinct, start, empty_report, validate_inputs, finish,
  finish_screening, run_end_to_end_screening_pipeline,
}
use ai_cv_screening.Pipeline.Accounting.{
  validate_accounting, check_lists, check_counts, check_metrics,
}
use ai_cv_screening.Pipeline.Books.{Books}
use ai_cv_screening.Pipeline.Filter.{Filtered}
use ai_cv_screening.Pipeline.Sifting.{Sifted, filter_loop-Sifted}
use ai_cv_screening.Pipeline.Screening.{Flow, screen_survivors-Screened}
use ai_cv_screening.Pipeline.Start.{ids_of, distinct_keyed, start-Books, start-Fresh, length-ids}
use ai_cv_screening.Pipeline.Acceptance.{nth, Complete, finish-made, validate_accounting-made}

-- a response that `validate_accounting` accepts
abbrev pub Accepted : List ℕ → Result Report → Type 0
Accepted ids result = (r : Report) × (result ≡ ok r) × (validate_accounting r ids ≡ ok tt)

module _ (n : ℕ) (m : Metrics) (xs : List Applicant) where
  none_left : Filtered n 0 (start xs).metrics m → Complete n m
  none_left f =
      let rest = λ (i : ℕ). ap (nth i) f.others in
      record {
        processed_count = omega (arith, f.processed_count);
        seen_count = omega (arith, f.seen_count);
        no_failure = rest 0;
        no_review = rest 1;
        second = omega (arith, rest 2, rest 4, f.passing_count);
        third = rest 5 ∙ sym (rest 2);
        evaluated_count = rest 3 ∙ sym (rest 2);
      }

  all_screened :
      (k shortlisted : ℕ) (t : Metrics)
      → Filtered n k (start xs).metrics m
      → Flow k shortlisted m t
      → Complete n t
  all_screened k shortlisted t f g =
      let rest = λ (i : ℕ). ap (nth i) f.others in
      let same = λ (i : ℕ). ap (nth i) g.0 in
      record {
        processed_count = omega (arith, f.processed_count, same 0);
        seen_count = same 1 ∙ f.seen_count ∙ omega arith;
        no_failure = same 3 ∙ rest 0;
        no_review = same 4 ∙ rest 1;
        second = omega (arith, g.1, same 2, same 5, rest 4, f.passing_count);
        third = omega (arith, g.2, same 5, rest 5);
        evaluated_count = same 6 ∙ sym (same 5);
      }

empty_valid : validate_accounting (empty_report 0) [] ≡ ok tt
unfolding validate_accounting check_lists check_counts check_metrics
empty_valid = refl

accepted :
    (ids : List ℕ) (s : Progress)
    → distinct ids ≡ ids
    → Books ids s
    → Complete (length ids) s.metrics
    → Accepted ids (finish (length ids) s)
accepted ids s unique b c =
    (_, finish-made ids s unique b c, validate_accounting-made ids s unique b c)

module _ (services : Services) (backend : Backend) (cutoff : ℕ) (xs : List Applicant)
    (configured : (backend.is_production && not backend.is_postgres) ≡ false)
    (keyed : IsKeyed applicant_id xs) where
  finish_screening-Accepted :
      (s : Progress) (survivors : List Survivor)
      → Sifted (ids_of xs) xs (start xs) (s, survivors)
      → Accepted
          (ids_of xs)
          (finish_screening services backend cutoff (length (ids_of xs)) (s, survivors))
  finish_screening-Accepted s [] f = accepted (ids_of xs) s (distinct_keyed xs keyed) f.books (
      none_left (length (ids_of xs)) s.metrics xs
        (subst (λ n. Filtered n 0 (start xs).metrics s.metrics) (length-ids xs) f.counted))
  finish_screening-Accepted s (x ∷ rest) f =
      let (t, made, screened) =
        screen_survivors-Screened services cutoff (ids_of xs) (x ∷ rest) s f.keyed f.awaiting
          f.books in
      let (r, done, valid) = accepted (ids_of xs) t (distinct_keyed xs keyed) screened.books (
        all_screened (length (ids_of xs)) s.metrics xs (length (x ∷ rest)) screened.shortlisted
          t.metrics
          (subst (λ n. Filtered n (length (x ∷ rest)) (start xs).metrics s.metrics) (length-ids xs)
            f.counted)
          screened.counted) in
      (r, rw (configured, made) done, valid)

  filtered-Accepted :
      (rules : HardFilterRules)
      → Accepted (ids_of xs) (
          finish_screening services backend cutoff
            (length xs)
            (filter_loop rules services.read xs (start xs)))
  filtered-Accepted rules =
      let filtered = filter_loop rules services.read xs (start xs) in
      subst (λ n. Accepted (ids_of xs) (finish_screening services backend cutoff n filtered))
        (sym (length-ids xs))
        (finish_screening-Accepted filtered.0 filtered.1 (
          filter_loop-Sifted (ids_of xs) rules services.read xs (start xs) keyed
            (start-Fresh xs keyed) (start-Books xs keyed)))

-- For a JD profile, rules that resolve, a cutoff between 1 and 15, a backend that production allows,
-- distinct identifiers and consistent inputs, the pipeline returns a report that `validate_accounting`
-- accepts for those identifiers, whatever is read from the CVs and whether the retrieval, the ranking
-- and the language model return results, wrong ones, or raise.
pub run_end_to_end_screening_pipeline-Accepted :
    (services : Services) (backend : Backend) (rules : HardFilterRules) (cutoff : ℕ)
    (candidates : List Applicant)
    → 1 ≤ cutoff
    → cutoff ≤ 15
    → (backend.is_production && not backend.is_postgres) ≡ false
    → IsKeyed applicant_id candidates
    → validate_inputs candidates ≡ ok tt
    → Accepted
        (ids_of candidates)
        (run_end_to_end_screening_pipeline services backend (ok rules) true cutoff candidates)
unfolding run_end_to_end_screening_pipeline
run_end_to_end_screening_pipeline-Accepted services backend rules cutoff [] low high configured
      keyed valid =
    (empty_report 0, rw (le→leb 1 cutoff low, le→leb cutoff 15 high), empty_valid)
run_end_to_end_screening_pipeline-Accepted services backend rules cutoff (x ∷ rest) low high
      configured keyed valid =
    let (r, done, accounted) =
      filtered-Accepted services backend cutoff (x ∷ rest) configured keyed rules in
    (r, rw (le→leb 1 cutoff low, le→leb cutoff 15 high, valid) done, accounted)
