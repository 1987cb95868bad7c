-- ===== src/Scoring/Evidence/Verdict.antt =====
-- `verify_evidence` of app/stage3_evaluation/evidence.py and `score_evaluation` of
-- app/stage3_evaluation/scoring.py together.
use mathlib.Core.Bool.{true≢false, false≢true}
use Prim.Native.String.{◌++◌ as cat}
use ai_cv_screening.Prelude.{
  ℕ, suc, ◌<◌, String, Bool, true, false, not, List, [], ◌∷◌, ◌++◌, ok, any, length, All,
  Bool-cases, ◌≡◌, refl, sym, ap, ◌∙◌, inl, inr, arith,
}
use ai_cv_screening.Prelude.Tallies.{length-sort_by}
use ai_cv_screening.Scoring.Schemas.{
  EvaluationStatus, FlagDetail, LlmEvaluationOutput, CategoryAssessment, Registry,
  EvidenceVerification, FinalCandidateEvaluation, member, distinct, sorted_set, str_le,
}
use ai_cv_screening.Scoring.Outcome.{is_empty, foreign, is_severe, score_evaluation}
use ai_cv_screening.Scoring.Outcome.Laws.{InRange, score_evaluation_total}
use ai_cv_screening.Scoring.Evidence.{
  TextTests, Findings, check_citations, check_support, is_in_category, miss_if, check_category,
  allowed_for, flag_field, check_flags, check_categories, flagged_signals, reason_if,
  verify_evidence,
}
use ai_cv_screening.Scoring.Evidence.Trust.{
  Supported, cons_nil, unless, check_citations_quiet, check_support_quiet,
}

abbrev pub FlagSupported : TextTests → Registry → Bool → FlagDetail → Type 0
FlagSupported texts registry required f =
    Supported texts registry required f.citations f.claims (allowed_for f.type)

abbrev pub CategorySupported : TextTests → Registry → Bool → String → CategoryAssessment → Type 0
CategorySupported texts registry required category a =
    (any (is_in_category category) registry ≡ true)
    × Supported texts registry required a.citations a.claims (category ∷ [])

-- every category and every flag rests on evidence of the registry, and nothing was cut or injected
pub record Trusted (texts : TextTests) (o : LlmEvaluationOutput) (registry : Registry)
    (signals : List String) (required context_complete : Bool) : Type 0 where
  pub complete : context_complete ≡ true
  pub clean : signals ++ flagged_signals texts registry ≡ []
  pub skills : CategorySupported texts registry required "SKILLS" o.skills
  pub experience : CategorySupported texts registry required "EXPERIENCE" o.experience
  pub projects : CategorySupported texts registry required "PROJECTS" o.projects
  pub education : CategorySupported texts registry required "EDUCATION" o.education
  pub flags : All (FlagSupported texts registry required) o.flags

reason_quiet :
    (b : Bool) (r : String) (s : Findings)
    → (reason_if b r s).reasons ≡ []
    → (b ≡ false) × (s.reasons ≡ [])
reason_quiet true r s h = absurd (cons_nil r s.reasons h)
reason_quiet false r s h = (refl, h)

miss_quiet :
    (b : Bool) (category : String) (s : Findings)
    → (miss_if b category s).reasons ≡ []
    → (b ≡ false) × (s.reasons ≡ [])
miss_quiet true category s h = absurd (cons_nil (cat "MISSING_EVIDENCE:" category) s.reasons h)
miss_quiet false category s h = (refl, h)

empty_nil : (xs : List String) → not (is_empty xs) ≡ false → xs ≡ []
empty_nil [] h = refl
empty_nil (x ∷ xs) h = absurd (true≢false h)

module _ (texts : TextTests) (registry : Registry) (required : Bool) where
  check_category_quiet :
      (category field : String) (a : CategoryAssessment) (s : Findings)
      → (check_category texts registry required category field a s).reasons ≡ []
      → CategorySupported texts registry required category a × (s.reasons ≡ [])
  check_category_quiet category field a s h =
      let missing = not (any (is_in_category category) registry) in
      let begun = miss_if missing category s in
      let cited = check_citations texts registry field a.citations (category ∷ []) begun in
      let (backed, claimed, h1) =
        check_support_quiet texts registry required field a.citations a.claims (category ∷ [])
          cited.1 h in
      let (some_cited, all_cited, h2) =
        check_citations_quiet texts registry field a.citations (category ∷ []) begun h1 in
      let (present, before) = miss_quiet missing category s h2 in
      (
        (
          unless (any (is_in_category category) registry) present,
          (some_cited, all_cited, backed, claimed),
        ),
        before,
      )

  check_flags_quiet :
      (i : ℕ) (fs : List FlagDetail) (s : Findings)
      → (check_flags texts registry required i fs s).0.reasons ≡ []
      → All (FlagSupported texts registry required) fs × (s.reasons ≡ [])
  check_flags_quiet i [] s h = (tt, h)
  check_flags_quiet i (f ∷ fs) s h =
      let field = flag_field texts i in
      let allowed = allowed_for f.type in
      let cited = check_citations texts registry field f.citations allowed s in
      let support =
        check_support texts registry required field f.citations f.claims allowed cited.1 in
      let (later, h1) = check_flags_quiet (suc i) fs support.findings h in
      let (backed, claimed, h2) =
        check_support_quiet texts registry required field f.citations f.claims allowed cited.1 h1 in
      let (some_cited, all_cited, before) =
        check_citations_quiet texts registry field f.citations allowed s h2 in
      (((some_cited, all_cited, backed, claimed), later), before)

distinct_nil : (xs : List String) → distinct xs ≡ [] → xs ≡ []
distinct_nil [] h = refl
distinct_nil (x ∷ xs) h = elim (Bool-cases (member x (distinct xs))) [
  | inl e ↦ absurd (false≢true (sym (ap (member x) (rw e at h)) ∙ e))
  | inr e ↦ absurd (cons_nil x (distinct xs) (rw e at h))
]

sorted_nil : (xs : List String) → sorted_set xs ≡ [] → xs ≡ []
sorted_nil xs h =
    distinct_nil xs
      (none_of (distinct xs) (sym (length-sort_by str_le (distinct xs)) ∙ ap length h))
  where
    none_of : (ys : List String) → length ys ≡ 0 → ys ≡ []
    none_of [] e = refl
    none_of (y ∷ ys) e = absurd (omega arith)

-- the verification, where the registry is the candidate's own
verify_evidence-Trusted :
    (texts : TextTests) (o : LlmEvaluationOutput) (registry : Registry) (cid : String)
    (signals : List String) (required context_complete : Bool)
    → any (foreign cid) registry ≡ false
    → (v : EvidenceVerification) × (verify_evidence texts o registry cid signals required
          context_complete
        ≡ ok v)
      × (v.registry ≡ registry)
      × (v.review_reasons ≡ [] → Trusted texts o registry signals required context_complete)
unfolding verify_evidence
verify_evidence-Trusted texts o registry cid signals required context_complete own =
    let all_signals = signals ++ flagged_signals texts registry in
    let s0 =
      reason_if (not context_complete) "EVIDENCE_CONTEXT_TRUNCATED"
        (record { checks = []; reasons = [] }) in
    let s1 = check_category texts registry required "SKILLS" "skills" o.skills s0 in
    let s2 = check_category texts registry required "EXPERIENCE" "experience" o.experience s1 in
    let s3 = check_category texts registry required "PROJECTS" "projects" o.projects s2 in
    let s4 = check_categories texts registry required o s0 in
    let flags = check_flags texts registry required 0 o.flags s4 in
    let done = reason_if (not (is_empty all_signals)) "INJECTION_SIGNAL_REQUIRES_REVIEW" flags.0 in
    (
      record {
        registry = registry;
        checks = done.checks;
        review_reasons = sorted_set done.reasons;
        verified_flag_indices = flags.1;
        injection_signals = sorted_set all_signals;
      },
      rw own,
      refl,
      λ h.
          let (clean, h5) =
            reason_quiet (not (is_empty all_signals)) "INJECTION_SIGNAL_REQUIRES_REVIEW" flags.0
              (sorted_nil done.reasons h) in
          let (flagged, h4) = check_flags_quiet texts registry required 0 o.flags s4 h5 in
          let (education, h3) =
            check_category_quiet texts registry required "EDUCATION" "education" o.education s3
              h4 in
          let (projects, h2) =
            check_category_quiet texts registry required "PROJECTS" "projects" o.projects s2 h3 in
          let (experience, h1) =
            check_category_quiet texts registry required "EXPERIENCE" "experience" o.experience s1
              h2 in
          let (skills, h0) =
            check_category_quiet texts registry required "SKILLS" "skills" o.skills s0 h1 in
          let (whole, _) =
            reason_quiet (not context_complete) "EVIDENCE_CONTEXT_TRUNCATED"
              (record { checks = []; reasons = [] }) h0 in
          record {
            complete = unless context_complete whole;
            clean = empty_nil all_signals clean;
            skills = skills;
            experience = experience;
            projects = projects;
            education = education;
            flags = flagged;
          },
    )

-- For scores of at most 100 points and a registry of the candidate's own references, the evidence is
-- verified and scored, and the result is a SUCCESS only if the context was complete, no injection was
-- signalled, every category has evidence, and every category and every flag has citations, each of a
-- registered reference of an allowed category, and claims that each quote a reference that is cited,
-- name no number that the quote lacks and, where they carry an evidence id, are an excerpt of that very
-- reference; where claim support is required, each citation then has a claim. No flag is HIGH or
-- CRITICAL.
pub verify_evidence-score_evaluation :
    (texts : TextTests) (o : LlmEvaluationOutput) (registry : Registry) (cid : String)
    (signals : List String) (required context_complete : Bool) (unit : ℕ) (mock : Bool)
    → 0 < unit
    → InRange unit o
    → any (foreign cid) registry ≡ false
    → (v : EvidenceVerification) × (f : FinalCandidateEvaluation) × (verify_evidence texts o
          registry cid signals required context_complete
        ≡ ok v)
      × (score_evaluation unit cid o v mock ≡ ok f)
      × (f.evaluation_status ≡ EvaluationStatus.success
          → Trusted texts o registry signals required context_complete
            × (any is_severe o.flags ≡ false))
verify_evidence-score_evaluation texts o registry cid signals required context_complete unit mock h
      range own =
    let (v, verified, same, trust) =
      verify_evidence-Trusted texts o registry cid signals required context_complete own in
    let (f, scored, _, _, success, _, _) =
      score_evaluation_total unit cid o v mock h range (ap (any (foreign cid)) same ∙ own) in
    (v, f, verified, scored, λ e. let k = success.0 e in (trust k.0, k.1))
