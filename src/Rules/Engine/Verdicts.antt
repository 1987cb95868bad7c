-- ===== src/Rules/Engine/Verdicts.antt =====
-- What the verdicts of the hard filters rest on, stated over the facts and not over the checks.
use ai_cv_screening.Prelude.{
  ℕ, ◌≡◌, refl, sym, ◌∙◌, Bool, true, false, not, ◌&&◌, ◌||◌, Option, none, some, List, [], ◌∷◌,
  arith, map, ltb, leb, ◌==◌, filter, any, all, ◌↔◌,
}
use ai_cv_screening.Rules.Contracts.{
  AttributeSource, HardFilterRules, CandidateFacts, is_ineligible, is_unknown, is_verified,
}
use ai_cv_screening.Rules.Engine.{
  pass, fail, Check, DegreeEntry, ExperienceEvidence, SkillEvidence, Reading, is_review, is_fail,
  effective_facts, evidence_used, boundary_open, qualifies, required_rank, authorization_check,
  experience_check, education_entries_check, education_check, skill_check, stage1_checks, verdict,
  evaluate_stage1_hard_filters,
}

-- verified not to be authorized
abbrev pub authorization_contradicts : HardFilterRules → CandidateFacts → Bool
authorization_contradicts rules f =
    rules.require_work_authorization
    && (is_verified f.authorization_source && is_ineligible f.work_authorized)

-- known to be below the minimum, also by the upper bound of dated employment
abbrev pub experience_contradicts : HardFilterRules → Option ExperienceEvidence → Option ℕ → Bool
experience_contradicts rules evidence none = false
experience_contradicts rules evidence (some years) =
    ltb years rules.min_years_experience
    && not (boundary_open rules.min_years_experience years evidence)

-- an entry with a clear level and either too low or in an explicit other field
abbrev pub entry_contradicts : ℕ → DegreeEntry → Bool
entry_contradicts rank e =
    not e.is_ambiguous && (ltb e.level_rank rank || (not e.is_aligned && e.has_explicit_field))

abbrev pub education_contradicts : ℕ → List DegreeEntry → Bool
education_contradicts rank [] = false
education_contradicts rank (e ∷ es) = ltb 0 rank && all (entry_contradicts rank) (e ∷ es)

abbrev pub skill_contradicts : SkillEvidence → Bool
skill_contradicts s = s.match_weight == 0 && s.negated

abbrev pub contradicts : HardFilterRules → CandidateFacts → Reading → Bool
contradicts rules facts cv =
    let evidence = evidence_used facts.experience_years cv.experience in
    let known = effective_facts evidence facts in
    authorization_contradicts rules known
    || (experience_contradicts rules evidence known.experience_years
        || (education_contradicts (required_rank rules.degree_rank) cv.degrees
            || any skill_contradicts cv.skills))

any-filter {ℓ} :
    {A : Type ℓ} (p q : A → Bool) (xs : List A) → any p (filter q xs) ≡ any (λ x. q x && p x) xs
any-filter p q [] = refl
any-filter p q (x ∷ xs) = ground (arith, any-filter p q xs)

all-filter {ℓ} :
    {A : Type ℓ} (p q : A → Bool) (xs : List A)
    → all p (filter q xs) ≡ all (λ x. not (q x) || p x) xs
all-filter p q [] = refl
all-filter p q (x ∷ xs) = ground (arith, all-filter p q xs)

abbrev is_pass : Check → Bool
is_pass c = elim c.status [ pass ↦ true | _ ↦ false ]

verdict_fail : (cs : List Check) → (verdict cs ≡ fail) ↔ (any is_fail cs ≡ true)
verdict_fail cs = ground arith

all_pass : (cs : List Check) → all is_pass cs ≡ (not (any is_fail cs) && not (any is_review cs))
all_pass [] = refl
all_pass (c ∷ cs) = ground (arith, all_pass cs)

verdict-pass : (cs : List Check) → (verdict cs ≡ pass) ↔ (all is_pass cs ≡ true)
verdict-pass cs = ground (arith, all_pass cs)

any-true {ℓ} :
    {A : Type ℓ} (p : A → Bool) (xs : List A) → any p xs ≡ true → any (λ x. true) xs ≡ true
any-true p [] h = cc
any-true p (x ∷ xs) h = refl

all_of_none {ℓ} :
    {A : Type ℓ} (p : A → Bool) (xs : List A) → any (λ x. true) xs ≡ false → all p xs ≡ true
all_of_none p [] h = refl
all_of_none p (x ∷ xs) h = cc

authorization_fails :
    (rules : HardFilterRules) (f : CandidateFacts)
    → is_fail (authorization_check rules f) ≡ authorization_contradicts rules f
unfolding authorization_check
authorization_fails rules f = ground arith

experience_fails :
    (rules : HardFilterRules) (ev : Option ExperienceEvidence) (years : Option ℕ)
    (s : AttributeSource)
    → is_fail (experience_check rules ev years s) ≡ experience_contradicts rules ev years
unfolding experience_check
experience_fails rules ev none s = ground arith
experience_fails rules ev (some y) s = ground arith

skill_fails : (s : SkillEvidence) → is_fail (skill_check s) ≡ skill_contradicts s
unfolding skill_check
skill_fails s = ground arith

skills_fail :
    (xs : List SkillEvidence) → any is_fail (map skill_check xs) ≡ any skill_contradicts xs
skills_fail [] = refl
skills_fail (x ∷ xs) = rw (skill_fails x, skills_fail xs)

entries_contradict :
    (rank : ℕ) (es : List DegreeEntry)
    → (not (any (λ (e : DegreeEntry). qualifies rank e && (e.is_aligned && true)) es)
        && (not (any (λ (e : DegreeEntry). e.is_ambiguous) es)
            && all (λ (e : DegreeEntry). not (qualifies rank e) || e.has_explicit_field) es))
      ≡ all (entry_contradicts rank) es
entries_contradict rank [] = refl
entries_contradict rank (e ∷ es) = ground (arith, entries_contradict rank es)

entries_fail :
    (rank : ℕ) (es : List DegreeEntry)
    → is_fail (education_entries_check rank es) ≡ all (entry_contradicts rank) es
unfolding education_entries_check
entries_fail rank es =
    let aligned = λ (e : DegreeEntry). e.is_aligned in
    let qualifying = filter (qualifies rank) es in
    ground (
      arith,
      any-true (λ (e : DegreeEntry). not e.is_in_progress) (filter aligned qualifying),
      all_of_none (λ (e : DegreeEntry). e.has_explicit_field) qualifying,
      any-filter (λ (e : DegreeEntry). true) aligned qualifying,
      any-filter (λ (e : DegreeEntry). e.is_aligned && true) (qualifies rank) es,
      all-filter (λ (e : DegreeEntry). e.has_explicit_field) (qualifies rank) es,
      entries_contradict rank es,
    )

education_fails :
    (rules : HardFilterRules) (es : List DegreeEntry)
    → is_fail (education_check rules es)
      ≡ education_contradicts (required_rank rules.degree_rank) es
unfolding education_check
education_fails rules [] = ground arith
education_fails rules (e ∷ es) =
    ground (arith, entries_fail (required_rank rules.degree_rank) (e ∷ es))

checks_fail :
    (rules : HardFilterRules) (facts : CandidateFacts) (cv : Reading)
    → any is_fail (stage1_checks rules facts cv) ≡ contradicts rules facts cv
unfolding stage1_checks
checks_fail rules facts cv =
    let evidence = evidence_used facts.experience_years cv.experience in
    let known = effective_facts evidence facts in
    rw (
      authorization_fails rules known,
      experience_fails rules evidence known.experience_years known.experience_source,
      education_fails rules cv.degrees,
      skills_fail cv.skills,
    )

-- A candidate is rejected exactly when a fact contradicts the rules: verified ineligibility, known
-- experience below the minimum also by its upper bound, degree entries that are there and that all
-- are clear and too low or in an explicit other field, or a mandatory skill that the CV only negates.
pub evaluate_rejects_iff :
    (rules : HardFilterRules) (facts : CandidateFacts) (cv : Reading)
    → ((evaluate_stage1_hard_filters rules facts cv).status ≡ fail)
      ↔ (contradicts rules facts cv ≡ true)
unfolding evaluate_stage1_hard_filters
evaluate_rejects_iff rules facts cv =
    let e = checks_fail rules facts cv in
    (
      λ h. sym e ∙ (verdict_fail (stage1_checks rules facts cv)).0 h,
      λ h. (verdict_fail (stage1_checks rules facts cv)).1 (e ∙ h),
    )

-- required work authorization is verified
abbrev pub authorization_met : HardFilterRules → CandidateFacts → Bool
authorization_met rules f =
    not rules.require_work_authorization
    || (is_verified f.authorization_source
        && (not (is_unknown f.work_authorized) && not (is_ineligible f.work_authorized)))

-- a minimum is met by verified years
abbrev pub experience_met : HardFilterRules → Option ℕ → AttributeSource → Bool
experience_met rules none source = rules.min_years_experience == 0
experience_met rules (some y) source =
    rules.min_years_experience == 0 || (leb rules.min_years_experience y && is_verified source)

-- a completed entry of a clear level, at least the required one, in an aligned field
abbrev pub entry_meets : ℕ → DegreeEntry → Bool
entry_meets rank e = qualifies rank e && (e.is_aligned && not e.is_in_progress)

abbrev pub skill_met : SkillEvidence → Bool
skill_met s = ltb 0 s.match_weight

abbrev pub meets : HardFilterRules → CandidateFacts → Reading → Bool
meets rules facts cv =
    let known = effective_facts (evidence_used facts.experience_years cv.experience) facts in
    let rank = required_rank rules.degree_rank in
    authorization_met rules known
    && (experience_met rules known.experience_years known.experience_source
        && ((rank == 0 || any (entry_meets rank) cv.degrees) && all skill_met cv.skills))

authorization_passes :
    (rules : HardFilterRules) (f : CandidateFacts)
    → is_pass (authorization_check rules f) ≡ authorization_met rules f
unfolding authorization_check
authorization_passes rules f = ground arith

experience_passes :
    (rules : HardFilterRules) (ev : Option ExperienceEvidence) (years : Option ℕ)
    (s : AttributeSource)
    → is_pass (experience_check rules ev years s) ≡ experience_met rules years s
unfolding experience_check
experience_passes rules ev none s = ground arith
experience_passes rules ev (some y) s = ground arith

skills_pass : (xs : List SkillEvidence) → all is_pass (map skill_check xs) ≡ all skill_met xs
unfolding skill_check
skills_pass [] = refl
skills_pass (x ∷ xs) = ground (arith, skills_pass xs)

entries_pass :
    (rank : ℕ) (es : List DegreeEntry)
    → is_pass (education_entries_check rank es) ≡ any (entry_meets rank) es
unfolding education_entries_check
entries_pass rank es =
    let qualifying = filter (qualifies rank) es in
    ground (
      arith,
      any-filter (λ (e : DegreeEntry). not e.is_in_progress) (λ (e : DegreeEntry). e.is_aligned)
          qualifying,
      any-filter (λ (e : DegreeEntry). e.is_aligned && not e.is_in_progress) (qualifies rank) es,
    )

education_passes :
    (rules : HardFilterRules) (es : List DegreeEntry)
    → is_pass (education_check rules es) ≡ (
        required_rank rules.degree_rank == 0
        || any (entry_meets (required_rank rules.degree_rank)) es)
unfolding education_check
education_passes rules [] = ground arith
education_passes rules (e ∷ es) =
    ground (arith, entries_pass (required_rank rules.degree_rank) (e ∷ es))

checks_pass :
    (rules : HardFilterRules) (facts : CandidateFacts) (cv : Reading)
    → all is_pass (stage1_checks rules facts cv) ≡ meets rules facts cv
unfolding stage1_checks
checks_pass rules facts cv =
    let evidence = evidence_used facts.experience_years cv.experience in
    let known = effective_facts evidence facts in
    rw (
      authorization_passes rules known,
      experience_passes rules evidence known.experience_years known.experience_source,
      education_passes rules cv.degrees,
      skills_pass cv.skills,
    )

-- A candidate passes exactly when every rule is established: required authorization and a minimum of
-- experience by verified facts, a required degree by a completed entry of clear and sufficient level
-- in an aligned field, and every mandatory skill by a term that the CV does not negate.
pub evaluate_passes_iff :
    (rules : HardFilterRules) (facts : CandidateFacts) (cv : Reading)
    → ((evaluate_stage1_hard_filters rules facts cv).status ≡ pass) ↔ (meets rules facts cv ≡ true)
unfolding evaluate_stage1_hard_filters
evaluate_passes_iff rules facts cv =
    let e = checks_pass rules facts cv in
    (
      λ h. sym e ∙ (verdict-pass (stage1_checks rules facts cv)).0 h,
      λ h. (verdict-pass (stage1_checks rules facts cv)).1 (e ∙ h),
    )
