-- ===== src/Rules/Engine.antt =====
-- `evaluate_stage1_hard_filters` of app/stage1_rules/rules_engine.py. What regular expressions find
-- in the CV (degree entries, experience, skill terms) is an input.
pub mod Verdicts
use ai_cv_screening.Prelude.{
  ℕ, String, Bool, true, false, not, ◌&&◌, Option, none, some, List, [], ◌∷◌, map, ltb, leb, ◌==◌,
  if◌then◌else◌, filter, any, all,
}
use ai_cv_screening.Rules.Contracts.{
  AttributeSource, HardFilterRules, CandidateFacts, is_unknown, is_ineligible, is_verified,
}

pub data Decision : Type 0 where
  pass review fail : Decision

pub record Check : Type 0 where
  pub rule : String
  pub status : Decision
  pub code : String

pub record Details : Type 0 where
  pub status : Decision
  pub checks : List Check

-- one entry of `parse_degree_entries`, with the results of `check_field_alignment` and
-- `_has_explicit_field` on it
pub record DegreeEntry : Type 0 where
  pub level_rank : ℕ
  pub is_in_progress : Bool
  pub is_ambiguous : Bool
  pub is_aligned : Bool
  pub has_explicit_field : Bool

-- the result of `extract_experience`; an overall claim has no `years_upper_bound`
pub record ExperienceEvidence : Type 0 where
  pub years : ℕ
  pub years_upper_bound : Option ℕ

-- the result of `required_skill_evidence` for one mandatory cluster, its weight in quarters
pub record SkillEvidence : Type 0 where
  pub match_weight : ℕ
  pub negated : Bool

-- what is read from the CV
pub record Reading : Type 0 where
  pub experience : Option ExperienceEvidence
  pub degrees : List DegreeEntry
  pub skills : List SkillEvidence

abbrev pub is_review : Check → Bool
is_review c = elim c.status [ review ↦ true | _ ↦ false ]

abbrev pub is_fail : Check → Bool
is_fail c = elim c.status [ fail ↦ true | _ ↦ false ]

abbrev pub outcome : String → Decision → String → Check
outcome rule status code = record { rule = rule; status = status; code = code }

-- `extract_experience` is called only when no years were reported, and gives the source CV_EXTRACTED
abbrev pub effective_facts : Option ExperienceEvidence → CandidateFacts → CandidateFacts
effective_facts none f = f
effective_facts (some e) f = record f {
  experience_years = some e.years;
  experience_source = AttributeSource.cv_extracted;
}

abbrev pub evidence_used : Option ℕ → Option ExperienceEvidence → Option ExperienceEvidence
evidence_used none e = e
evidence_used (some y) e = none

authorization_check : HardFilterRules → CandidateFacts → Check
authorization_check rules facts =
    if not rules.require_work_authorization
    then outcome "authorization" pass "AUTHORIZATION_NOT_REQUIRED"
    else if is_unknown facts.work_authorized
    then outcome "authorization" review "AUTHORIZATION_UNKNOWN"
    else if not (is_verified facts.authorization_source)
    then outcome "authorization" review "AUTHORIZATION_UNVERIFIED"
    else if is_ineligible facts.work_authorized
    then outcome "authorization" fail "AUTHORIZATION_INELIGIBLE"
    else outcome "authorization" pass "AUTHORIZATION_ELIGIBLE"

-- `experience_evidence.get("years_upper_bound", facts.experience_years)`
abbrev upper_bound : ℕ → ExperienceEvidence → ℕ
upper_bound years e = elim e.years_upper_bound [ none ↦ years | some u ↦ u ]

-- `experience_evidence and upper bound >= minimum`
abbrev pub boundary_open : ℕ → ℕ → Option ExperienceEvidence → Bool
boundary_open least years none = false
boundary_open least years (some e) = leb least (upper_bound years e)

experience_check : HardFilterRules → Option ExperienceEvidence → Option ℕ → AttributeSource → Check
experience_check rules evidence none source =
    if rules.min_years_experience == 0
    then outcome "experience" pass "EXPERIENCE_NOT_REQUIRED"
    else outcome "experience" review "EXPERIENCE_UNKNOWN"
experience_check rules evidence (some years) source =
    if rules.min_years_experience == 0
    then outcome "experience" pass "EXPERIENCE_NOT_REQUIRED"
    else if ltb years rules.min_years_experience
    then (if boundary_open rules.min_years_experience years evidence
        then outcome "experience" review "EXPERIENCE_DATE_PRECISION"
        else outcome "experience" fail "INSUFFICIENT_EXPERIENCE")
    else if not (is_verified source)
    then outcome "experience" review "EXPERIENCE_UNVERIFIED"
    else outcome "experience" pass "EXPERIENCE_MET"

-- the list comprehensions `qualifying` and `matching`
abbrev pub qualifies : ℕ → DegreeEntry → Bool
qualifies rank e = leb rank e.level_rank && not e.is_ambiguous

abbrev pub matches : ℕ → DegreeEntry → Bool
matches rank e = qualifies rank e && e.is_aligned

abbrev pub required_rank : Option ℕ → ℕ
required_rank none = 0
required_rank (some r) = r

-- the last `else` of the education chain, for entries that are there
education_entries_check : ℕ → List DegreeEntry → Check
education_entries_check rank entries =
    let qualifying = filter (qualifies rank) entries in
    let matching = filter (λ (e : DegreeEntry). e.is_aligned) qualifying in
    if any (λ (e : DegreeEntry). not e.is_in_progress) matching
    then outcome "education" pass "EDUCATION_MET"
    else if any (λ (e : DegreeEntry). true) matching
    then outcome "education" review "EDUCATION_IN_PROGRESS"
    else if any (λ (e : DegreeEntry). e.is_ambiguous) entries
    then outcome "education" review "EDUCATION_AMBIGUOUS"
    else if any (λ (e : DegreeEntry). true) qualifying
    then (if all (λ (e : DegreeEntry). e.has_explicit_field) qualifying
        then outcome "education" fail "EDUCATION_FIELD_MISMATCH"
        else outcome "education" review "EDUCATION_FIELD_UNKNOWN")
    else outcome "education" fail "EDUCATION_LEVEL_MISMATCH"

education_check : HardFilterRules → List DegreeEntry → Check
unfolding education_entries_check
education_check rules [] =
    if required_rank rules.degree_rank == 0
    then outcome "education" pass "EDUCATION_NOT_REQUIRED"
    else outcome "education" review "EDUCATION_UNKNOWN"
education_check rules (e ∷ entries) =
    if required_rank rules.degree_rank == 0
    then outcome "education" pass "EDUCATION_NOT_REQUIRED"
    else education_entries_check (required_rank rules.degree_rank) (e ∷ entries)

skill_check : SkillEvidence → Check
skill_check s =
    if ltb 0 s.match_weight
    then outcome "skill" pass "REQUIRED_SKILL_FOUND"
    else if s.negated
    then outcome "skill" fail "REQUIRED_SKILL_NEGATED"
    else outcome "skill" review "REQUIRED_SKILL_NOT_DOCUMENTED"

stage1_checks : HardFilterRules → CandidateFacts → Reading → List Check
unfolding authorization_check experience_check education_check skill_check
stage1_checks rules facts cv =
    let evidence = evidence_used facts.experience_years cv.experience in
    let known = effective_facts evidence facts in
    authorization_check rules known
    ∷ (experience_check rules evidence known.experience_years known.experience_source
        ∷ (education_check rules cv.degrees ∷ map skill_check cv.skills))

-- `"FAIL" if failed else "REVIEW" if review else "PASS"`
abbrev pub verdict : List Check → Decision
verdict checks = if any is_fail checks then fail else if any is_review checks then review else pass

unfoldable pub evaluate_stage1_hard_filters : HardFilterRules → CandidateFacts → Reading → Details
unfolding stage1_checks
evaluate_stage1_hard_filters rules facts cv =
    let checks = stage1_checks rules facts cv in record { status = verdict checks; checks = checks }
