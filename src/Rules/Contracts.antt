-- ===== src/Rules/Contracts.antt =====
-- The contracts of app/stage1_rules/contracts.py: rules, candidate inputs and the facts made of them.
--
-- Years of experience are numbers in a unit fine enough for all that are compared. Texts that a
-- regular expression reads stand for what it finds.
use ai_cv_screening.Prelude.{
  ℕ, Bool, true, false, not, ◌&&◌, Option, none, some, if◌then◌else◌, is_some, Result, ok, err,
}

pub data AuthorizationStatus : Type 0 where
  eligible ineligible unknown : AuthorizationStatus

pub data AttributeSource : Type 0 where
  recruiter_verified cv_extracted unknown : AttributeSource

-- A degree requirement: the rank of its level in `DEGREE_HIERARCHY`. Whether an entry's field is
-- aligned with it is found by regular expressions and stands with the entry.
pub record HardFilterRules : Type 0 where
  pub min_years_experience : ℕ
  pub degree_rank : Option ℕ
  pub require_work_authorization : Bool

pub record CandidateFacts : Type 0 where
  pub experience_years : Option ℕ
  pub experience_source : AttributeSource
  pub work_authorized : AuthorizationStatus
  pub authorization_source : AttributeSource

pub record CandidateAttributes : Type 0 where
  pub experience_years : Option ℕ
  pub experience_source : AttributeSource
  pub work_authorized : AuthorizationStatus
  pub authorization_source : AttributeSource

pub record RecruiterOverrides : Type 0 where
  pub experience_years : Option ℕ
  pub work_authorized : Option AuthorizationStatus

-- `work_authorized_set` is `"work_authorized" in self.model_fields_set`.
pub record CandidateInput : Type 0 where
  pub work_authorized : AuthorizationStatus
  pub work_authorized_set : Bool
  pub authorization_source : AttributeSource
  pub parsed_attributes : CandidateAttributes
  pub recruiter_overrides : RecruiterOverrides

abbrev pub is_unknown : AuthorizationStatus → Bool
is_unknown AuthorizationStatus.unknown = true
is_unknown _ = false

abbrev pub is_ineligible : AuthorizationStatus → Bool
is_ineligible AuthorizationStatus.ineligible = true
is_ineligible _ = false

abbrev pub same_authorization : AuthorizationStatus → AuthorizationStatus → Bool
same_authorization AuthorizationStatus.eligible AuthorizationStatus.eligible = true
same_authorization AuthorizationStatus.ineligible AuthorizationStatus.ineligible = true
same_authorization AuthorizationStatus.unknown AuthorizationStatus.unknown = true
same_authorization _ _ = false

abbrev pub is_verified : AttributeSource → Bool
is_verified AttributeSource.recruiter_verified = true
is_verified _ = false

-- The validator `consistent_authorization`.
unfoldable pub consistent_authorization : CandidateInput → Result CandidateInput
consistent_authorization c =
    let nested = c.parsed_attributes.work_authorized in
    if not (is_unknown c.work_authorized)
      && (not (is_unknown nested)
          && (not (same_authorization c.work_authorized nested)
              && not (is_some c.recruiter_overrides.work_authorized)))
    then err "Conflicting authorization inputs require an explicit recruiter override"
    else ok c

-- the facts before the recruiter's overrides
abbrev pub reported_facts : CandidateInput → CandidateFacts
reported_facts c = record {
  experience_years = c.parsed_attributes.experience_years;
  experience_source = c.parsed_attributes.experience_source;
  work_authorized =
      if c.work_authorized_set then c.work_authorized else c.parsed_attributes.work_authorized;
  authorization_source =
      if c.work_authorized_set
      then c.authorization_source
      else c.parsed_attributes.authorization_source;
}

abbrev override_experience : Option ℕ → CandidateFacts → CandidateFacts
override_experience none f = f
override_experience (some y) f = record f {
  experience_years = some y;
  experience_source = AttributeSource.recruiter_verified;
}

abbrev override_authorization : Option AuthorizationStatus → CandidateFacts → CandidateFacts
override_authorization none f = f
override_authorization (some a) f = record f {
  work_authorized = a;
  authorization_source = AttributeSource.recruiter_verified;
}

unfoldable pub rule_facts : CandidateInput → CandidateFacts
rule_facts c =
    override_authorization c.recruiter_overrides.work_authorized
      (override_experience c.recruiter_overrides.experience_years (reported_facts c))
