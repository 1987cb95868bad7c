-- ===== src/Scoring/Evidence.antt =====
-- `verify_evidence` of app/stage3_evaluation/evidence.py: the model's citations and claims are checked
-- against the registry of the candidate's own evidence.
pub mod Trust
pub mod Verdict
use Prim.Native.String.{◌++◌ as cat}
use text.Mathlib.Text.{◌==◌ as str_eq}
use ai_cv_screening.Prelude.{
  ℕ, suc, ◌+◌, String, Bool, true, false, not, ◌&&◌, ◌||◌, Option, none, some, List, [], ◌∷◌, ◌++◌,
  if◌then◌else◌, is_some, Result, ok, err, ◌>>=◌, ◌>>◌, raise_if, any, all, map, filter,
}
use ai_cv_screening.Scoring.Schemas.{
  FlagType, FlagDetail, SupportedClaim, LlmEvaluationOutput, CategoryAssessment, EvidenceReference,
  Registry, CitationCheck, EvidenceVerification, member, sorted_set,
}
use ai_cv_screening.Scoring.Outcome.{is_empty, foreign}

-- What regular expressions, `casefold` and the injection scan find in texts, and `str` of an index.
pub record TextTests : Type 0 where
  pub is_citation : String → Bool
  pub is_flagged : String → Bool
  pub is_blank : String → Bool
  pub has_ellipsis : String → Bool
  pub is_quoted : String → String → Bool
  pub is_excerpt : String → String → Bool
  pub has_numbers : String → String → Bool
  pub str : ℕ → String

-- `checks` and `reasons`, which the nested functions write; the reasons as a list
pub record Findings : Type 0 where
  pub checks : List CitationCheck
  pub reasons : List String

abbrev pub add_reason : String → Findings → Findings
add_reason r s = record s { reasons = r ∷ s.reasons }

-- `registry.get(citation)`
abbrev pub lookup : String → Registry → Option EvidenceReference
lookup c [] = none
lookup c (e ∷ rest) = if str_eq e.0 c then some e.1 else lookup c rest

-- the check of one citation or claim, and the reason `label` where it fails
abbrev pub file_check : String → String → String → Option String → Findings → Findings
file_check field label citation reason s = record {
  checks =
      s.checks
      ++ (record {
        field = field;
        citation = citation;
        valid = not (is_some reason);
        reason = reason;
      }
          ∷ []);
  reasons = if is_some reason then label ∷ s.reasons else s.reasons;
}

abbrev pub category_reason : List String → Option EvidenceReference → Option String
category_reason allowed none = some "UNKNOWN_CITATION"
category_reason allowed (some ref) =
    if member ref.category allowed then none else some "WRONG_CATEGORY"

abbrev pub citation_reason : TextTests → Registry → List String → String → Option String
citation_reason texts registry allowed c =
    if not (texts.is_citation c)
    then some "MALFORMED_CITATION"
    else category_reason allowed (lookup c registry)

-- the loop of `check_citations`, with its `valid`
abbrev pub citations_loop :
    TextTests → Registry → String → List String → List String → Findings → Bool × Findings
citations_loop texts registry field allowed [] s = (true, s)
citations_loop texts registry field allowed (c ∷ cs) s =
    let reason = citation_reason texts registry allowed c in
    let rest =
      citations_loop texts registry field allowed cs
        (file_check field (cat "INVALID_CITATIONS:" field) c reason s) in
    (not (is_some reason) && rest.0, rest.1)

abbrev pub check_citations :
    TextTests → Registry → String → List String → List String → Findings → Bool × Findings
check_citations texts registry field [] allowed s =
    (false, add_reason (cat "MISSING_CITATIONS:" field) s)
check_citations texts registry field (c ∷ cs) allowed s =
    citations_loop texts registry field allowed (c ∷ cs) s

-- the truth of an optional text
abbrev pub given : Option String → Bool
given none = false
given (some s) = not (str_eq s "")

abbrev pub same_id : Option String → Option String → Bool
same_id none none = true
same_id none (some b) = false
same_id (some a) none = false
same_id (some a) (some b) = str_eq a b

-- a chain of `if` and `elif` that assigns the reason of the first test that holds
abbrev pub first_reason : List (Bool × String) → Option String
first_reason [] = none
first_reason (e ∷ rest) = if e.0 then some e.1 else first_reason rest

-- the tests of one claim, for the reference that it cites
abbrev pub claim_tests :
    TextTests
    → List String
    → List String
    → SupportedClaim
    → EvidenceReference
    → List (Bool × String)
claim_tests texts citations allowed c ref =
    (
      not (member ref.category allowed) || not (member c.citation citations),
      "INVALID_CLAIM_CITATION",
    )
    ∷ ((texts.is_blank c.claim || texts.is_blank c.quote, "EMPTY_CLAIM_SUPPORT")
        ∷ ((not (given c.evidence_id) && texts.has_ellipsis c.quote, "ELLIPSIS_IN_QUOTE")
            ∷ ((not (texts.is_quoted c.quote ref.text), "QUOTE_NOT_IN_SOURCE")
                ∷ ((
                  given c.evidence_id && not (same_id c.evidence_id ref.evidence_id),
                  "INVALID_EVIDENCE_ID",
                )
                    ∷ ((
                      given c.evidence_id && not (texts.is_excerpt c.claim ref.text),
                      "CLAIM_NOT_EXPLICIT_IN_SOURCE",
                    )
                        ∷ ((not (texts.has_numbers c.claim c.quote), "NUMERIC_CLAIM_NOT_IN_QUOTE")
                            ∷ []))))))

abbrev pub found_reason :
    TextTests
    → List String
    → List String
    → SupportedClaim
    → Option EvidenceReference
    → Option String
found_reason texts citations allowed c none = some "INVALID_CLAIM_CITATION"
found_reason texts citations allowed c (some ref) =
    first_reason (claim_tests texts citations allowed c ref)

abbrev pub claim_reason :
    TextTests → Registry → List String → List String → SupportedClaim → Option String
claim_reason texts registry citations allowed c =
    found_reason texts citations allowed c (lookup c.citation registry)

-- `valid`, `supported` and what `check_support` has written
pub record Support : Type 0 where
  pub valid : Bool
  pub supported : List String
  pub findings : Findings

abbrev pub judge_claim : String → SupportedClaim → Option String → Support → Support
judge_claim field c reason st = record {
  valid = not (is_some reason) && st.valid;
  supported = if is_some reason then st.supported else c.citation ∷ st.supported;
  findings =
      file_check (cat field ".claims") (cat "UNSUPPORTED_CLAIM:" field) c.citation reason
        st.findings;
}

abbrev pub claims_loop :
    TextTests
    → Registry
    → String
    → List String
    → List String
    → List SupportedClaim
    → Support
    → Support
claims_loop texts registry field citations allowed [] st = st
claims_loop texts registry field citations allowed (c ∷ cs) st =
    claims_loop texts registry field citations allowed cs
      (judge_claim field c (claim_reason texts registry citations allowed c) st)

abbrev pub lacks_support : String → Support → Support
lacks_support field st = record st {
  valid = false;
  findings = add_reason (cat "MISSING_CLAIM_SUPPORT:" field) st.findings;
}

abbrev pub lacks_if : Bool → String → Support → Support
lacks_if true field st = lacks_support field st
lacks_if false field st = st

abbrev pub unsupported : List String → List String → Bool
unsupported citations supported = any (λ c. not (member c supported)) citations

abbrev pub check_support :
    TextTests
    → Registry
    → Bool
    → String
    → List String
    → List SupportedClaim
    → List String
    → Findings
    → Support
check_support texts registry required field citations claims allowed s =
    let begun =
      lacks_if (required && (not (is_empty citations) && is_empty claims)) field
        (record { valid = true; supported = []; findings = s }) in
    let looped = claims_loop texts registry field citations allowed claims begun in
    lacks_if (required && unsupported citations looped.supported) field looped

abbrev pub is_in_category : String → String × EvidenceReference → Bool
is_in_category category e = str_eq e.1.category category

abbrev pub miss_if : Bool → String → Findings → Findings
miss_if true category s = add_reason (cat "MISSING_EVIDENCE:" category) s
miss_if false category s = s

-- the body of the loop over the categories; `field` is the category in lower case
abbrev pub check_category :
    TextTests → Registry → Bool → String → String → CategoryAssessment → Findings → Findings
check_category texts registry required category field a s =
    let begun = miss_if (not (any (is_in_category category) registry)) category s in
    let cited = check_citations texts registry field a.citations (category ∷ []) begun in
    (check_support texts registry required field a.citations a.claims (category ∷ [])
      cited.1).findings

abbrev pub categories : List String
categories = "SKILLS" ∷ ("EXPERIENCE" ∷ ("PROJECTS" ∷ ("EDUCATION" ∷ [])))

abbrev pub allowed_for : FlagType → List String
allowed_for FlagType.evidenced_career_gap = "EXPERIENCE" ∷ []
allowed_for _ = categories

abbrev pub flag_field : TextTests → ℕ → String
flag_field texts i = cat "flags[" (cat (texts.str i) "]")

-- the loop over the flags, from index `i`, with `verified_flags`
abbrev pub check_flags :
    TextTests → Registry → Bool → ℕ → List FlagDetail → Findings → Findings × List ℕ
check_flags texts registry required i [] s = (s, [])
check_flags texts registry required i (f ∷ fs) s =
    let field = flag_field texts i in
    let allowed = allowed_for f.type in
    let cited = check_citations texts registry field f.citations allowed s in
    let support =
      check_support texts registry required field f.citations f.claims allowed cited.1 in
    let rest = check_flags texts registry required (suc i) fs support.findings in
    (rest.0, if cited.0 && support.valid then i ∷ rest.1 else rest.1)

abbrev pub check_categories :
    TextTests → Registry → Bool → LlmEvaluationOutput → Findings → Findings
check_categories texts registry required o s =
    check_category texts registry required "EDUCATION" "education" o.education (
      check_category texts registry required "PROJECTS" "projects" o.projects (
        check_category texts registry required "EXPERIENCE" "experience" o.experience
          (check_category texts registry required "SKILLS" "skills" o.skills s)))

-- the signals of the references' texts
abbrev pub flagged_signals : TextTests → Registry → List String
flagged_signals texts [] = []
flagged_signals texts (e ∷ rest) =
    let later = flagged_signals texts rest in
    if texts.is_flagged e.1.text then cat "EVIDENCE_INJECTION_SIGNAL:" e.0 ∷ later else later

abbrev pub reason_if : Bool → String → Findings → Findings
reason_if true r s = add_reason r s
reason_if false r s = s

unfoldable pub verify_evidence :
    TextTests
    → LlmEvaluationOutput
    → Registry
    → String
    → List String
    → Bool
    → Bool
    → Result EvidenceVerification
verify_evidence texts o registry candidate_id injection_signals required context_complete =
    let signals = injection_signals ++ flagged_signals texts registry in
    let begun =
      reason_if (not context_complete) "EVIDENCE_CONTEXT_TRUNCATED"
        (record { checks = []; reasons = [] }) in
    let flags =
      check_flags texts registry required 0 o.flags
        (check_categories texts registry required o begun) in
    let done = reason_if (not (is_empty signals)) "INJECTION_SIGNAL_REQUIRES_REVIEW" flags.0 in
    do
      raise_if (any (foreign candidate_id) registry) "Cross-candidate registry"
      ok (record {
        registry = registry;
        checks = done.checks;
        review_reasons = sorted_set done.reasons;
        verified_flag_indices = flags.1;
        injection_signals = sorted_set signals;
      })
