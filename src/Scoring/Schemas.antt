-- ===== src/Scoring/Schemas.antt =====
-- The records of app/stage3_evaluation/schemas.py.
use Prim.Native.Nat.{Ordering}
use Prim.Native.String
use text.Mathlib.Text.{◌==◌ as str_eq}
use ai_cv_screening.Prelude.{
  ℕ, String, Bool, true, false, not, Option, List, [], ◌∷◌, map, filter, any, sort_by,
  if◌then◌else◌,
}
use ai_cv_screening.Scoring.Weights.{DecisionTier, Scores}

pub data FlagType : Type 0 where
  documented_inconsistency evidenced_career_gap missing_information : FlagType

pub data Severity : Type 0 where
  low medium high critical : Severity

pub data EvaluationStatus : Type 0 where
  success review_required evaluation_failed : EvaluationStatus

pub record SupportedClaim : Type 0 where
  pub claim : String
  pub citation : String
  pub quote : String
  pub evidence_id : Option String

pub record FlagDetail : Type 0 where
  pub type : FlagType
  pub severity : Severity
  pub citations : List String
  pub claims : List SupportedClaim

pub record CategoryAssessment : Type 0 where
  pub score : ℕ
  pub citations : List String
  pub claims : List SupportedClaim

pub record LlmEvaluationOutput : Type 0 where
  pub skills : CategoryAssessment
  pub experience : CategoryAssessment
  pub projects : CategoryAssessment
  pub education : CategoryAssessment
  pub flags : List FlagDetail

pub record EvidenceReference : Type 0 where
  pub candidate_id : String
  pub category : String
  pub source_category : String
  pub chunk_id : String
  pub document_id : Option String
  pub text : String
  pub evidence_id : Option String
  pub sentence_start : Option ℕ
  pub sentence_end : Option ℕ

-- the registry's dict, in the order of its insertions
abbrev pub Registry : Type 0
Registry = List (String × EvidenceReference)

pub record CitationCheck : Type 0 where
  pub field : String
  pub citation : String
  pub valid : Bool
  pub reason : Option String

pub record EvidenceVerification : Type 0 where
  pub registry : Registry
  pub checks : List CitationCheck
  pub review_reasons : List String
  pub verified_flag_indices : List ℕ
  pub injection_signals : List String

pub record FinalCandidateEvaluation : Type 0 where
  pub candidate_id : String
  pub evaluation_status : EvaluationStatus
  pub scoring_policy_version : String
  pub composite_score : Option ℕ
  pub tier : Option DecisionTier
  pub category_scores : Scores
  pub llm_raw_output : Option LlmEvaluationOutput
  pub verified_citations : List String
  pub invalid_citations : List String
  pub has_critical_flags : Bool
  pub review_reasons : List String
  pub error_code : Option String
  pub error_message : Option String
  pub evidence_verification : Option EvidenceVerification
  pub is_mock : Bool

-- Python orders texts by their code points.
abbrev pub str_le : String → String → Bool
str_le a b = elim (String.compare a b) [ Ordering.gt ↦ false | _ ↦ true ]

abbrev pub member : String → List String → Bool
member s xs = any (λ x. str_eq x s) xs

-- the elements of a set, each once
abbrev pub distinct : List String → List String
distinct [] = []
distinct (x ∷ xs) = let rest = distinct xs in if member x rest then rest else x ∷ rest

-- `sorted(set(xs))`
abbrev pub sorted_set : List String → List String
sorted_set xs = sort_by str_le (distinct xs)

abbrev pub verified_citations : EvidenceVerification → List String
verified_citations v =
    sorted_set
      (map (λ (c : CitationCheck). c.citation) (filter (λ (c : CitationCheck). c.valid) v.checks))

abbrev pub invalid_citations : EvidenceVerification → List String
invalid_citations v =
    sorted_set (
      map (λ (c : CitationCheck). c.citation)
        (filter (λ (c : CitationCheck). not c.valid) v.checks))
