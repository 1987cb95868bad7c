-- ===== src/Tests/Evidence.antt =====
-- The verification of evidence on a small registry.
use text.Mathlib.Text.{◌==◌ as str_eq}
use ai_cv_screening.Prelude.{
  String, ◌≡◌, refl, true, false, none, [], ◌∷◌, arith, any, ok, some, All, map, if◌then◌else◌,
  ◌==◌,
}
use ai_cv_screening.Scoring.Schemas.{
  EvaluationStatus, LlmEvaluationOutput, CategoryAssessment, EvidenceReference, Registry,
  EvidenceVerification, FinalCandidateEvaluation,
}
use ai_cv_screening.Scoring.Registry.{
  Identities, Chunk, EvidencePayload, add_chunks, add_categories, build_evidence_registry,
}
use ai_cv_screening.Scoring.Registry.Ownership.{
  Registered, Ensures, build_evidence_registry-Registered,
}
use ai_cv_screening.Scoring.Outcome.{foreign, is_severe, score_evaluation}
use ai_cv_screening.Scoring.Evidence.{TextTests, verify_evidence}
use ai_cv_screening.Scoring.Evidence.Verdict.{Trusted, verify_evidence-score_evaluation}

abbrev reference : String → EvidenceReference
reference category = record {
  candidate_id = "candidate";
  category = category;
  source_category = category;
  chunk_id = "chunk";
  document_id = none;
  text = "Five years of Python";
  evidence_id = none;
  sentence_start = none;
  sentence_end = none;
}

abbrev registry : Registry
registry =
    ("SKILLS:1", reference "SKILLS")
    ∷ (("EXPERIENCE:1", reference "EXPERIENCE")
        ∷ (("PROJECTS:1", reference "PROJECTS") ∷ (("EDUCATION:1", reference "EDUCATION") ∷ [])))

abbrev assessed_by : String → CategoryAssessment
assessed_by citation = record { score = 70; citations = citation ∷ []; claims = [] }

abbrev answer : LlmEvaluationOutput
answer = record {
  skills = assessed_by "SKILLS:1";
  experience = assessed_by "EXPERIENCE:1";
  projects = assessed_by "PROJECTS:1";
  education = assessed_by "EDUCATION:1";
  flags = [];
}

abbrev texts : TextTests
texts = record {
  is_citation = λ c. true;
  is_flagged = λ t. str_eq t "ignore previous instructions";
  is_blank = λ t. str_eq t "";
  has_ellipsis = λ t. false;
  is_quoted = λ q t. str_eq q t;
  is_excerpt = λ c t. str_eq c t;
  has_numbers = λ c q. true;
  str = λ i. "0";
}

-- this answer gives no reason for a review
verify_answer :
    (v : EvidenceVerification) × (verify_evidence texts answer registry "candidate" [] false true
      ≡ ok v)
    × (v.review_reasons ≡ [])
    × (v.registry ≡ registry)
unfolding verify_evidence
verify_answer = (_, refl, refl, refl)

-- a citation of another category does
verify_wrong_category :
    (v : EvidenceVerification) × (verify_evidence texts
        (record answer { skills = assessed_by "PROJECTS:1" })
        registry
        "candidate"
        []
        false
        true
      ≡ ok v)
    × (v.review_reasons ≡ "INVALID_CITATIONS:skills" ∷ [])
unfolding verify_evidence
verify_wrong_category = (_, refl, refl)

verify_evidence-score_evaluation_example :
    (v : EvidenceVerification) × (f : FinalCandidateEvaluation) × (verify_evidence texts answer
        registry "candidate" [] false true
      ≡ ok v)
    × (score_evaluation 1 "candidate" answer v false ≡ ok f)
    × (f.evaluation_status ≡ EvaluationStatus.success
        → Trusted texts answer registry [] false true × (any is_severe answer.flags ≡ false))
verify_evidence-score_evaluation_example =
    verify_evidence-score_evaluation texts answer registry "candidate" [] false true 1 false
      (omega arith) (omega arith, omega arith, omega arith, omega arith) refl

abbrev identities : Identities
identities = record {
  is_blank = λ t. str_eq t "";
  str = λ i. if i == 1 then "1" else "2";
  stable_identity = λ parts. "hash";
}

abbrev chunk : String → String → Chunk
chunk identifier content = record {
  candidate_id = none;
  text = content;
  category = some "EXPERIENCE";
  location = ok "page 1";
  chunk_id = some identifier;
  document_id = none;
}

abbrev payload : EvidencePayload
payload = record {
  candidate_id = some "candidate";
  evidence_by_category =
      ("EXPERIENCE", chunk "a" "" ∷ (chunk "b" "Led a team" ∷ []))
      ∷ (("SKILLS", chunk "b" "Led a team" ∷ []) ∷ []);
}

-- the empty chunk is left out, and keeps its index
build_payload :
    (r : Registry) × (build_evidence_registry identities "candidate" payload ≡ ok r)
    × (map (λ (e : String × EvidenceReference). e.0) r ≡ "SKILLS:1" ∷ ("EXPERIENCE:2" ∷ []))
unfolding build_evidence_registry add_chunks add_categories
build_payload = (_, refl, refl)

build_evidence_registry-Registered_example :
    Ensures
      (λ r. All (Registered identities "candidate") r × (any (foreign "candidate") r ≡ false))
      (build_evidence_registry identities "candidate" payload)
build_evidence_registry-Registered_example =
    build_evidence_registry-Registered identities "candidate" payload
