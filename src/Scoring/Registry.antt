-- ===== src/Scoring/Registry.antt =====
-- `build_evidence_registry` of app/stage3_evaluation/evidence.py, on the payload that
-- `prepare_evaluation_context` returns.
pub mod Ownership
use Prim.Native.Char.{Char, code}
use Prim.Native.String
use Prim.Native.String.{◌++◌ as cat}
use text.Mathlib.Text.{◌==◌ as str_eq}
use ai_cv_screening.Prelude.{
  ℕ, suc, String, Bool, true, false, not, ◌&&◌, ◌||◌, Option, none, some, List, [], ◌∷◌, ◌++◌, ◌==◌,
  leb, if◌then◌else◌, Result, ok, err, ◌>>=◌, ◌>>◌, raise_if, any, all,
}
use ai_cv_screening.Scoring.Schemas.{EvidenceReference, Registry, member}
use ai_cv_screening.Scoring.Evidence.{categories, given, same_id}

abbrev between : ℕ → ℕ → ℕ → Bool
between low high c = leb low c && leb c high

abbrev pub is_xml_char : ℕ → Bool
is_xml_char c =
    c == 9
    || (c == 10
        || (c == 13 || (between 32 55295 c || (between 57344 65533 c || between 65536 1114111 c))))

-- the test of `checked_text`
abbrev pub is_xml : String → Bool
is_xml String.[] = true
is_xml (String.◌∷◌ c s) = is_xml_char (code c) && is_xml s

-- An element of `evidence_by_category`. `location` is the result of `SourceLocation.model_validate`.
pub record Chunk : Type 0 where
  pub candidate_id : Option String
  pub text : String
  pub category : Option String
  pub location : Result String
  pub chunk_id : Option String
  pub document_id : Option String

pub record EvidencePayload : Type 0 where
  pub candidate_id : Option String
  pub evidence_by_category : List (String × List Chunk)

-- `strip`, `str` of an index, and `stable_identity`, which hashes
pub record Identities : Type 0 where
  pub is_blank : String → Bool
  pub str : ℕ → String
  pub stable_identity : List (Option String) → String

-- a key and a value of `identities`
pub record Seen : Type 0 where
  pub document_id : Option String
  pub chunk_id : String
  pub text : String
  pub source_category : String
  pub location : String

pub record Building : Type 0 where
  pub registry : Registry
  pub identities : List Seen

abbrev pub or_default : String → Option String → String
or_default d none = d
or_default d (some s) = s

abbrev pub allowed_sources : String → List String
allowed_sources category =
    if str_eq category "SKILLS"
    then "CONTEXT" ∷ ("SKILLS" ∷ ("EXPERIENCE" ∷ ("PROJECTS" ∷ [])))
    else if str_eq category "EXPERIENCE" || str_eq category "PROJECTS"
    then "CONTEXT" ∷ ("EXPERIENCE" ∷ ("PROJECTS" ∷ []))
    else "CONTEXT" ∷ ("EDUCATION" ∷ [])

-- `chunk.get("chunk_id") or "snapshot:" + ...`
abbrev pub identity_of : Identities → String → String → String → Chunk → String
identity_of ids cid source location c =
    if given c.chunk_id
    then or_default "" c.chunk_id
    else cat "snapshot:"
        (ids.stable_identity (some cid ∷ (some source ∷ (some location ∷ (some c.text ∷ [])))))

abbrev pub conflicts : Seen → Seen → Bool
conflicts new old =
    same_id old.document_id new.document_id
    && (str_eq old.chunk_id new.chunk_id
        && not (
            str_eq old.text new.text
            && (str_eq old.source_category new.source_category
                && str_eq old.location new.location)))

abbrev pub seen_of : String → String → String → Chunk → Seen
seen_of source location chunk_id c = record {
  document_id = c.document_id;
  chunk_id = chunk_id;
  text = c.text;
  source_category = source;
  location = location;
}

abbrev pub new_reference : Identities → String → String → Seen → EvidenceReference
new_reference ids cid category s = record {
  candidate_id = cid;
  category = category;
  source_category = s.source_category;
  chunk_id = s.chunk_id;
  document_id = s.document_id;
  text = s.text;
  evidence_id = some (
      cat "ev_" (
        ids.stable_identity (
          some cid
          ∷ (some category
              ∷ (s.document_id
                  ∷ (some s.chunk_id
                      ∷ (some s.source_category ∷ (some s.location ∷ (some s.text ∷ [])))))))));
  sentence_start = none;
  sentence_end = none;
}

abbrev pub tag : Identities → String → ℕ → String
tag ids category index = cat category (cat ":" (ids.str index))

abbrev pub register : Identities → String → String → ℕ → Seen → Building → Building
register ids cid category index s b = record {
  registry = b.registry ++ ((tag ids category index, new_reference ids cid category s) ∷ []);
  identities = s ∷ b.identities;
}

-- the body of the inner loop for a chunk whose text is not blank
abbrev pub add_text : Identities → String → String → ℕ → Chunk → Building → Result Building
add_text ids cid category index c b =
    let source = or_default category c.category in
    do
      raise_if (not (member source (allowed_sources category))) "Invalid source category"
      location ← c.location
      let chunk_id = identity_of ids cid source location c
      let s = seen_of source location chunk_id c
      raise_if (not (is_xml chunk_id)) "Invalid XML text"
      raise_if (ids.is_blank chunk_id) "Empty chunk identity"
      raise_if (any (conflicts s) b.identities) "Conflicting chunk identity"
      ok (register ids cid category index s b)

abbrev pub add_chunk : Identities → String → String → ℕ → Chunk → Building → Result Building
add_chunk ids cid category index c b = do
  raise_if (not (str_eq (or_default cid c.candidate_id) cid)) "Invalid evidence ownership"
  raise_if (not (is_xml c.text)) "Invalid XML text"
  if ids.is_blank c.text then ok b else add_text ids cid category index c b

-- `for index, chunk in enumerate(chunks, 1)`
unfoldable pub add_chunks :
    Identities → String → String → ℕ → List Chunk → Building → Result Building
add_chunks ids cid category index [] b = ok b
add_chunks ids cid category index (c ∷ rest) b = do
  added ← add_chunk ids cid category index c b
  add_chunks ids cid category (suc index) rest added

-- `evidence_map.get(category, [])`
abbrev pub chunks_of : String → List (String × List Chunk) → List Chunk
chunks_of category [] = []
chunks_of category (e ∷ rest) = if str_eq e.0 category then e.1 else chunks_of category rest

unfoldable pub add_categories :
    Identities → String → List (String × List Chunk) → List String → Building → Result Building
add_categories ids cid evidence [] b = ok b
add_categories ids cid evidence (category ∷ rest) b = do
  added ← add_chunks ids cid category 1 (chunks_of category evidence) b
  add_categories ids cid evidence rest added

abbrev pub unknown_category : String × List Chunk → Bool
unknown_category e = not (member e.0 categories)

unfoldable pub build_evidence_registry : Identities → String → EvidencePayload → Result Registry
build_evidence_registry ids cid payload = do
  raise_if (not (is_xml cid)) "Invalid XML text"
  raise_if (not (str_eq (or_default cid payload.candidate_id) cid))
      "Evidence belongs to another candidate"
  raise_if (any unknown_category payload.evidence_by_category) "Invalid evidence categories"
  built ←
      add_categories ids cid payload.evidence_by_category categories
        (record { registry = []; identities = [] })
  ok built.registry
