-- ===== src/Scoring/Registry/Ownership.antt =====
-- The references that `build_evidence_registry` of app/stage3_evaluation/evidence.py registers.
use mathlib.Core.Bool.{true≢false}
use text.Mathlib.TextPositions.{eq_refl}
use text.Mathlib.Text.{◌==◌ as str_eq}
use ai_cv_screening.Prelude.{
  ℕ, suc, String, Bool, true, false, not, List, [], ◌∷◌, ◌++◌, Result, ok, err, ◌>>=◌, ◌>>◌,
  raise_if, any, All, Bool-cases, ◌≡◌, refl, inl, inr,
}
use ai_cv_screening.Scoring.Schemas.{EvidenceReference, Registry, member}
use ai_cv_screening.Scoring.Outcome.{foreign}
use ai_cv_screening.Scoring.Evidence.{categories}
use ai_cv_screening.Scoring.Registry.{
  is_xml, Chunk, EvidencePayload, Identities, Building, or_default, allowed_sources, identity_of,
  conflicts, seen_of, new_reference, tag, register, add_text, add_chunk, add_chunks, chunks_of,
  add_categories, unknown_category, build_evidence_registry,
}

-- a reference that may be cited for the candidate
pub record Registered (ids : Identities) (cid : String) (e : String × EvidenceReference)
    : Type 0 where
  pub owner : e.1.candidate_id ≡ cid
  pub in_categories : member e.1.category categories ≡ true
  pub from_source : member e.1.source_category (allowed_sources e.1.category) ≡ true
  pub has_text : ids.is_blank e.1.text ≡ false
  pub text_xml : is_xml e.1.text ≡ true
  pub has_chunk : ids.is_blank e.1.chunk_id ≡ false
  pub index : ℕ
  pub tagged : e.0 ≡ tag ids e.1.category index

-- what holds of the value, where the code returns one
abbrev pub Ensures {ℓ} : {A : Type ℓ} → (A → Type 0) → Result A → Type 0
Ensures P (err e) = Unit
Ensures P (ok v) = P v

Ensures-raise_if :
    {A : Type 0} (P : A → Type 0) (b : Bool) (message : String) (next : Result A)
    → (b ≡ false → Ensures P next)
    → Ensures P (raise_if b message >> next)
Ensures-raise_if P true message next h = tt
Ensures-raise_if P false message next h = h refl

Ensures-bind :
    {A B : Type 0} (P : A → Type 0) (Q : B → Type 0) (first : Result A) (next : A → Result B)
    → Ensures P first
    → ((v : A) → P v → Ensures Q (next v))
    → Ensures Q (first >>= next)
Ensures-bind P Q (err e) next h k = tt
Ensures-bind P Q (ok v) next h k = k v h

unless : (a : Bool) → not a ≡ false → a ≡ true
unless true h = refl
unless false h = absurd (true≢false h)

All-append :
    {A : Type 0} (P : A → Type 0) (xs : List A) (y : A) → All P xs → P y → All P (xs ++ (y ∷ []))
All-append P [] y h hy = (hy, tt)
All-append P (x ∷ xs) y h hy = (h.0, All-append P xs y h.1 hy)

abbrev Good : Identities → String → Building → Type 0
Good ids cid b = All (Registered ids cid) b.registry

module _ (ids : Identities) (cid : String) (category : String)
    (known : member category categories ≡ true) where
  add_text-Good :
      (index : ℕ) (c : Chunk) (b : Building)
      → is_xml c.text ≡ true
      → ids.is_blank c.text ≡ false
      → Good ids cid b
      → Ensures (Good ids cid) (add_text ids cid category index c b)
  add_text-Good index c b readable filled good =
      let source = or_default category c.category in
      Ensures-raise_if (Good ids cid) (not (member source (allowed_sources category)))
        "Invalid source category" _
        (λ sourced.
          Ensures-bind (λ l. Unit) (Good ids cid) c.location _ (any_value c.location)
            (λ location u.
              let chunk_id = identity_of ids cid source location c in
              let s = seen_of source location chunk_id c in
              Ensures-raise_if (Good ids cid) (not (is_xml chunk_id)) "Invalid XML text" _ (λ x.
                Ensures-raise_if (Good ids cid) (ids.is_blank chunk_id) "Empty chunk identity" _
                  (λ named.
                    Ensures-raise_if (Good ids cid) (any (conflicts s) b.identities)
                      "Conflicting chunk identity" (ok (register ids cid category index s b))
                      (λ new.
                        All-append (Registered ids cid) b.registry
                          (tag ids category index, new_reference ids cid category s) good
                          (record {
                            owner = refl;
                            in_categories = known;
                            from_source = unless (member source (allowed_sources category)) sourced;
                            has_text = filled;
                            text_xml = readable;
                            has_chunk = named;
                            index = index;
                            tagged = refl;
                          }))))))
    where
      any_value : (r : Result String) → Ensures (λ l. Unit) r
      any_value (err e) = tt
      any_value (ok v) = tt

  add_chunk-Good :
      (index : ℕ) (c : Chunk) (b : Building)
      → Good ids cid b
      → Ensures (Good ids cid) (add_chunk ids cid category index c b)
  add_chunk-Good index c b good =
      Ensures-raise_if (Good ids cid) (not (str_eq (or_default cid c.candidate_id) cid))
        "Invalid evidence ownership" _
        (λ own.
          Ensures-raise_if (Good ids cid) (not (is_xml c.text)) "Invalid XML text" _ (λ readable.
            elim (Bool-cases (ids.is_blank c.text)) [
              | inl e ↦ rw e good
              | inr e ↦ rw e (add_text-Good index c b (unless (is_xml c.text) readable) e good)
            ]))

  add_chunks-Good :
      (index : ℕ) (cs : List Chunk) (b : Building)
      → Good ids cid b
      → Ensures (Good ids cid) (add_chunks ids cid category index cs b)
  unfolding add_chunks
  add_chunks-Good index [] b good = good
  add_chunks-Good index (c ∷ rest) b good =
      Ensures-bind (Good ids cid) (Good ids cid) (add_chunk ids cid category index c b)
        (λ added. add_chunks ids cid category (suc index) rest added)
        (add_chunk-Good index c b good) (λ added h. add_chunks-Good (suc index) rest added h)

add_categories-Good :
    (ids : Identities) (cid : String) (evidence : List (String × List Chunk)) (cs : List String)
    (b : Building)
    → All (λ c. member c categories ≡ true) cs
    → Good ids cid b
    → Ensures (Good ids cid) (add_categories ids cid evidence cs b)
unfolding add_categories
add_categories-Good ids cid evidence [] b known good = good
add_categories-Good ids cid evidence (c ∷ cs) b known good =
    Ensures-bind (Good ids cid) (Good ids cid) (add_chunks ids cid c 1 (chunks_of c evidence) b)
      (λ added. add_categories ids cid evidence cs added)
      (add_chunks-Good ids cid c known.0 1 (chunks_of c evidence) b good)
      (λ added h. add_categories-Good ids cid evidence cs added known.1 h)

own_references :
    (ids : Identities) (cid : String) (r : Registry)
    → All (Registered ids cid) r
    → any (foreign cid) r ≡ false
own_references ids cid [] h = refl
own_references ids cid (e ∷ r) h = rw (h.0.owner, eq_refl cid, own_references ids cid r h.1)

-- Where `build_evidence_registry` returns, every reference is the candidate's, of one of the four
-- categories and of a source that this category allows, with a text and a chunk identity that are not
-- blank and a text that is valid XML, under the tag of its category and an index; so
-- `verify_evidence` finds no reference of another candidate.
pub build_evidence_registry-Registered :
    (ids : Identities) (cid : String) (payload : EvidencePayload)
    → Ensures
        (λ r. All (Registered ids cid) r × (any (foreign cid) r ≡ false))
        (build_evidence_registry ids cid payload)
unfolding build_evidence_registry
build_evidence_registry-Registered ids cid payload =
    let Q = λ (r : Registry). All (Registered ids cid) r × (any (foreign cid) r ≡ false) in
    Ensures-raise_if Q (not (is_xml cid)) "Invalid XML text" _ (λ readable.
      Ensures-raise_if Q (not (str_eq (or_default cid payload.candidate_id) cid))
        "Evidence belongs to another candidate" _
        (λ own.
          Ensures-raise_if Q (any unknown_category payload.evidence_by_category)
            "Invalid evidence categories" _
            (λ fine.
              Ensures-bind (Good ids cid) Q
                (add_categories ids cid payload.evidence_by_category categories
                  (record { registry = []; identities = [] }))
                (λ built. ok built.registry)
                (add_categories-Good ids cid payload.evidence_by_category categories
                  (record { registry = []; identities = [] }) (refl, (refl, (refl, (refl, tt)))) tt)
                (λ built h. (h, own_references ids cid built.registry h)))))
