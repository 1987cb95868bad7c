-- ===== src/Scoring/Evidence/Trust.antt =====
-- Lemmas on the checks of citations and claims of app/stage3_evaluation/evidence.py.
use mathlib.Core.Bool.{true≢false, false≢true}
use text.Mathlib.Text.{◌==◌ as str_eq}
use ai_cv_screening.Prelude.{
  String, Bool, true, false, not, ◌&&◌, ◌||◌, Option, none, some, List, [], ◌∷◌, if◌then◌else◌,
  is_some, any, All, Bool-cases, Option-cases, ◌≡◌, refl, sym, ap, ◌∙◌, inl, inr,
}
use ai_cv_screening.Prelude.Tallies.{or_false}
use ai_cv_screening.Scoring.Schemas.{SupportedClaim, EvidenceReference, Registry, member}
use ai_cv_screening.Scoring.Outcome.{is_empty}
use Prim.Native.String.{◌++◌ as cat}
use ai_cv_screening.Scoring.Evidence.{
  TextTests, Findings, lookup, file_check, category_reason, citation_reason, citations_loop,
  check_citations, given, same_id, first_reason, claim_tests, claim_reason, Support, judge_claim,
  claims_loop, lacks_if, unsupported, check_support,
}

-- the citation names a piece of evidence in the registry, of an allowed category
abbrev pub Cited : TextTests → Registry → List String → String → Type 0
Cited texts registry allowed c =
    (texts.is_citation c ≡ true)
    × (ref : EvidenceReference) × (lookup c registry ≡ some ref)
    × (member ref.category allowed ≡ true)

-- the claim quotes a piece of evidence that the assessment cites
pub record Backed (texts : TextTests) (registry : Registry) (citations allowed : List String)
    (c : SupportedClaim) : Type 0 where
  pub ref : EvidenceReference
  pub found : lookup c.citation registry ≡ some ref
  pub in_category : member ref.category allowed ≡ true
  pub is_cited : member c.citation citations ≡ true
  pub quoted : texts.is_quoted c.quote ref.text ≡ true
  pub numbers : texts.has_numbers c.claim c.quote ≡ true
  pub excerpt :
      given c.evidence_id ≡ true
      → (same_id c.evidence_id ref.evidence_id ≡ true) × (texts.is_excerpt c.claim ref.text ≡ true)

abbrev pub claimed : List SupportedClaim → String → Bool
claimed claims c = any (λ (k : SupportedClaim). str_eq k.citation c) claims

-- an assessment or a flag whose citations and claims all stand in the registry
abbrev pub Supported :
    TextTests → Registry → Bool → List String → List SupportedClaim → List String → Type 0
Supported texts registry required citations claims allowed =
    (is_empty citations ≡ false)
    × All (Cited texts registry allowed) citations
    × All (Backed texts registry citations allowed) claims
    × (required ≡ true → All (λ c. claimed claims c ≡ true) citations)

pub cons_nil : (r : String) (rs : List String) → r ∷ rs ≡ [] → ⊥
cons_nil r rs h = false≢true (ap is_empty h)

if_quiet :
    (b : Bool) (r : String) (rs : List String)
    → (if b then r ∷ rs else rs) ≡ []
    → (b ≡ false) × (rs ≡ [])
if_quiet true r rs h = absurd (cons_nil r rs h)
if_quiet false r rs h = (refl, h)

no_reason :
    (b : Bool) (r : String) (o : Option String)
    → is_some (if b then some r else o) ≡ false
    → (b ≡ false) × (is_some o ≡ false)
no_reason true r o h = absurd (true≢false h)
no_reason false r o h = (refl, h)

none_holds :
    (xs : List (Bool × String)) → is_some (first_reason xs) ≡ false → All (λ e. e.0 ≡ false) xs
none_holds [] h = tt
none_holds (x ∷ xs) h =
    let (here, rest) = no_reason x.0 x.1 (first_reason xs) h in (here, none_holds xs rest)

pub either_false : (a b : Bool) → (a || b) ≡ false → (a ≡ false) × (b ≡ false)
either_false true b h = absurd (true≢false h)
either_false false b h = (refl, h)

pub unless : (a : Bool) → not a ≡ false → a ≡ true
unless true h = refl
unless false h = absurd (true≢false h)

given_then : (a b : Bool) → (a && not b) ≡ false → a ≡ true → b ≡ true
given_then true b h e = unless b h
given_then false b h e = absurd (false≢true e)

needed : (a b : Bool) → a ≡ true → (a && b) ≡ false → b ≡ false
needed true b e h = h
needed false b e h = absurd (false≢true e)

taken : (b : Bool) (c : String) (xs : List String) → b ≡ false → (if b then xs else c ∷ xs) ≡ c ∷ xs
taken b c xs h = rw h

regroup : (a b c : Bool) → (b || (a || c)) ≡ true → ((a || b) || c) ≡ true
regroup true b c h = refl
regroup false b c h = h

module _ (texts : TextTests) (registry : Registry) where
  category_Cited :
      (allowed : List String) (o : Option EvidenceReference)
      → is_some (category_reason allowed o) ≡ false
      → (ref : EvidenceReference) × (o ≡ some ref) × (member ref.category allowed ≡ true)
  category_Cited allowed none h = absurd (true≢false h)
  category_Cited allowed (some ref) h = elim (Bool-cases (member ref.category allowed)) [
    | inl e ↦ (ref, refl, e)
    | inr e ↦ absurd (true≢false (rw e at h))
  ]

  citation_Cited :
      (allowed : List String) (c : String)
      → is_some (citation_reason texts registry allowed c) ≡ false
      → Cited texts registry allowed c
  citation_Cited allowed c h =
      let (formed, rest) =
        no_reason (not (texts.is_citation c)) "MALFORMED_CITATION"
          (category_reason allowed (lookup c registry)) h in
      let (ref, found, placed) = category_Cited allowed (lookup c registry) rest in
      (unless (texts.is_citation c) formed, ref, found, placed)

  citations_loop_quiet :
      (field : String) (allowed cs : List String) (s : Findings)
      → (citations_loop texts registry field allowed cs s).1.reasons ≡ []
      → All (Cited texts registry allowed) cs × (s.reasons ≡ [])
  citations_loop_quiet field allowed [] s h = (tt, h)
  citations_loop_quiet field allowed (c ∷ cs) s h =
      let reason = citation_reason texts registry allowed c in
      let label = cat "INVALID_CITATIONS:" field in
      let (later, here) =
        citations_loop_quiet field allowed cs (file_check field label c reason s) h in
      let (fine, before) = if_quiet (is_some reason) label s.reasons here in
      ((citation_Cited allowed c fine, later), before)

  pub check_citations_quiet :
      (field : String) (cs allowed : List String) (s : Findings)
      → (check_citations texts registry field cs allowed s).1.reasons ≡ []
      → (is_empty cs ≡ false) × All (Cited texts registry allowed) cs × (s.reasons ≡ [])
  check_citations_quiet field [] allowed s h =
      absurd (cons_nil (cat "MISSING_CITATIONS:" field) s.reasons h)
  check_citations_quiet field (c ∷ cs) allowed s h =
      let (cited, before) = citations_loop_quiet field allowed (c ∷ cs) s h in (refl, cited, before)

  reference_Backed :
      (citations allowed : List String) (c : SupportedClaim) (ref : EvidenceReference)
      → lookup c.citation registry ≡ some ref
      → is_some (first_reason (claim_tests texts citations allowed c ref)) ≡ false
      → Backed texts registry citations allowed c
  reference_Backed citations allowed c ref found h =
      let (placed, (filled, (whole, (quoted, (own, (explicit, (numbers, end))))))) =
        none_holds (claim_tests texts citations allowed c ref) h in
      let (category, cited) =
        either_false (not (member ref.category allowed)) (not (member c.citation citations))
          placed in
      record {
        ref = ref;
        found = found;
        in_category = unless (member ref.category allowed) category;
        is_cited = unless (member c.citation citations) cited;
        quoted = unless (texts.is_quoted c.quote ref.text) quoted;
        numbers = unless (texts.has_numbers c.claim c.quote) numbers;
        excerpt = λ e. (
          given_then (given c.evidence_id) (same_id c.evidence_id ref.evidence_id) own e,
          given_then (given c.evidence_id) (texts.is_excerpt c.claim ref.text) explicit e,
        );
      }

  claim_Backed :
      (citations allowed : List String) (c : SupportedClaim)
      → is_some (claim_reason texts registry citations allowed c) ≡ false
      → Backed texts registry citations allowed c
  claim_Backed citations allowed c h = elim (Option-cases (lookup c.citation registry)) [
    | inl e ↦ absurd (true≢false (rw e at h))
    | inr (ref, e) ↦ reference_Backed citations allowed c ref e (rw e at h)
  ]

  claims_loop_quiet :
      (field : String) (citations allowed : List String) (cs : List SupportedClaim) (st : Support)
      → (claims_loop texts registry field citations allowed cs st).findings.reasons ≡ []
      → All (Backed texts registry citations allowed) cs
        × (st.findings.reasons ≡ [])
        × ((k : String)
            → member k (claims_loop texts registry field citations allowed cs st).supported ≡ true
            → (claimed cs k || member k st.supported) ≡ true)
  claims_loop_quiet field citations allowed [] st h = (tt, h, λ k m. m)
  claims_loop_quiet field citations allowed (c ∷ cs) st h =
      let reason = claim_reason texts registry citations allowed c in
      let (later, here, back) =
        claims_loop_quiet field citations allowed cs (judge_claim field c reason st) h in
      let (fine, before) =
        if_quiet (is_some reason) (cat "UNSUPPORTED_CLAIM:" field) st.findings.reasons here in
      (
        (claim_Backed citations allowed c fine, later),
        before,
        λ k m. regroup (str_eq c.citation k) (claimed cs k) (member k st.supported) (
            sym (
              ap (λ xs. claimed cs k || member k xs)
                (taken (is_some reason) c.citation st.supported fine))
            ∙ back k m),
      )

  lacks_quiet :
      (b : Bool) (field : String) (st : Support)
      → (lacks_if b field st).findings.reasons ≡ []
      → (b ≡ false) × (st.findings.reasons ≡ [])
  lacks_quiet true field st h =
      absurd (cons_nil (cat "MISSING_CLAIM_SUPPORT:" field) st.findings.reasons h)
  lacks_quiet false field st h = (refl, h)

  lacks_supported :
      (b : Bool) (field : String) (st : Support) → (lacks_if b field st).supported ≡ st.supported
  lacks_supported true field st = refl
  lacks_supported false field st = refl

  -- what supports all citations supports each
  All-claimed :
      (citations supported : List String) (claims : List SupportedClaim)
      → unsupported citations supported ≡ false
      → ((k : String) → member k supported ≡ true → claimed claims k ≡ true)
      → All (λ c. claimed claims c ≡ true) citations
  All-claimed [] supported claims h back = tt
  All-claimed (c ∷ cs) supported claims h back =
      let (here, rest) = either_false (not (member c supported)) (unsupported cs supported) h in
      (back c (unless (member c supported) here), All-claimed cs supported claims rest back)

  pub check_support_quiet :
      (required : Bool) (field : String) (citations : List String) (claims : List SupportedClaim)
      (allowed : List String) (s : Findings)
      → (check_support texts registry required field citations claims allowed s).findings.reasons
        ≡ []
      → All (Backed texts registry citations allowed) claims
        × (required ≡ true → All (λ c. claimed claims c ≡ true) citations)
        × (s.reasons ≡ [])
  check_support_quiet required field citations claims allowed s h =
      let empty : Support = record { valid = true; supported = []; findings = s } in
      let lacking = required && (not (is_empty citations) && is_empty claims) in
      let begun = lacks_if lacking field empty in
      let looped = claims_loop texts registry field citations allowed claims begun in
      let (covered, h1) =
        lacks_quiet (required && unsupported citations looped.supported) field looped h in
      let (backed, h2, back) = claims_loop_quiet field citations allowed claims begun h1 in
      let (there, before) = lacks_quiet lacking field empty h2 in
      (
        backed,
        λ e.
            All-claimed citations looped.supported claims
              (needed required (unsupported citations looped.supported) e covered)
              (λ k m.
                sym (or_false (claimed claims k))
                ∙ ap (λ xs. claimed claims k || member k xs)
                    (sym (lacks_supported lacking field empty))
                ∙ back k m),
        before,
      )
