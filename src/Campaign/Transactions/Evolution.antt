-- ===== src/Campaign/Transactions/Evolution.antt =====
-- What a transaction of the coordinator, of a worker or of the extraction keeps of a pair.
use ai_cv_screening.Prelude.{All, ◌≡◌, refl, sym, ap, ◌∙◌, ◌⊎◌, inl, inr, true, List, [], ◌∷◌}
use ai_cv_screening.Prelude.Table.{Pointwise, Pointwise-refl, Pointwise-trans, IsKeyed, Apart}
use ai_cv_screening.Campaign.Rows.{Settings, PairStatus, Pair, is_terminal}
use ai_cv_screening.Campaign.Lifecycle.{
  pair_key, ◌⟶*◌, ⟶*-trans, IsSound, Advances, Advances-refl, AllAdvance,
}

-- A pair keeps its place and its soundness, and once terminal every field; it moves along the diagram,
-- or ends with its document, as EXTRACTION_FAILED.
pub record Evolves (st : Settings) (p q : Pair) : Type 0 where
  pub same_id : q.id ≡ p.id
  pub same_campaign : q.campaign_id ≡ p.campaign_id
  pub same_jd : q.jd_id ≡ p.jd_id
  pub same_cv : q.cv_id ≡ p.cv_id
  pub path : (p.status ⟶* q.status) ⊎ (q.status ≡ PairStatus.extraction_failed)
  pub frozen : is_terminal p.status ≡ true → q ≡ p
  pub sound : IsSound st p → IsSound st q

pub Evolves-Advances : (st : Settings) (p q : Pair) → Advances st p q → Evolves st p q
Evolves-Advances st p q h = record {
  same_id = h.same_id;
  same_campaign = h.same_campaign;
  same_jd = h.same_jd;
  same_cv = h.same_cv;
  path = inl h.path;
  frozen = h.frozen;
  sound = h.sound;
}

pub Evolves-refl : (st : Settings) (p : Pair) → Evolves st p p
Evolves-refl st p = Evolves-Advances st p p (Advances-refl st p)

Evolves-trans : (st : Settings) (p q r : Pair) → Evolves st p q → Evolves st q r → Evolves st p r
Evolves-trans st p q r h k = record {
  same_id = k.same_id ∙ h.same_id;
  same_campaign = k.same_campaign ∙ h.same_campaign;
  same_jd = k.same_jd ∙ h.same_jd;
  same_cv = k.same_cv ∙ h.same_cv;
  path = elim h.path [
    | inr e ↦ inr (ap (λ (x : Pair). x.status) (k.frozen (rw e refl)) ∙ e)
    | inl a ↦ elim k.path [ inl b ↦ inl (⟶*-trans a b) | inr e ↦ inr e ]
  ];
  frozen = λ t.
      let same = h.frozen t in k.frozen (ap (λ (x : Pair). is_terminal x.status) same ∙ t) ∙ same;
  sound = λ t. k.sound (h.sound t);
}

-- every pair of a table evolves
abbrev pub AllEvolve : Settings → List Pair → List Pair → Type 0
AllEvolve st = Pointwise (Evolves st)

pub AllEvolve-refl : (st : Settings) (ps : List Pair) → AllEvolve st ps ps
AllEvolve-refl st = Pointwise-refl (Evolves st) (Evolves-refl st)

pub AllEvolve-trans :
    (st : Settings) (ps qs rs : List Pair)
    → AllEvolve st ps qs
    → AllEvolve st qs rs
    → AllEvolve st ps rs
AllEvolve-trans st = Pointwise-trans (Evolves st) (Evolves-trans st)

pub AllEvolve-AllAdvance :
    (st : Settings) (ps qs : List Pair) → AllAdvance st ps qs → AllEvolve st ps qs
AllEvolve-AllAdvance st [] [] h = tt
AllEvolve-AllAdvance st [] (y ∷ qs) h = absurd h
AllEvolve-AllAdvance st (x ∷ ps) [] h = absurd h
AllEvolve-AllAdvance st (x ∷ ps) (y ∷ qs) h =
    (Evolves-Advances st x y h.0, AllEvolve-AllAdvance st ps qs h.1)

Apart-AllEvolve :
    (st : Settings) (p q : Pair) (ps qs : List Pair)
    → q.id ≡ p.id
    → AllEvolve st ps qs
    → Apart pair_key p ps
    → Apart pair_key q qs
Apart-AllEvolve st p q [] [] e h a = tt
Apart-AllEvolve st p q [] (y ∷ qs) e h a = absurd h
Apart-AllEvolve st p q (x ∷ ps) [] e h a = absurd h
Apart-AllEvolve st p q (x ∷ ps) (y ∷ qs) e h a =
    (λ same. a.0 (sym e ∙ same ∙ h.0.same_id), Apart-AllEvolve st p q ps qs e h.1 a.1)

-- the primary keys stay distinct
pub IsKeyed-AllEvolve :
    (st : Settings) (ps qs : List Pair)
    → AllEvolve st ps qs
    → IsKeyed pair_key ps
    → IsKeyed pair_key qs
IsKeyed-AllEvolve st [] [] h k = tt
IsKeyed-AllEvolve st [] (y ∷ qs) h k = absurd h
IsKeyed-AllEvolve st (x ∷ ps) [] h k = absurd h
IsKeyed-AllEvolve st (x ∷ ps) (y ∷ qs) h k =
    (Apart-AllEvolve st x y ps qs h.0.same_id h.1 k.0, IsKeyed-AllEvolve st ps qs h.1 k.1)

pub All-IsSound_evolved :
    (st : Settings) (ps qs : List Pair)
    → AllEvolve st ps qs
    → All (IsSound st) ps
    → All (IsSound st) qs
All-IsSound_evolved st [] [] h k = tt
All-IsSound_evolved st [] (y ∷ qs) h k = absurd h
All-IsSound_evolved st (x ∷ ps) [] h k = absurd h
All-IsSound_evolved st (x ∷ ps) (y ∷ qs) h k = (h.0.sound k.0, All-IsSound_evolved st ps qs h.1 k.1)
