-- ===== src/Scoring/Weights/Rounding.antt =====
-- The composite score is the weighted mean, rounded to the nearest hundredth.
use ai_cv_screening.Prelude.{ℕ, ◌+◌, ◌*◌, ◌≤◌, ◌<◌, ◌≡◌, ap, le→leb, [], ◌∷◌, arith, ok}
use ai_cv_screening.Scoring.Weights.{
  DecisionTier, Scores, quantize, weighted_total, category_weights, weighted_score,
  calculate_decision_tier, tier_of,
}

-- the dict with the four categories
abbrev pub four : ℕ → ℕ → ℕ → ℕ → Scores
four s e p d = ("skills", s) ∷ (("experience", e) ∷ (("projects", p) ∷ (("education", d) ∷ [])))

abbrev pub mean : ℕ → ℕ → ℕ → ℕ → ℕ
mean s e p d = 40 * s + 30 * e + 20 * p + 10 * d

total_is_mean : (s e p d : ℕ) → weighted_total category_weights (four s e p d) ≡ mean s e p d
total_is_mean s e p d = omega arith

-- the rounding: at most half away, and up from the middle
pub quantize_nearest :
    (unit total : ℕ)
    → 0 < unit
    → (2 * (unit * quantize unit total) ≤ 2 * total + unit)
      × (2 * total + unit < 2 * (unit * quantize unit total) + 2 * unit)
unfolding quantize
quantize_nearest unit total h = grind arith

le_of_scaled : (unit a b : ℕ) → 0 < unit → unit * a < unit * b + unit → a ≤ b
le_of_scaled unit a b h lt = grind arith

pub quantize_mono : (unit a b : ℕ) → 0 < unit → a ≤ b → quantize unit a ≤ quantize unit b
quantize_mono unit a b h le =
    le_of_scaled unit (quantize unit a) (quantize unit b) h
      (omega (arith, quantize_nearest unit a h, quantize_nearest unit b h))

capped : (unit hi s : ℕ) → hi ≤ 100 → s ≤ hi * unit → s ≤ 100 * unit
capped unit hi s top le = grind arith

pub in_range_accepted :
    (unit s e p d : ℕ)
    → s ≤ 100 * unit
    → e ≤ 100 * unit
    → p ≤ 100 * unit
    → d ≤ 100 * unit
    → weighted_score unit (four s e p d) ≡ ok (quantize unit (mean s e p d))
unfolding weighted_score
in_range_accepted unit s e p d hs he hp hd =
    rw
      (
        le→leb s (100 * unit) hs,
        le→leb e (100 * unit) he,
        le→leb p (100 * unit) hp,
        le→leb d (100 * unit) hd,
      )
      (ap (λ t. ok (quantize unit t)) (omega arith))

-- For four scores of at most 100 points, `weighted_score` returns: the result is the weighted mean in
-- hundredths, rounded to the nearest and up from the middle; it is at most 100 points, at least the
-- least of the scores and at most the greatest in whole points; and `calculate_decision_tier`
-- accepts it.
pub weighted_score_nearest :
    (unit s e p d lo hi : ℕ)
    → 0 < unit
    → hi ≤ 100
    → (lo * unit ≤ s) × (lo * unit ≤ e) × (lo * unit ≤ p) × (lo * unit ≤ d)
    → (s ≤ hi * unit) × (e ≤ hi * unit) × (p ≤ hi * unit) × (d ≤ hi * unit)
    → (r : ℕ) × (weighted_score unit (four s e p d) ≡ ok r)
      × (2 * (unit * r) ≤ 2 * mean s e p d + unit)
      × (2 * mean s e p d + unit < 2 * (unit * r) + 2 * unit)
      × (100 * lo ≤ r)
      × (r ≤ 100 * hi)
      × (calculate_decision_tier r ≡ ok (tier_of 7500 5500 r))
unfolding weighted_score calculate_decision_tier
weighted_score_nearest unit s e p d lo hi h top least most =
    let t = mean s e p d in
    let near = quantize_nearest unit t h in
    let above : 100 * lo ≤ quantize unit t =
      le_of_scaled unit (100 * lo) (quantize unit t) h (omega (arith, near, least)) in
    let below : quantize unit t ≤ 100 * hi =
      le_of_scaled unit (quantize unit t) (100 * hi) h (omega (arith, near, most)) in
    (
      quantize unit t,
      in_range_accepted unit s e p d (capped unit hi s top most.0) (capped unit hi e top most.1)
          (capped unit hi p top most.2) (capped unit hi d top most.3),
      near.0,
      near.1,
      above,
      below,
      ground arith,
    )

-- the number in a tier's name: a smaller one is a better tier
abbrev pub tier_number : DecisionTier → ℕ
tier_number DecisionTier.tier_1 = 1
tier_number DecisionTier.tier_2 = 2
tier_number DecisionTier.tier_3 = 3

-- Raising any of the four scores, within 100 points, lowers neither the composite score nor the tier.
pub weighted_score_mono :
    (unit s e p d s' e' p' d' : ℕ)
    → 0 < unit
    → (s ≤ s') × (e ≤ e') × (p ≤ p') × (d ≤ d')
    → (s' ≤ 100 * unit) × (e' ≤ 100 * unit) × (p' ≤ 100 * unit) × (d' ≤ 100 * unit)
    → (r : ℕ) × (r' : ℕ) × (weighted_score unit (four s e p d) ≡ ok r)
      × (weighted_score unit (four s' e' p' d') ≡ ok r')
      × (r ≤ r')
      × (tier_number (tier_of 7500 5500 r') ≤ tier_number (tier_of 7500 5500 r))
weighted_score_mono unit s e p d s' e' p' d' h up top =
    let mono = quantize_mono unit (mean s e p d) (mean s' e' p' d') h (omega arith) in
    (
      quantize unit (mean s e p d),
      quantize unit (mean s' e' p' d'),
      in_range_accepted unit s e p d (omega arith) (omega arith) (omega arith) (omega arith),
      in_range_accepted unit s' e' p' d' top.0 top.1 top.2 top.3,
      mono,
      ground arith,
    )

-- the composite of scores in range is in range
pub quantize_capped :
    (unit s e p d : ℕ)
    → 0 < unit
    → s ≤ 100 * unit
    → e ≤ 100 * unit
    → p ≤ 100 * unit
    → d ≤ 100 * unit
    → quantize unit (mean s e p d) ≤ 10000
quantize_capped unit s e p d h hs he hp hd =
    le_of_scaled unit (quantize unit (mean s e p d)) 10000 h
      (omega (arith, quantize_nearest unit (mean s e p d) h))

pub tier_accepted : (r : ℕ) → r ≤ 10000 → calculate_decision_tier r ≡ ok (tier_of 7500 5500 r)
unfolding calculate_decision_tier
tier_accepted r h = rw (le→leb r 10000 h)
