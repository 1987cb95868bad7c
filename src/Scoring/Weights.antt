-- ===== src/Scoring/Weights.antt =====
-- `weighted_score` and `calculate_decision_tier` of app/stage3_evaluation/scoring.py.
--
-- A score is a number of units, `unit` of them to a point; each decimal the code meets is exact for
-- some unit. A composite score is in hundredths of a point. The decimal context of the code rounds
-- only beyond 28 digits, which four scores with at most 24 decimals do not reach.
pub mod Rounding
use ai_cv_screening.Prelude.{
  ℕ, ◌+◌, ◌*◌, ◌/◌, String, Bool, true, false, not, ◌&&◌, Option, none, some, List, [], ◌∷◌, ltb,
  leb, if◌then◌else◌, Result, ok, err, ◌>>=◌, ◌>>◌, raise_if, all, any, is_some, map,
}
use text.Mathlib.Text.{◌==◌ as str_eq}

pub data DecisionTier : Type 0 where
  tier_1 tier_2 tier_3 : DecisionTier

-- a dict from category names to numbers
abbrev pub Scores : Type 0
Scores = List (String × ℕ)

-- `CATEGORY_WEIGHTS`, in hundredths
abbrev pub category_weights : List (String × ℕ)
category_weights =
    ("skills", 40) ∷ (("experience", 30) ∷ (("projects", 20) ∷ (("education", 10) ∷ [])))

abbrev pub lookup : String → List (String × ℕ) → Option ℕ
lookup k [] = none
lookup k ((j, v) ∷ rest) = if str_eq j k then some v else lookup k rest

abbrev pub get_or_zero : Option ℕ → ℕ
get_or_zero none = 0
get_or_zero (some v) = v

-- `set(a) == set(b)`
abbrev pub same_keys : List (String × ℕ) → List (String × ℕ) → Bool
same_keys a b =
    all (λ (e : String × ℕ). is_some (lookup e.0 b)) a
    && all (λ (e : String × ℕ). is_some (lookup e.0 a)) b

-- the validation `0 <= score <= 100` of `CategoryAssessment`
abbrev pub in_range : ℕ → ℕ → Bool
in_range unit s = leb s (100 * unit)

-- `sum(Decimal(str(validated[key])) * weight ...)`, in hundredths of a unit
abbrev pub weighted_total : List (String × ℕ) → Scores → ℕ
weighted_total [] scores = 0
weighted_total ((key, weight) ∷ rest) scores =
    get_or_zero (lookup key scores) * weight + weighted_total rest scores

-- `quantize(Decimal("0.01"), rounding=ROUND_HALF_UP)`: from hundredths of a unit to hundredths of a
-- point, to the nearest, and up from the middle
unfoldable pub quantize : ℕ → ℕ → ℕ
quantize unit total = (2 * total + unit) / (2 * unit)

unfoldable pub weighted_score : ℕ → Scores → Result ℕ
unfolding quantize
weighted_score unit scores = do
  raise_if (not (same_keys scores category_weights)) "Exactly four category scores are required"
  raise_if (not (all (λ (e : String × ℕ). in_range unit e.1) scores)) "score out of range"
  ok (quantize unit (weighted_total category_weights scores))

-- the thresholds of `calculate_decision_tier`, in hundredths
abbrev pub tier_of : ℕ → ℕ → ℕ → DecisionTier
tier_of first second score =
    if leb first score
    then DecisionTier.tier_1
    else if leb second score
    then DecisionTier.tier_2
    else DecisionTier.tier_3

unfoldable pub calculate_decision_tier : ℕ → Result DecisionTier
calculate_decision_tier score = do
  raise_if (not (in_range 100 score)) "score out of range"
  ok (tier_of 7500 5500 score)
