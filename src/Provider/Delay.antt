-- ===== src/Provider/Delay.antt =====
-- The backoff of app/campaigns/provider_limit.py.
use ai_cv_screening.Prelude.{ℕ, ◌+◌, ◌*◌, ◌/◌, ◌≤◌, min, max, Option, arith}
use ai_cv_screening.Provider.{Backoff, second, backoff_base, or_zero, retry_delay}

delay_bounds :
    (base cap jitter cooldown : ℕ)
    → base ≤ cap
    → jitter * 4 ≤ base * 1000000
    → (1 ≤ max 1 (max (base * 1000000 + jitter) (min 86400000000 cooldown) / 1000000))
      × (base ≤ max 1 (max (base * 1000000 + jitter) (min 86400000000 cooldown) / 1000000))
      × (min 86400 (cooldown / 1000000)
          ≤ max 1 (max (base * 1000000 + jitter) (min 86400000000 cooldown) / 1000000))
      × (max 1 (max (base * 1000000 + jitter) (min 86400000000 cooldown) / 1000000)
          ≤ max 1 (max (cap * 5 / 4) 86400))
delay_bounds base cap jitter cooldown h j = (omega arith, omega arith, omega arith, omega arith)

base_le : (st : Backoff) (attempt : ℕ) → backoff_base st attempt ≤ st.retry_max_seconds
base_le st attempt = omega arith

-- For a jitter of at most a quarter of the base, the delay in whole seconds is at least one, at least
-- the base, which is capped, and at least the provider's cooldown rounded down to whole seconds, up to
-- a day; and it is at most the larger of a day and five quarters of the cap.
pub retry_delay_bounds :
    (st : Backoff) (attempt jitter : ℕ) (retry_after : Option ℕ)
    → jitter * 4 ≤ backoff_base st attempt * second
    → (1 ≤ retry_delay st attempt jitter retry_after)
      × (backoff_base st attempt ≤ retry_delay st attempt jitter retry_after)
      × (min 86400 (or_zero retry_after / second) ≤ retry_delay st attempt jitter retry_after)
      × (retry_delay st attempt jitter retry_after
          ≤ max 1 (max (st.retry_max_seconds * 5 / 4) 86400))
unfolding retry_delay
retry_delay_bounds st attempt jitter retry_after h =
    delay_bounds (backoff_base st attempt) st.retry_max_seconds jitter (or_zero retry_after)
      (base_le st attempt) h
