-- ===== src/Tests/Provider.antt =====
-- The admission of requests under small limits.
use ai_cv_screening.Prelude.{some, arith, ◌≤◌, ◌≡◌, refl, List, [], ◌∷◌, length, map}
use ai_cv_screening.Provider.Delay.{retry_delay_bounds}
use ai_cv_screening.Provider.{
  Backoff, retry_delay, Limits, Request, Provider, Call, ask, returned, sum_amounts, admit, release,
  call, calls,
}
use ai_cv_screening.Provider.Windows.{Windowed, unused, calls-Windowed}
use ai_cv_screening.Provider.Waiting.{admit_waited}

abbrev small : Limits
small = record {
  requests_per_minute = 2;
  tokens_per_minute = 100;
  global_inflight = 5;
  hold_seconds = 30;
}

-- the third request comes within the minute, the fourth after it
abbrev asked : List Call
asked =
    ask 0 7 10 ∷ (ask 1000000 8 10 ∷ (ask 1000000 9 10 ∷ (returned 7 ∷ (ask 58000000 10 10 ∷ []))))

asked_admits :
    map (λ (r : Request). r.id) (calls small asked (unused 5)).admitted ≡ 10 ∷ (8 ∷ (7 ∷ []))
unfolding calls call admit release
asked_admits = refl

calls-Windowed_example :
    Windowed 2 (calls small asked (unused 5)).admitted
    × (length (calls small asked (unused 5)).provider.active ≤ 5)
    × (sum_amounts (calls small asked (unused 5)).provider.tokens ≤ 100)
calls-Windowed_example = calls-Windowed small asked 5

abbrev full : Provider
full = record {
  requests = record { id = 7; at = 40500000 } ∷ (record { id = 8; at = 41000000 } ∷ []);
  tokens = record { id = 7; amount = 10 } ∷ (record { id = 8; amount = 10 } ∷ []);
  active = [];
}

full_refuses : admit small 90000000 9 10 full ≡ (full, 11)
unfolding admit
full_refuses = refl

admit_waited_example : (admit small 101000000 10 10 full).1 ≡ 0
admit_waited_example =
    admit_waited small 90000000 9 10 full full 11 101000000 10 10 full_refuses (omega arith)
      (omega arith) (omega arith) (omega arith) (omega arith) (omega arith)

abbrev backoff : Backoff
backoff = record { retry_base_seconds = 5; retry_max_seconds = 300 }

-- a cooldown of 90.9 seconds, cut off to 90
cut_delay : retry_delay backoff 3 4000000 (some 90900000) ≡ 90
unfolding retry_delay
cut_delay = refl

third_delay : retry_delay backoff 3 4000000 (some 90000000) ≡ 90
unfolding retry_delay
third_delay = refl

retry_delay_bounds_example :
    (1 ≤ retry_delay backoff 3 4000000 (some 90000000))
    × (20 ≤ retry_delay backoff 3 4000000 (some 90000000))
    × (90 ≤ retry_delay backoff 3 4000000 (some 90000000))
    × (retry_delay backoff 3 4000000 (some 90000000) ≤ 86400)
retry_delay_bounds_example = retry_delay_bounds backoff 3 4000000 (some 90000000) (omega arith)
