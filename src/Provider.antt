-- ===== src/Provider.antt =====
-- The admission of Stage 3 requests of app/campaigns/provider_limit.py: the script that Redis runs,
-- `release`, sequences of both, and `retry_delay`. Times are microseconds of the Redis clock, which
-- does not go back. The expiry of whole keys, which removes only what the script removes too, is left
-- out.
pub mod Windows
pub mod Waiting
pub mod Delay
use ai_cv_screening.Prelude.{
  ℕ, suc, ◌+◌, ◌-◌, ◌*◌, ◌/◌, ◌^◌, min, max, Bool, true, false, not, ◌||◌, Option, none, some, List,
  [], ◌∷◌, ◌++◌, ◌==◌, ltb, leb, if◌then◌else◌, any, filter, length, map,
}

-- the settings that `admit` passes to the script
pub record Limits : Type 0 where
  pub requests_per_minute : ℕ
  pub tokens_per_minute : ℕ
  pub global_inflight : ℕ
  pub hold_seconds : ℕ

-- members of the sorted sets `requests` and `active`, and of the hash `tokens`
pub record Request : Type 0 where
  pub id : ℕ
  pub at : ℕ

pub record Hold : Type 0 where
  pub id : ℕ
  pub until : ℕ

pub record Charge : Type 0 where
  pub id : ℕ
  pub amount : ℕ

-- the three keys of a provider, each in the order of its scores
pub record Provider : Type 0 where
  pub requests : List Request
  pub tokens : List Charge
  pub active : List Hold

abbrev pub second : ℕ
second = 1000000

abbrev pub window : ℕ
window = 60000000

-- a score of at most `now - 60`
abbrev pub is_past : ℕ → Request → Bool
is_past now r = leb (r.at + window) now

abbrev pub is_recent : ℕ → Request → Bool
is_recent now r = not (is_past now r)

abbrev pub is_over : ℕ → Hold → Bool
is_over now h = leb h.until now

-- the removals at the start of the script
abbrev pub purge : ℕ → Provider → Provider
purge now p =
    let past = filter (is_past now) p.requests in
    record {
      requests = filter (is_recent now) p.requests;
      tokens = filter (λ (c : Charge). not (any (λ (r : Request). r.id == c.id) past)) p.tokens;
      active = filter (λ (h : Hold). not (is_over now h)) p.active;
    }

abbrev pub sum_amounts : List Charge → ℕ
sum_amounts [] = 0
sum_amounts (c ∷ cs) = c.amount + sum_amounts cs

-- `math.ceil` of a number of seconds
abbrev pub ceil_seconds : ℕ → ℕ
ceil_seconds t = (t + (second - 1)) / second

-- the seconds until the oldest request leaves the window
abbrev pub wait_for : ℕ → List Request → ℕ
wait_for now [] = 60
wait_for now (r ∷ rest) = max 1 (ceil_seconds (window + r.at - now))

abbrev pub enter : Limits → ℕ → ℕ → ℕ → Provider → Provider
enter limits now token amount p = record {
  requests = p.requests ++ (record { id = token; at = now } ∷ []);
  tokens = p.tokens ++ (record { id = token; amount = amount } ∷ []);
  active = p.active ++ (record { id = token; until = now + limits.hold_seconds * second } ∷ []);
}

-- the end of the script, after the removals; 0 is an admission
abbrev pub decide_admission : Limits → ℕ → ℕ → ℕ → Provider → Provider × ℕ
decide_admission limits now token amount p =
    if leb limits.global_inflight (length p.active)
    then (p, 2)
    else if leb limits.requests_per_minute (length p.requests)
        || ltb limits.tokens_per_minute (sum_amounts p.tokens + amount)
    then (p, wait_for now p.requests)
    else (enter limits now token amount p, 0)

unfoldable pub admit : Limits → ℕ → ℕ → ℕ → Provider → Provider × ℕ
admit limits now token amount p = decide_admission limits now token amount (purge now p)

unfoldable pub release : ℕ → Provider → Provider
release token p = record p { active = filter (λ (h : Hold). not (h.id == token)) p.active }

-- What callers do, one after the other: a call of `admit` some time later, or of `release`.
pub data Call : Type 0 where
  ask : ℕ → ℕ → ℕ → Call
  returned : ℕ → Call

-- the keys, the clock, and the admitted requests, the latest first
pub record History : Type 0 where
  pub provider : Provider
  pub clock : ℕ
  pub admitted : List Request

abbrev pub answered : ℕ → ℕ → History → Provider × ℕ → History
answered now token h r = record {
  provider = r.0;
  clock = now;
  admitted = if r.1 == 0 then record { id = token; at = now } ∷ h.admitted else h.admitted;
}

unfoldable pub call : Limits → Call → History → History
call limits (ask later token amount) h =
    let now = h.clock + later in answered now token h (admit limits now token amount h.provider)
call limits (returned token) h = record h { provider = release token h.provider }

unfoldable pub calls : Limits → List Call → History → History
calls limits [] h = h
calls limits (c ∷ cs) h = calls limits cs (call limits c h)

-- the settings of the backoff, in seconds
pub record Backoff : Type 0 where
  pub retry_base_seconds : ℕ
  pub retry_max_seconds : ℕ

abbrev pub backoff_base : Backoff → ℕ → ℕ
backoff_base st attempt = min st.retry_max_seconds (st.retry_base_seconds * 2 ^ (attempt - 1))

abbrev pub or_zero : Option ℕ → ℕ
or_zero none = 0
or_zero (some t) = t

-- `retry_delay`, in seconds: `jitter` is what `random.uniform(0, base / 4)` draws, in microseconds, and
-- `retry_after` is the provider's cooldown, in microseconds.
unfoldable pub retry_delay : Backoff → ℕ → ℕ → Option ℕ → ℕ
retry_delay st attempt jitter retry_after =
    let jittered = backoff_base st attempt * second + jitter in
    max 1 (max jittered (min (86400 * second) (or_zero retry_after)) / second)
