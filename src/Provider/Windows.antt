-- ===== src/Provider/Windows.antt =====
-- Sequences of calls of the admission of app/campaigns/provider_limit.py.
use ai_cv_screening.Prelude.{
  ℕ, suc, ◌+◌, ◌*◌, ◌≤◌, Bool, true, false, not, List, [], ◌∷◌, ◌++◌, ◌==◌, ltb, leb, if◌then◌else◌,
  filter, any, count, length, Bool-cases, ◌≡◌, refl, ◌∙◌, inl, inr, arith, count-append,
}
use ai_cv_screening.Prelude.Tallies.{length-append}
use ai_cv_screening.Provider.{
  Limits, Request, Hold, Charge, Provider, is_recent, is_past, second, sum_amounts, purge, wait_for,
  enter, decide_admission, admit, release, Call, ask, returned, History, answered, call, calls,
}

-- each admitted request and those admitted less than a minute before it are at most `n`
abbrev pub Windowed : ℕ → List Request → Type 0
Windowed n [] = Unit
Windowed n (r ∷ rs) = (count (is_recent r.at) (r ∷ rs) ≤ n) × Windowed n rs

-- the recent requests are those that the provider's key still has
pub record Kept (limits : Limits) (h : History) : Type 0 where
  pub windowed : Windowed limits.requests_per_minute h.admitted
  pub recorded :
      (t : ℕ)
      → h.clock ≤ t
      → count (is_recent t) h.provider.requests ≡ count (is_recent t) h.admitted
  pub inflight : length h.provider.active ≤ limits.global_inflight
  pub charged : sum_amounts h.provider.tokens ≤ limits.tokens_per_minute

count-filter :
    (now t : ℕ)
    → now ≤ t
    → (rs : List Request) → count (is_recent t) (filter (is_recent now) rs) ≡ count (is_recent t) rs
count-filter now t h [] = refl
count-filter now t h (r ∷ rs) = ground (arith, count-filter now t h rs)

count-recent :
    (now : ℕ) (rs : List Request)
    → count (is_recent now) (filter (is_recent now) rs) ≡ length (filter (is_recent now) rs)
count-recent now [] = refl
count-recent now (r ∷ rs) = ground (arith, count-recent now rs)

pub length-filter : {A : Type 0} (p : A → Bool) (xs : List A) → length (filter p xs) ≤ length xs
length-filter p [] = omega arith
length-filter p (x ∷ xs) = ground (arith, length-filter p xs)

sum-filter : (p : Charge → Bool) (cs : List Charge) → sum_amounts (filter p cs) ≤ sum_amounts cs
sum-filter p [] = omega arith
sum-filter p (c ∷ cs) = ground (arith, sum-filter p cs)

sum-append :
    (cs : List Charge) (c : Charge) → sum_amounts (cs ++ (c ∷ [])) ≡ sum_amounts cs + c.amount
sum-append [] c = omega arith
sum-append (d ∷ cs) c = omega (arith, sum-append cs c)

not_lt : (a b : ℕ) → ltb a b ≡ false → b ≤ a
not_lt a b h = ground (arith, h)

indicator_le : (b : Bool) → (if b then 1 else 0) ≤ 1
indicator_le true = omega arith
indicator_le false = omega arith

not_le : (a b : ℕ) → leb a b ≡ false → suc b ≤ a
not_le a b h = ground (arith, h)

module _ (limits : Limits) (h : History) (now token amount : ℕ) (later : h.clock ≤ now)
    (k : Kept limits h) where
  abbrev purged : Provider
  purged = purge now h.provider

  abbrev request : Request
  request = record { id = token; at = now }

  purged_recorded :
      (t : ℕ) → now ≤ t → count (is_recent t) purged.requests ≡ count (is_recent t) h.admitted
  purged_recorded t le =
      count-filter now t le h.provider.requests ∙ k.recorded t (omega (arith, later, le))

  purged_inflight : length purged.active ≤ limits.global_inflight
  purged_inflight =
      omega
        (arith, length-filter (λ (x : Hold). not (leb x.until now)) h.provider.active, k.inflight)

  purged_charged : sum_amounts purged.tokens ≤ limits.tokens_per_minute
  purged_charged = omega (
    arith,
    sum-filter
        (λ (c : Charge).
          not (any (λ (r : Request). r.id == c.id) (filter (is_past now) h.provider.requests)))
        h.provider.tokens,
    k.charged,
  )

  refused-Kept :
      (wait : ℕ) → (wait == 0) ≡ false → Kept limits (answered now token h (purged, wait))
  refused-Kept wait e = rw e (record {
    windowed = k.windowed;
    recorded = purged_recorded;
    inflight = purged_inflight;
    charged = purged_charged;
  })

  entered-Kept :
      leb limits.global_inflight (length purged.active) ≡ false
      → leb limits.requests_per_minute (length purged.requests) ≡ false
      → ltb limits.tokens_per_minute (sum_amounts purged.tokens + amount) ≡ false
      → Kept limits (answered now token h (enter limits now token amount purged, 0))
  entered-Kept room free paid = record {
    windowed = (
      omega (
        arith,
        not_le limits.requests_per_minute (length purged.requests) free,
        indicator_le (is_recent now request),
        count-recent now h.provider.requests,
        purged_recorded now (omega arith),
      ),
      k.windowed,
    );
    recorded = λ t le.
        count-append (is_recent t) purged.requests (request ∷ [])
        ∙ omega (arith, purged_recorded t le);
    inflight = omega (
      arith,
      length-append purged.active
          (record { id = token; until = now + limits.hold_seconds * second } ∷ []),
      not_le limits.global_inflight (length purged.active) room,
    );
    charged = omega (
      arith,
      sum-append purged.tokens (record { id = token; amount = amount }),
      not_lt limits.tokens_per_minute (sum_amounts purged.tokens + amount) paid,
    );
  }

  waits : (rs : List Request) → (wait_for now rs == 0) ≡ false
  waits [] = refl
  waits (r ∷ rs) = ground arith

  answered-Kept :
      Kept limits (answered now token h (decide_admission limits now token amount purged))
  answered-Kept = elim (Bool-cases (leb limits.global_inflight (length purged.active))) [
    | inl e ↦ rw e (refused-Kept 2 refl)
    | inr e ↦ elim (Bool-cases (leb limits.requests_per_minute (length purged.requests))) [
      | inl f ↦ rw (e, f) (refused-Kept (wait_for now purged.requests) (waits purged.requests))
      | inr f ↦
          elim (Bool-cases (ltb limits.tokens_per_minute (sum_amounts purged.tokens + amount))) [
            | inl g ↦
                rw (e, f, g) (refused-Kept (wait_for now purged.requests) (waits purged.requests))
            | inr g ↦ rw (e, f, g) (entered-Kept e f g)
          ]
    ]
  ]

call-Kept :
    (limits : Limits) (c : Call) (h : History) → Kept limits h → Kept limits (call limits c h)
unfolding call admit release
call-Kept limits (ask later token amount) h k =
    answered-Kept limits h (h.clock + later) token amount (omega arith) k
call-Kept limits (returned token) h k = record {
  windowed = k.windowed;
  recorded = k.recorded;
  inflight =
      omega
        (arith, length-filter (λ (x : Hold). not (x.id == token)) h.provider.active, k.inflight);
  charged = k.charged;
}

calls-Kept :
    (limits : Limits) (cs : List Call) (h : History)
    → Kept limits h
    → Kept limits (calls limits cs h)
unfolding calls
calls-Kept limits [] h k = k
calls-Kept limits (c ∷ cs) h k = calls-Kept limits cs (call limits c h) (call-Kept limits c h k)

-- a provider of which nothing is known yet
abbrev pub unused : ℕ → History
unused clock = record {
  provider = record { requests = []; tokens = []; active = [] };
  clock = clock;
  admitted = [];
}

-- After any sequence of calls that starts with empty keys, each request that was admitted is, together
-- with those admitted less than a minute before it, within the limit of requests per minute; the
-- requests that are held are within the global limit; and the tokens that the key holds are within the
-- limit of tokens per minute.
pub calls-Windowed :
    (limits : Limits) (cs : List Call) (clock : ℕ)
    → Windowed limits.requests_per_minute (calls limits cs (unused clock)).admitted
      × (length (calls limits cs (unused clock)).provider.active ≤ limits.global_inflight)
      × (sum_amounts (calls limits cs (unused clock)).provider.tokens ≤ limits.tokens_per_minute)
calls-Windowed limits cs clock =
    let k = calls-Kept limits cs (unused clock) (record {
      windowed = tt;
      recorded = λ t le. refl;
      inflight = omega arith;
      charged = omega arith;
    }) in
    (k.windowed, k.inflight, k.charged)
