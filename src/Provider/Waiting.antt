-- ===== src/Provider/Waiting.antt =====
-- What a caller may rely on when the admission of app/campaigns/provider_limit.py refuses it.
use ai_cv_screening.Prelude.{
  ℕ, ◌+◌, ◌*◌, ◌-◌, ◌≤◌, ◌<◌, le→leb, true, not, List, [], ◌∷◌, filter, length, ◌≡◌, sym, ap, ◌∙◌,
  arith,
}
use ai_cv_screening.Provider.{
  Limits, Request, Hold, Provider, is_recent, is_past, is_over, window, second, ceil_seconds,
  sum_amounts, purge, wait_for, decide_admission, admit,
}
use ai_cv_screening.Provider.Windows.{length-filter}

ceil_covers : (t : ℕ) → t ≤ ceil_seconds t * second
ceil_covers t = omega arith

oldest_leaves :
    (now later : ℕ) (oldest : Request) (others : List Request)
    → now + wait_for now (oldest ∷ others) * second ≤ later
    → is_past later oldest ≡ true
oldest_leaves now later oldest others h =
    le→leb (oldest.at + window) later (omega (arith, ceil_covers (window + oldest.at - now)))

-- after the wait, the window has room
room_again :
    (now later limit : ℕ) (rs : List Request)
    → 0 < limit
    → length rs ≤ limit
    → now + wait_for now rs * second ≤ later
    → length (filter (is_recent later) rs) < limit
room_again now later limit [] z h w = z
room_again now later limit (r ∷ rs) z h w =
    rw (oldest_leaves now later r rs w) (omega (arith, length-filter (is_recent later) rs))

refused_decision :
    (limits : Limits) (now token amount : ℕ) (p q : Provider) (wait : ℕ)
    → decide_admission limits now token amount p ≡ (q, wait)
    → 0 < wait
    → length q.active < limits.global_inflight
    → (p ≡ q) × (wait_for now p.requests ≡ wait)
refused_decision limits now token amount p q wait h w room = ground arith

admitted_decision :
    (limits : Limits) (now token amount : ℕ) (p : Provider)
    → length p.active < limits.global_inflight
    → length p.requests < limits.requests_per_minute
    → sum_amounts p.tokens + amount ≤ limits.tokens_per_minute
    → (decide_admission limits now token amount p).1 ≡ 0
admitted_decision limits now token amount p a r t = ground arith

-- Let a call of `admit` be refused although requests in flight left room, with at most as many requests
-- in the window as the positive limit allows. Then the next call is admitted if it comes at least the
-- returned wait later and the tokens that the window still holds then leave room for it.
pub admit_waited :
    (limits : Limits) (now token amount : ℕ) (p q : Provider) (wait later next ceiling : ℕ)
    → admit limits now token amount p ≡ (q, wait)
    → 0 < wait
    → length q.active < limits.global_inflight
    → 0 < limits.requests_per_minute
    → length q.requests ≤ limits.requests_per_minute
    → now + wait * second ≤ later
    → sum_amounts (purge later q).tokens + ceiling ≤ limits.tokens_per_minute
    → (admit limits later next ceiling q).1 ≡ 0
unfolding admit
admit_waited limits now token amount p q wait later next ceiling h w room positive full after paid =
    let refused = refused_decision limits now token amount (purge now p) q wait h w room in
    let again : now + wait_for now q.requests * second ≤ later =
      rw (ap (λ (x : Provider). wait_for now x.requests) (sym refused.0) ∙ refused.1) after in
    admitted_decision limits later next ceiling (purge later q)
      (omega (arith, length-filter (λ (x : Hold). not (is_over later x)) q.active, room))
      (room_again now later limits.requests_per_minute q.requests positive full again) paid
