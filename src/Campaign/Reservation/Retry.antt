-- ===== src/Campaign/Reservation/Retry.antt =====
-- A retried reservation gives the same campaign.
use mathlib.Core.List.{◌++◌}
use mathlib.Core.Path.{subst}
use ai_cv_screening.Prelude.{
  ℕ, suc, ◌≡◌, ◌≢◌, refl, sym, ◌∙◌, ==_refl, Bool, true, false, ◌||◌, some, List, [], ◌∷◌, arith,
  ◌==◌, ok, err, filter, any,
}
use ai_cv_screening.Campaign.Rows.{Campaign, Db}
use ai_cv_screening.Campaign.Reservation.{
  Request, is_paired, is_bounded, has_request_key, new_campaign, violates_key, with_campaign,
  reserve_campaign, existing_campaign, has_key,
}

filter-++ {ℓ} :
    {A : Type ℓ} (p q : A → Bool) (xs ys : List A)
    → any (λ x. p x || q x) xs ≡ false
    → filter p (xs ++ ys) ≡ filter p ys
filter-++ p q [] ys h = refl
filter-++ p q (x ∷ xs) ys h = ground (arith, filter-++ p q xs ys)

reserve_campaign_cases :
    (now : ℕ) (fresh : ℕ → ℕ) (q : Request) (seen db d : Db) (id : ℕ)
    → reserve_campaign now fresh q seen db ≡ ok (d, true, id)
    → (d ≡ with_campaign now fresh q db)
      × (id ≡ fresh 0)
      × (violates_key db (new_campaign now (fresh 0) q) ≡ false)
      × (is_paired q ≡ true)
      × (is_bounded q ≡ true)
unfolding reserve_campaign
reserve_campaign_cases now fresh q seen db d id h = ground arith

new_campaign-has_request_key :
    (now id k : ℕ) (q : Request)
    → q.idempotency_key ≡ some k
    → has_request_key q.owner_id q.idempotency_key (new_campaign now id q) ≡ true
new_campaign-has_request_key now id k q h = rw (h, ==_refl q.owner_id, ==_refl k) refl

-- the one campaign with the key of the request
found_again :
    (now : ℕ) (fresh : ℕ → ℕ) (k : ℕ) (q : Request) (db : Db)
    → q.idempotency_key ≡ some k
    → violates_key db (new_campaign now (fresh 0) q) ≡ false
    → filter (has_request_key q.owner_id q.idempotency_key) (with_campaign now fresh q db).campaigns
      ≡ new_campaign now (fresh 0) q ∷ []
found_again now fresh k q db h free =
    let c = new_campaign now (fresh 0) q in
    let p = has_request_key q.owner_id q.idempotency_key in
    filter-++ p (λ (d : Campaign). d.id == fresh 0) db.campaigns (c ∷ []) free
    ∙ rw (new_campaign-has_request_key now (fresh 0) k q h) refl

existing_again :
    (now : ℕ) (fresh : ℕ → ℕ) (k : ℕ) (q r : Request) (db : Db)
    → q.idempotency_key ≡ some (suc k)
    → violates_key db (new_campaign now (fresh 0) q) ≡ false
    → r.owner_id ≡ q.owner_id
    → r.idempotency_key ≡ q.idempotency_key
    → existing_campaign r (with_campaign now fresh q db) ≡ ok (some (new_campaign now (fresh 0) q))
existing_again now fresh k q r db key free owner same =
    let given : has_key q.idempotency_key ≡ true = ground arith in
    rw (owner, same, given, found_again now fresh (suc k) q db key free) refl

hash_test : (a b : ℕ) → a ≢ b → b == a ≡ false
hash_test a b ne = ground arith

-- When `reserve_campaign` created a campaign for a request with an idempotency key that is not empty,
-- every later valid request of the same owner and key that sees the tables it left creates nothing:
-- with the same hash it returns the same campaign, and with another hash it raises.
pub reserve_campaign_retry :
    (now later k : ℕ) (fresh fresh' : ℕ → ℕ) (q r : Request) (seen db d d' : Db) (id : ℕ)
    → reserve_campaign now fresh q seen db ≡ ok (d, true, id)
    → q.idempotency_key ≡ some (suc k)
    → r.owner_id ≡ q.owner_id
    → r.idempotency_key ≡ q.idempotency_key
    → is_paired r ≡ true
    → is_bounded r ≡ true
    → ((r.request_hash ≡ q.request_hash)
        → reserve_campaign later fresh' r d d' ≡ ok (d', false, id))
      × (r.request_hash ≢ q.request_hash
          → reserve_campaign later fresh' r d d'
            ≡ err "Idempotency key belongs to a different campaign request")
unfolding reserve_campaign
reserve_campaign_retry now later k fresh fresh' q r seen db d d' id h key owner same paired
      bounded =
    let (made, named, free, _, _) = reserve_campaign_cases now fresh q seen db d id h in
    let ex : existing_campaign r d ≡ ok (some (new_campaign now (fresh 0) q)) =
      subst (λ x. existing_campaign r x ≡ ok (some (new_campaign now (fresh 0) q))) (sym made)
        (existing_again now fresh k q r db key free owner same) in
    (
      λ e. rw (paired, bounded, ex, e, ==_refl q.request_hash, named) refl,
      λ ne. rw (paired, bounded, ex, hash_test r.request_hash q.request_hash ne) refl,
    )
