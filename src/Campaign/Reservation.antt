-- ===== src/Campaign/Reservation.antt =====
-- `reserve_campaign` of app/campaigns/persistence.py: a campaign with its JDs, once for an idempotency
-- key of an owner.
pub mod Retry
use mathlib.Core.List.{◌++◌}
use ai_cv_screening.Prelude.{
  ℕ, suc, ◌+◌, String, Bool, true, false, not, ◌&&◌, ◌||◌, Option, none, some, List, [], ◌∷◌, ltb,
  leb, ◌==◌, opt_eq, if◌then◌else◌, Result, ok, err, ◌>>=◌, ◌>>◌, raise_if, filter, any, length,
}
use ai_cv_screening.Campaign.Rows.{CampaignStatus, JdStatus, Campaign, CampaignJd, Db}
use ai_cv_screening.Campaign.Storage.{scalar_one_or_none}

-- What `reserve_campaign` is called with. A job is its `job_id` and its text; the key 0 is the empty
-- text.
pub record Request : Type 0 where
  pub owner_id : ℕ
  pub request_hash : ℕ
  pub jobs : List (ℕ × String)
  pub policies : List String
  pub idempotency_key : Option ℕ
  pub stage3_cap : ℕ
  pub name : Option String

abbrev has_job : ℕ → List (ℕ × String) → Bool
has_job k jobs = any (λ (j : ℕ × String). j.0 == k) jobs

-- `len(set(keys)) != len(keys)`, negated
abbrev distinct_jobs : List (ℕ × String) → Bool
distinct_jobs [] = true
distinct_jobs (j ∷ jobs) = not (has_job j.0 jobs) && distinct_jobs jobs

abbrev pub is_paired : Request → Bool
is_paired q = ltb 0 (length q.jobs) && length q.jobs == length q.policies

abbrev pub is_bounded : Request → Bool
is_bounded q = distinct_jobs q.jobs && (leb 1 q.stage3_cap && leb q.stage3_cap 15)

-- `if idempotency_key`
abbrev pub has_key : Option ℕ → Bool
has_key none = false
has_key (some k) = ltb 0 k

-- `idempotency_key == key` in SQL: NULL equals nothing
abbrev pub key_equals : Option ℕ → Option ℕ → Bool
key_equals none key = false
key_equals (some a) none = false
key_equals (some a) (some b) = a == b

abbrev pub has_request_key : ℕ → Option ℕ → Campaign → Bool
has_request_key owner key c = c.owner_id == owner && key_equals c.idempotency_key key

abbrev pub new_campaign : ℕ → ℕ → Request → Campaign
new_campaign now id q = record {
  id = id;
  owner_id = q.owner_id;
  status = CampaignStatus.intake;
  idempotency_key = q.idempotency_key;
  request_hash = q.request_hash;
  name = q.name;
  updated_at = now;
  completed_at = none;
}

-- `for job, policy in zip(...)`
abbrev pub new_jds : ℕ → (ℕ → ℕ) → ℕ → ℕ → ℕ → List (ℕ × String) → List String → List CampaignJd
new_jds now fresh cid cap i [] policies = []
new_jds now fresh cid cap i (j ∷ jobs) [] = []
new_jds now fresh cid cap i (j ∷ jobs) (policy ∷ policies) =
    record {
      id = fresh i;
      campaign_id = cid;
      jd_key = j.0;
      job_snapshot = j.1;
      policy_snapshot = policy;
      stage3_cap = cap;
      status = JdStatus.pending;
      updated_at = now;
    }
    ∷ new_jds now fresh cid cap (suc i) jobs policies

-- uq_campaign_owner_key and the primary key of campaigns
abbrev pub violates_key : Db → Campaign → Bool
violates_key db c =
    any (λ (d : Campaign). has_request_key c.owner_id c.idempotency_key d || d.id == c.id)
      db.campaigns

abbrev pub with_campaign : ℕ → (ℕ → ℕ) → Request → Db → Db
with_campaign now fresh q db = record db {
  campaigns = db.campaigns ++ (new_campaign now (fresh 0) q ∷ []);
  jds = db.jds ++ new_jds now fresh (fresh 0) q.stage3_cap 1 q.jobs q.policies;
}

abbrev reuse_campaign : Request → Db → Option Campaign → Result (Db × Bool × ℕ)
reuse_campaign q db none = err "IntegrityError"
reuse_campaign q db (some c) =
    if c.request_hash == q.request_hash then ok (db, false, c.id) else err "IntegrityError"

-- the handler of `IntegrityError`
abbrev recover : Request → Db → Result (Db × Bool × ℕ)
recover q db =
    if has_key q.idempotency_key
    then (scalar_one_or_none (filter (has_request_key q.owner_id q.idempotency_key) db.campaigns)
        >>= reuse_campaign q db)
    else err "IntegrityError"

abbrev insert_campaign : ℕ → (ℕ → ℕ) → Request → Db → Result (Db × Bool × ℕ)
insert_campaign now fresh q db =
    if violates_key db (new_campaign now (fresh 0) q)
    then recover q db
    else ok (with_campaign now fresh q db, true, fresh 0)

abbrev existing_campaign : Request → Db → Result (Option Campaign)
existing_campaign q seen =
    if has_key q.idempotency_key
    then scalar_one_or_none (filter (has_request_key q.owner_id q.idempotency_key) seen.campaigns)
    else ok none

abbrev campaign_found : ℕ → (ℕ → ℕ) → Request → Db → Option Campaign → Result (Db × Bool × ℕ)
campaign_found now fresh q db none = insert_campaign now fresh q db
campaign_found now fresh q db (some c) =
    if c.request_hash == q.request_hash
    then ok (db, false, c.id)
    else err "Idempotency key belongs to a different campaign request"

-- `seen` is the tables at the first lookup, and `db` those at the insertion
unfoldable pub reserve_campaign : ℕ → (ℕ → ℕ) → Request → Db → Db → Result (Db × Bool × ℕ)
reserve_campaign now fresh q seen db = do
  raise_if (not (is_paired q)) "A campaign needs at least one JD and one policy per JD"
  raise_if (not (is_bounded q)) "JD IDs must be distinct and Stage 3 cap must be between 1 and 15"
  existing ← existing_campaign q seen
  campaign_found now fresh q db existing
