-- ===== src/Campaign/Storage/Accounting.antt =====
-- A campaign has one pair for each of its JDs and CVs.
use mathlib.Core.Path.{subst}
use ai_cv_screening.Prelude.{
  sym, ℕ, suc, ◌*◌, ◌≤◌, ◌≡◌, refl, ◌⊎◌, inl, inr, Bool, true, false, zero, ◌&&◌, ◌||◌, List, [],
  ◌∷◌, arith, ◌==◌, if◌then◌else◌, ok, filter, count, count-append, any,
}
use ai_cv_screening.Campaign.Rows.{CampaignJd, CampaignCv, Pair, Db}
use ai_cv_screening.Campaign.Completion.{jd_in}
use ai_cv_screening.Campaign.Storage.Counting.{pair_in}
use ai_cv_screening.Campaign.Storage.{
  cv_in, is_candidate, Submission, new_cv, new_pairs, violates, with_cv, reserve_cv,
}

abbrev pub is_jd : ℕ → ℕ → CampaignJd → Bool
is_jd c jd_id j = j.campaign_id == c && j.id == jd_id

abbrev pub is_cv : ℕ → ℕ → CampaignCv → Bool
is_cv c cv_id v = v.campaign_id == c && v.id == cv_id

abbrev pub is_pair : ℕ → ℕ → ℕ → Pair → Bool
is_pair c jd_id cv_id p = p.campaign_id == c && (p.jd_id == jd_id && p.cv_id == cv_id)

-- What the intake keeps, for every campaign: a pair of a JD and a CV if both are rows of the campaign,
-- and none otherwise; every primary key once, and no candidate twice.
pub record IsRegistered (db : Db) : Type 0 where
  pub matched :
      (c jd_id cv_id : ℕ)
      → count (is_pair c jd_id cv_id) db.pairs
        ≡ count (is_jd c jd_id) db.jds * count (is_cv c cv_id) db.cvs
  pub accounted :
      (c : ℕ) → count (pair_in c) db.pairs ≡ count (jd_in c) db.jds * count (cv_in c) db.cvs
  pub distinct_jds : (jd_id : ℕ) → count (λ (j : CampaignJd). j.id == jd_id) db.jds ≤ 1
  pub distinct_cvs : (cv_id : ℕ) → count (λ (v : CampaignCv). v.id == cv_id) db.cvs ≤ 1
  pub distinct_candidates : (c candidate : ℕ) → count (is_candidate c candidate) db.cvs ≤ 1

count-new_pairs :
    (now : ℕ) (fresh : ℕ → ℕ) (cid cv_id i c : ℕ) (jds : List CampaignJd)
    → count (pair_in c) (new_pairs now fresh cid cv_id i (filter (jd_in cid) jds))
      ≡ (if cid == c then count (jd_in c) jds else 0)
count-new_pairs now fresh cid cv_id i c [] = ground arith
count-new_pairs now fresh cid cv_id i c (j ∷ jds) = ground (
  arith,
  count-new_pairs now fresh cid cv_id i c jds,
  count-new_pairs now fresh cid cv_id (suc i) c jds,
)

count-is_pair :
    (now : ℕ) (fresh : ℕ → ℕ) (cid cv_id i c jd_id k : ℕ) (jds : List CampaignJd)
    → count (is_pair c jd_id k) (new_pairs now fresh cid cv_id i (filter (jd_in cid) jds))
      ≡ (if cid == c && cv_id == k then count (is_jd c jd_id) jds else 0)
count-is_pair now fresh cid cv_id i c jd_id k [] = ground arith
count-is_pair now fresh cid cv_id i c jd_id k (j ∷ jds) = ground (
  arith,
  count-is_pair now fresh cid cv_id i c jd_id k jds,
  count-is_pair now fresh cid cv_id (suc i) c jd_id k jds,
)

with_cv_matched :
    (now : ℕ) (fresh : ℕ → ℕ) (cid : ℕ) (s : Submission) (db : Db) (c jd_id k : ℕ)
    → count (is_pair c jd_id k) db.pairs ≡ count (is_jd c jd_id) db.jds * count (is_cv c k) db.cvs
    → count (is_pair c jd_id k) (with_cv now fresh cid s db).pairs
      ≡ count (is_jd c jd_id) (with_cv now fresh cid s db).jds
        * count (is_cv c k) (with_cv now fresh cid s db).cvs
with_cv_matched now fresh cid s db c jd_id k h =
    let rows = new_pairs now fresh cid (fresh 0) 1 (filter (jd_in cid) db.jds) in
    let v = new_cv now (fresh 0) cid s in
    grind (
      arith,
      count-is_pair now fresh cid (fresh 0) 1 c jd_id k db.jds,
      count-append (is_pair c jd_id k) db.pairs rows,
      count-append (is_cv c k) db.cvs (v ∷ []),
      h,
    )

no_such_key :
    (id : ℕ) (p : CampaignCv → Bool) (cvs : List CampaignCv)
    → any (λ (u : CampaignCv). p u || u.id == id) cvs ≡ false
    → count (λ (u : CampaignCv). u.id == id) cvs ≡ 0
no_such_key id p [] h = refl
no_such_key id p (u ∷ cvs) h = ground (arith, no_such_key id p cvs)

with_cv_keyed :
    (now : ℕ) (fresh : ℕ → ℕ) (cid : ℕ) (s : Submission) (db : Db) (cv_id : ℕ)
    → violates db (new_cv now (fresh 0) cid s) ≡ false
    → count (λ (v : CampaignCv). v.id == cv_id) db.cvs ≤ 1
    → count (λ (v : CampaignCv). v.id == cv_id) (with_cv now fresh cid s db).cvs ≤ 1
with_cv_keyed now fresh cid s db cv_id h k =
    let v = new_cv now (fresh 0) cid s in
    ground (
      arith,
      count-append (λ (u : CampaignCv). u.id == cv_id) db.cvs (v ∷ []),
      λ (e : fresh 0 ≡ cv_id).
          subst (λ x. count (λ (u : CampaignCv). u.id == x) db.cvs ≡ 0) e
            (no_such_key (fresh 0) (is_candidate cid s.candidate_id) db.cvs h),
    )

product_le_one : (n a b : ℕ) → n ≡ a * b → a ≤ 1 → b ≤ 1 → n ≤ 1
product_le_one n zero b h k l = rw h (omega arith)
product_le_one n (suc a) b h k l =
    let none_left : a ≡ 0 = omega (arith, k) in rw (h, none_left) (omega (arith, l))

count-implied {ℓ} :
    {A : Type ℓ} (p q : A → Bool)
    → ((x : A) → p x ≡ true → q x ≡ true)
    → (xs : List A) → count p xs ≤ count q xs
count-implied p q h [] = omega arith
count-implied p q h (x ∷ xs) = ground (arith, count-implied p q h xs, h x)

-- uq_campaign_pair_jd_cv
unique_pair :
    (db : Db) → IsRegistered db → (c jd_id cv_id : ℕ) → count (is_pair c jd_id cv_id) db.pairs ≤ 1
unique_pair db r c jd_id cv_id =
    product_le_one _ (count (is_jd c jd_id) db.jds) (count (is_cv c cv_id) db.cvs)
      (r.matched c jd_id cv_id)
      (omega (
        arith,
        count-implied (is_jd c jd_id) (λ (j : CampaignJd). j.id == jd_id) (λ j e. ground arith)
            db.jds,
        r.distinct_jds jd_id,
      ))
      (omega (
        arith,
        count-implied (is_cv c cv_id) (λ (v : CampaignCv). v.id == cv_id) (λ v e. ground arith)
            db.cvs,
        r.distinct_cvs cv_id,
      ))

count-any {ℓ} :
    {A : Type ℓ} (p q : A → Bool) (xs : List A) → any (λ x. p x || q x) xs ≡ false → count p xs ≡ 0
count-any p q [] h = refl
count-any p q (x ∷ xs) h = ground (arith, count-any p q xs)

reserve_cv_cases :
    (now : ℕ) (fresh : ℕ → ℕ) (cid owner : ℕ) (s : Submission) (seen db d : Db) (created : Bool)
    (id : ℕ)
    → reserve_cv now fresh cid owner s seen db ≡ ok (d, created, id)
    → (d ≡ db)
      ⊎ ((d ≡ with_cv now fresh cid s db) × (violates db (new_cv now (fresh 0) cid s) ≡ false))
unfolding reserve_cv
reserve_cv_cases now fresh cid owner s seen db d created id h = ground arith

with_cv_accounted :
    (now : ℕ) (fresh : ℕ → ℕ) (cid : ℕ) (s : Submission) (db : Db) (c : ℕ)
    → count (pair_in c) db.pairs ≡ count (jd_in c) db.jds * count (cv_in c) db.cvs
    → count (pair_in c) (with_cv now fresh cid s db).pairs
      ≡ count (jd_in c) (with_cv now fresh cid s db).jds
        * count (cv_in c) (with_cv now fresh cid s db).cvs
with_cv_accounted now fresh cid s db c h =
    let rows = new_pairs now fresh cid (fresh 0) 1 (filter (jd_in cid) db.jds) in
    let v = new_cv now (fresh 0) cid s in
    grind (
      arith,
      count-new_pairs now fresh cid (fresh 0) 1 c db.jds,
      count-append (pair_in c) db.pairs rows,
      count-append (cv_in c) db.cvs (v ∷ []),
      h,
    )

no_such_candidate :
    (db : Db) (v : CampaignCv) (c candidate : ℕ)
    → violates db v ≡ false
    → v.campaign_id ≡ c
    → v.candidate_id ≡ candidate
    → count (is_candidate c candidate) db.cvs ≡ 0
no_such_candidate db v c candidate h e k =
    subst (λ x. count (is_candidate c x) db.cvs ≡ 0) k
      (subst (λ x. count (is_candidate x v.candidate_id) db.cvs ≡ 0) e
        (count-any (is_candidate v.campaign_id v.candidate_id) (λ u. u.id == v.id) db.cvs h))

with_cv_distinct :
    (now : ℕ) (fresh : ℕ → ℕ) (cid : ℕ) (s : Submission) (db : Db) (c candidate : ℕ)
    → violates db (new_cv now (fresh 0) cid s) ≡ false
    → count (is_candidate c candidate) db.cvs ≤ 1
    → count (is_candidate c candidate) (with_cv now fresh cid s db).cvs ≤ 1
with_cv_distinct now fresh cid s db c candidate h k =
    let v = new_cv now (fresh 0) cid s in
    ground (
      arith,
      count-append (is_candidate c candidate) db.cvs (v ∷ []),
      λ (e : cid ≡ c) (f : s.candidate_id ≡ candidate). no_such_candidate db v c candidate h e f,
    )

with_cv-IsRegistered :
    (now : ℕ) (fresh : ℕ → ℕ) (cid : ℕ) (s : Submission) (db : Db)
    → IsRegistered db
    → violates db (new_cv now (fresh 0) cid s) ≡ false
    → IsRegistered (with_cv now fresh cid s db)
with_cv-IsRegistered now fresh cid s db r free = record {
  matched = λ c jd_id k. with_cv_matched now fresh cid s db c jd_id k (r.matched c jd_id k);
  accounted = λ c. with_cv_accounted now fresh cid s db c (r.accounted c);
  distinct_jds = r.distinct_jds;
  distinct_cvs = λ k. with_cv_keyed now fresh cid s db k free (r.distinct_cvs k);
  distinct_candidates = λ c candidate.
      with_cv_distinct now fresh cid s db c candidate free (r.distinct_candidates c candidate);
}

-- Whenever `reserve_cv` returns, also when other transactions ran between its first lookup and its
-- insertion, these are kept: a JD and a CV have a pair exactly if both are rows of the pair's campaign,
-- so a campaign has as many pairs as JDs times CVs; primary keys of JDs and CVs are distinct; and no
-- campaign has a candidate twice. So no JD and CV have two pairs in a campaign.
pub reserve_cv-IsRegistered :
    (now : ℕ) (fresh : ℕ → ℕ) (cid owner : ℕ) (s : Submission) (seen db d : Db) (created : Bool)
    (id : ℕ)
    → IsRegistered db
    → reserve_cv now fresh cid owner s seen db ≡ ok (d, created, id)
    → IsRegistered d × ((c jd_id cv_id : ℕ) → count (is_pair c jd_id cv_id) d.pairs ≤ 1)
reserve_cv-IsRegistered now fresh cid owner s seen db d created id r h =
    let kept : IsRegistered d =
      elim (reserve_cv_cases now fresh cid owner s seen db d created id h) [
        | inl e ↦ subst IsRegistered (sym e) r
        | inr (e, free) ↦
            subst IsRegistered (sym e) (with_cv-IsRegistered now fresh cid s db r free)
      ] in
    (kept, unique_pair d kept)
