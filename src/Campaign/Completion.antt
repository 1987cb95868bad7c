-- ===== src/Campaign/Completion.antt =====
-- `finalize_campaign` of app/campaigns/coordinator.py: a JD, then the campaign, is completed once
-- every pair is terminal.
use ai_cv_screening.Prelude.{
  ℕ, ◌≡◌, refl, Bool, true, false, not, ◌&&◌, some, List, [], ◌∷◌, arith, inl, inr, Bool-cases, ltb,
  ◌==◌, if◌then◌else◌, count, any, All,
}
use ai_cv_screening.Prelude.Table.{update, update_where}
use ai_cv_screening.Campaign.Rows.{
  CampaignStatus, JdStatus, Campaign, CampaignJd, Pair, Db, is_shortlisted_jd, is_completed_jd,
  is_terminal,
}
use ai_cv_screening.Campaign.Dispatch.{campaign_key, campaign_active}

-- `status.not_in(TERMINAL)` for the pairs of a JD
abbrev pub is_open_pair : ℕ → Pair → Bool
is_open_pair jd_id p = p.jd_id == jd_id && not (is_terminal p.status)

abbrev pub jd_in : ℕ → CampaignJd → Bool
jd_in cid j = j.campaign_id == cid

-- the tests of the loop over the JDs
abbrev pub jd_done : List Pair → ℕ → CampaignJd → Bool
jd_done pairs cid j =
    jd_in cid j && (is_shortlisted_jd j.status && not (ltb 0 (count (is_open_pair j.id) pairs)))

abbrev pub complete_jd : ℕ → CampaignJd → CampaignJd
complete_jd now j = record j { status = JdStatus.completed; updated_at = now }

abbrev pub jd_remaining : ℕ → CampaignJd → Bool
jd_remaining cid j = jd_in cid j && not (is_completed_jd j.status)

abbrev pub complete_campaign : ℕ → Campaign → Campaign
complete_campaign now c = record c {
  status = CampaignStatus.completed;
  completed_at = some now;
  updated_at = now;
}

-- The Boolean says whether the campaign was completed.
unfoldable pub finalize_campaign : ℕ → ℕ → Db → Db × Bool
finalize_campaign now cid db =
    if campaign_active db cid
    then (let jds = update_where (jd_done db.pairs cid) (complete_jd now) db.jds in
        if count (jd_remaining cid) jds == 0 && any (jd_in cid) jds
        then (
          record db {
            jds = jds;
            campaigns = update campaign_key cid (complete_campaign now) db.campaigns;
          },
          true,
        )
        else (record db { jds = jds }, false))
    else (db, false)

-- no pair of the JD is open
abbrev pub HasClosed : List Pair → CampaignJd → Type 0
HasClosed pairs j = count (is_open_pair j.id) pairs ≡ 0

-- a completed JD has only terminal pairs
abbrev pub IsSettled : List Pair → CampaignJd → Type 0
IsSettled pairs j = is_completed_jd j.status ≡ true → HasClosed pairs j

complete_settles :
    (now cid : ℕ) (pairs : List Pair) (jds : List CampaignJd)
    → All (IsSettled pairs) jds
    → All (IsSettled pairs) (update_where (jd_done pairs cid) (complete_jd now) jds)
complete_settles now cid pairs [] h = tt
complete_settles now cid pairs (j ∷ jds) h = elim (Bool-cases (jd_done pairs cid j)) [
  | inl e ↦ rw e ((λ c. ground arith), complete_settles now cid pairs jds h.1)
  | inr e ↦ rw e (h.0, complete_settles now cid pairs jds h.1)
]

none_remaining :
    (cid : ℕ) (pairs : List Pair) (jds : List CampaignJd)
    → All (IsSettled pairs) jds
    → count (jd_remaining cid) jds ≡ 0
    → All (λ j. jd_in cid j ≡ true → HasClosed pairs j) jds
none_remaining cid pairs [] h z = tt
none_remaining cid pairs (j ∷ jds) h z =
    (λ i. h.0 (ground arith), none_remaining cid pairs jds h.1 (ground arith))

pub finalize_campaign_pairs :
    (now cid : ℕ) (db : Db) → (finalize_campaign now cid db).0.pairs ≡ db.pairs
unfolding finalize_campaign
finalize_campaign_pairs now cid db = ground arith

-- `finalize_campaign` changes no pair, and if each completed JD has only terminal pairs then so it is
-- afterwards; if it reports the campaign completed, every JD of the campaign has only terminal pairs.
pub finalize_campaign_settles :
    (now cid : ℕ) (db : Db)
    → All (IsSettled db.pairs) db.jds
    → ((finalize_campaign now cid db).0.pairs ≡ db.pairs)
      × All (IsSettled db.pairs) (finalize_campaign now cid db).0.jds
      × ((finalize_campaign now cid db).1 ≡ true
          → All
              (λ j. jd_in cid j ≡ true → HasClosed db.pairs j)
              (finalize_campaign now cid db).0.jds)
unfolding finalize_campaign
finalize_campaign_settles now cid db h = elim (Bool-cases (campaign_active db cid)) [
  | inr e ↦ rw e (refl, h, λ t. cc)
  | inl e ↦
      let jds = update_where (jd_done db.pairs cid) (complete_jd now) db.jds in
      let settled = complete_settles now cid db.pairs db.jds h in
      rw e (elim (Bool-cases (count (jd_remaining cid) jds == 0 && any (jd_in cid) jds)) [
        | inl d ↦ rw d (refl, settled, λ t. none_remaining cid db.pairs jds settled (ground arith))
        | inr d ↦ rw d (refl, settled, λ t. cc)
      ])
]
