-- ===== src/Campaign/Storage/Counting.antt =====
-- `campaign_counts` of app/campaigns/persistence.py, and why its counts add up.
use ai_cv_screening.Prelude.{
  ℕ, ◌+◌, ◌*◌, ◌≡◌, refl, ◌∙◌, Bool, true, false, not, ◌&&◌, ◌||◌, List, [], ◌∷◌, arith, inl, inr,
  Bool-cases, ◌==◌, ==_refl, ltb, if◌then◌else◌, Result, ok, ◌>>=◌, ◌>>◌, raise_if, count,
}
use ai_cv_screening.Campaign.Rows.{
  PairStatus, Campaign, Pair, Db, is_terminal, is_shortlisted, is_stage3_running, is_success,
}
use ai_cv_screening.Campaign.Completion.{jd_in}
use ai_cv_screening.Campaign.Storage.{get_campaign, cv_in}

-- the statuses, in the order of the check constraint
abbrev pub all_statuses : List PairStatus
all_statuses =
    PairStatus.pending
    ∷ (PairStatus.running
        ∷ (PairStatus.stage2_ready
            ∷ (PairStatus.extraction_failed
                ∷ (PairStatus.filter_rejected
                    ∷ (PairStatus.processing_failed
                        ∷ (PairStatus.cutoff_excluded
                            ∷ (PairStatus.shortlisted
                                ∷ (PairStatus.stage3_running
                                    ∷ (PairStatus.success
                                        ∷ (PairStatus.review_required
                                            ∷ (PairStatus.evaluation_failed ∷ [])))))))))))

abbrev pub status_number : PairStatus → ℕ
status_number PairStatus.pending = 0
status_number PairStatus.running = 1
status_number PairStatus.stage2_ready = 2
status_number PairStatus.extraction_failed = 3
status_number PairStatus.filter_rejected = 4
status_number PairStatus.processing_failed = 5
status_number PairStatus.cutoff_excluded = 6
status_number PairStatus.shortlisted = 7
status_number PairStatus.stage3_running = 8
status_number PairStatus.success = 9
status_number PairStatus.review_required = 10
status_number PairStatus.evaluation_failed = 11

abbrev pub pair_in : ℕ → Pair → Bool
pair_in cid p = p.campaign_id == cid

abbrev pub has_status : ℕ → PairStatus → Pair → Bool
has_status cid s p = pair_in cid p && status_number p.status == status_number s

-- `select(status, count()).group_by(status)`: the statuses that occur
abbrev pub group_counts : ℕ → List Pair → List PairStatus → List (PairStatus × ℕ)
group_counts cid pairs [] = []
group_counts cid pairs (s ∷ statuses) =
    let rest = group_counts cid pairs statuses in
    let n = count (has_status cid s) pairs in if ltb 0 n then (s, n) ∷ rest else rest

abbrev pub sum_counts : List (PairStatus × ℕ) → ℕ
sum_counts [] = 0
sum_counts ((s, n) ∷ rows) = n + sum_counts rows

-- the generator over the rows in `terminal_pairs`
abbrev pub sum_terminal : List (PairStatus × ℕ) → ℕ
sum_terminal [] = 0
sum_terminal ((s, n) ∷ rows) =
    let rest = sum_terminal rows in if is_terminal s then n + rest else rest

-- the condition of `selected_pair_count`
abbrev pub is_selected : Pair → Bool
is_selected p =
    ltb 0 p.stage3_attempt_count
    || (is_shortlisted p.status || (is_stage3_running p.status || is_success p.status))

pub record Counts : Type 0 where
  pub jds : ℕ
  pub cvs : ℕ
  pub pairs : List (PairStatus × ℕ)
  pub selected_pairs : ℕ
  pub terminal_pairs : ℕ

-- the dict that is returned
abbrev pub counts : ℕ → Db → Counts
counts cid db = record {
  jds = count (jd_in cid) db.jds;
  cvs = count (cv_in cid) db.cvs;
  pairs = group_counts cid db.pairs all_statuses;
  selected_pairs = count (λ p. pair_in cid p && is_selected p) db.pairs;
  terminal_pairs = sum_terminal (group_counts cid db.pairs all_statuses);
}

unfoldable pub campaign_counts : ℕ → ℕ → Db → Result Counts
campaign_counts cid owner db = do
  campaign ← get_campaign db cid owner
  raise_if
      (not (
        sum_counts (group_counts cid db.pairs all_statuses)
        == count (jd_in cid) db.jds * count (cv_in cid) db.cvs))
      "Campaign pair accounting is incomplete"
  ok (counts cid db)

-- the pairs with one of the statuses, of those that `w` weighs
abbrev total : (PairStatus → Bool) → ℕ → List Pair → List PairStatus → ℕ
total w cid pairs [] = 0
total w cid pairs (s ∷ statuses) =
    (if w s then count (has_status cid s) pairs else 0) + total w cid pairs statuses

sum_counts-total :
    (cid : ℕ) (pairs : List Pair) (statuses : List PairStatus)
    → sum_counts (group_counts cid pairs statuses) ≡ total (λ s. true) cid pairs statuses
sum_counts-total cid pairs [] = refl
sum_counts-total cid pairs (s ∷ statuses) = ground (arith, sum_counts-total cid pairs statuses)

sum_terminal-total :
    (cid : ℕ) (pairs : List Pair) (statuses : List PairStatus)
    → sum_terminal (group_counts cid pairs statuses) ≡ total is_terminal cid pairs statuses
sum_terminal-total cid pairs [] = refl
sum_terminal-total cid pairs (s ∷ statuses) = elim (Bool-cases (is_terminal s)) [
  | inl e ↦ rw e (ground (arith, sum_terminal-total cid pairs statuses))
  | inr e ↦ rw e (ground (arith, sum_terminal-total cid pairs statuses))
]

total_cons :
    (w : PairStatus → Bool) (cid : ℕ) (p : Pair) (pairs : List Pair) (statuses : List PairStatus)
    → total w cid (p ∷ pairs) statuses
      ≡ count (λ s. has_status cid s p && w s) statuses + total w cid pairs statuses
total_cons w cid p pairs [] = refl
total_cons w cid p pairs (s ∷ statuses) = ground (arith, total_cons w cid p pairs statuses)

-- every status is listed once
one_status :
    (w : PairStatus → Bool) (b : Bool) (s : PairStatus)
    → count (λ t. (b && status_number s == status_number t) && w t) all_statuses
      ≡ (if b && w s then 1 else 0)
one_status w false s = ground arith
one_status w true PairStatus.pending = ground arith
one_status w true PairStatus.running = ground arith
one_status w true PairStatus.stage2_ready = ground arith
one_status w true PairStatus.shortlisted = ground arith
one_status w true PairStatus.stage3_running = ground arith
one_status w true PairStatus.extraction_failed = ground arith
one_status w true PairStatus.filter_rejected = ground arith
one_status w true PairStatus.processing_failed = ground arith
one_status w true PairStatus.cutoff_excluded = ground arith
one_status w true PairStatus.success = ground arith
one_status w true PairStatus.review_required = ground arith
one_status w true PairStatus.evaluation_failed = ground arith

total_nil :
    (w : PairStatus → Bool) (cid : ℕ) (statuses : List PairStatus) → total w cid [] statuses ≡ 0
total_nil w cid [] = refl
total_nil w cid (s ∷ statuses) = ground (arith, total_nil w cid statuses)

total_all :
    (w : PairStatus → Bool) (cid : ℕ) (pairs : List Pair)
    → total w cid pairs all_statuses ≡ count (λ p. pair_in cid p && w p.status) pairs
total_all w cid [] = total_nil w cid all_statuses
total_all w cid (p ∷ pairs) = omega (
  arith,
  total_cons w cid p pairs all_statuses,
  one_status w (pair_in cid p) p.status,
  total_all w cid pairs,
)

count_and_true :
    (p : Pair → Bool) (pairs : List Pair) → count (λ x. p x && true) pairs ≡ count p pairs
count_and_true p [] = refl
count_and_true p (x ∷ pairs) = ground (arith, count_and_true p pairs)

-- For the owner of a campaign that has one pair for each of its JDs and CVs, `campaign_counts`
-- returns: the counts by status add up to the number of JDs times the number of CVs, and
-- `terminal_pairs` is the number of its terminal pairs.
pub campaign_counts_total :
    (cid owner : ℕ) (db : Db) (c : Campaign)
    → get_campaign db cid owner ≡ ok c
    → count (pair_in cid) db.pairs ≡ count (jd_in cid) db.jds * count (cv_in cid) db.cvs
    → (r : Counts) × (campaign_counts cid owner db ≡ ok r)
      × (sum_counts r.pairs ≡ r.jds * r.cvs)
      × (r.terminal_pairs ≡ count (λ p. pair_in cid p && is_terminal p.status) db.pairs)
unfolding campaign_counts
campaign_counts_total cid owner db c own balanced =
    let sums =
      sum_counts-total cid db.pairs all_statuses
      ∙ total_all (λ s. true) cid db.pairs
      ∙ count_and_true (pair_in cid) db.pairs
      ∙ balanced in
    let ends = sum_terminal-total cid db.pairs all_statuses ∙ total_all is_terminal cid db.pairs in
    (
      counts cid db,
      rw (own, sums, ==_refl (count (jd_in cid) db.jds * count (cv_in cid) db.cvs)) refl,
      sums,
      ends,
    )
