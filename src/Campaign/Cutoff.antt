-- ===== src/Campaign/Cutoff.antt =====
-- `finalize_ready_jds` of app/campaigns/coordinator.py: when every pair of a JD is resolved, its
-- retrieval results are ranked and cut off together. The order and the eligibility are
-- `candidate_sort_key` and `eligible` of app/stage2_retrieval/coverage.py.
pub mod Placement
pub mod Barrier
pub mod Flow
use text.Mathlib.Text.{◌==◌ as str_eq}
use ai_cv_screening.Prelude.{
  ℕ, suc, ◌+◌, min, String, Bool, false, true, not, ◌&&◌, ◌||◌, Option, none, some, List, [], ◌∷◌,
  ltb, leb, ◌==◌, if◌then◌else◌, is_some, Result, ok, err, filter, count, any, sort_by, map,
}
use ai_cv_screening.Prelude.Table.{find, update}
use ai_cv_screening.Campaign.Lifecycle.{pair_key}
use ai_cv_screening.Campaign.Rows.{
  PairStatus, JdStatus, Stage2Evidence, ResultSnapshot, empty_snapshot, CampaignJd, Pair, Db,
  is_open_jd, is_stage2_ready, is_done_before_cutoff,
}
use ai_cv_screening.Campaign.Dispatch.{jd_row_key, cv_row_key, candidate_of}

abbrev pub scoring_version : String
scoring_version = "stage2-coverage-v2"

abbrev pub max_candidates_per_jd : ℕ
max_candidates_per_jd = 15

-- The dict of `payload(row)`: the stored evidence with the row's identifier and score.
pub record Payload : Type 0 where
  pub candidate_id : ℕ
  pub composite_score : Option ℕ
  pub scoring_version : Option String
  pub shortlist_eligible : Option Bool
  pub responsibility_coverage : ℕ
  pub applied_coverage : ℕ
  pub relevance_reason : Option String

-- the tuple of `candidate_sort_key`, its numbers not yet negated
pub record SortKey : Type 0 where
  pub score : ℕ
  pub responsibility : ℕ
  pub applied : ℕ
  pub candidate : ℕ

unfoldable pub candidate_sort_key : Payload → Result SortKey
candidate_sort_key p = elim p.composite_score [
  | none ↦ err "Invalid candidate coverage score"
  | some s ↦ ok (record {
    score = s;
    responsibility = p.responsibility_coverage;
    applied = p.applied_coverage;
    candidate = p.candidate_id;
  })
]

-- the order of those tuples: larger numbers first, then the smaller identifier
unfoldable pub sort_key_le : SortKey → SortKey → Bool
sort_key_le a b =
    if not (a.score == b.score)
    then ltb b.score a.score
    else if not (a.responsibility == b.responsibility)
    then ltb b.responsibility a.responsibility
    else if not (a.applied == b.applied)
    then ltb b.applied a.applied
    else leb a.candidate b.candidate

abbrev current_version : Option String → Bool
current_version none = false
current_version (some v) = str_eq v scoring_version

abbrev is_true : Option Bool → Bool
is_true (some true) = true
is_true _ = false

-- `0 < score <= 1` in millionths
abbrev in_unit : Option ℕ → Bool
in_unit none = false
in_unit (some s) = ltb 0 s && leb s 1000000

unfoldable pub eligible : Payload → Bool
eligible p =
    current_version p.scoring_version && (is_true p.shortlist_eligible && in_unit p.composite_score)

abbrev pub stored_evidence : Pair → Option Stage2Evidence
stored_evidence p = elim p.result_snapshot [ none ↦ none | some s ↦ s.stage2_evidence ]

unfoldable pub payload : Db → Pair → Payload
payload db p = elim (stored_evidence p) [
  | none ↦ record {
    candidate_id = candidate_of db p;
    composite_score = p.stage2_score;
    scoring_version = none;
    shortlist_eligible = none;
    responsibility_coverage = 0;
    applied_coverage = 0;
    relevance_reason = none;
  }
  | some e ↦ record {
    candidate_id = candidate_of db p;
    composite_score = p.stage2_score;
    scoring_version = e.scoring_version;
    shortlist_eligible = e.shortlist_eligible;
    responsibility_coverage = e.responsibility_coverage;
    applied_coverage = e.applied_coverage;
    relevance_reason = e.relevance_reason;
  }
]

pub row_eligible : Db → Pair → Bool
unfolding payload eligible
row_eligible db p = eligible (payload db p)

-- A key that raises is ruled out before the sort; it is put last here.
abbrev pub result_le : Result SortKey → Result SortKey → Bool
result_le (ok a) (ok b) = sort_key_le a b
result_le (ok a) (err e) = true
result_le (err e) (ok b) = false
result_le (err e) (err f) = true

pub row_le : Db → Pair → Pair → Bool
unfolding sort_key_le
row_le db a b = result_le (candidate_sort_key (payload db a)) (candidate_sort_key (payload db b))

-- `evidence.get("relevance_reason") or "STAGE2_SCORING_REPLAY_REQUIRED"`
abbrev pub review_code : Option String → String
review_code none = "STAGE2_SCORING_REPLAY_REQUIRED"
review_code (some s) = if str_eq s "" then "STAGE2_SCORING_REPLAY_REQUIRED" else s

abbrev snapshot_or_empty : Option ResultSnapshot → ResultSnapshot
snapshot_or_empty none = empty_snapshot
snapshot_or_empty (some s) = s

held_snapshot : ℕ → String → Option ResultSnapshot → ResultSnapshot
held_snapshot identifier code snapshot =
    let base = snapshot_or_empty snapshot in
    record base {
      candidate_id = some identifier;
      evaluation_status = some "REVIEW_REQUIRED";
      stage = some "STAGE2";
      reason = some code;
    }

-- the body of the ranking loop, by its two tests
unfoldable pub place : ℕ → ℕ → Payload → Bool → Bool → Pair → Pair
unfolding held_snapshot
place now rank evidence true true p = record p {
  stage2_rank = some rank;
  status = PairStatus.shortlisted;
  updated_at = now;
}
place now rank evidence true false p = record p {
  stage2_rank = some rank;
  status = PairStatus.cutoff_excluded;
  updated_at = now;
}
place now rank evidence false room p = record p {
  stage2_rank = some rank;
  status = PairStatus.review_required;
  verification_required = true;
  failure_code = some (review_code evidence.relevance_reason);
  result_snapshot = some (
      held_snapshot evidence.candidate_id (review_code evidence.relevance_reason)
        p.result_snapshot);
  updated_at = now;
}

-- the counter `selected` after a row
abbrev pub next_selected : Db → ℕ → ℕ → Pair → ℕ
next_selected db limit selected r =
    if row_eligible db r && ltb selected limit then selected + 1 else selected

-- the write to a row
abbrev pub write : Db → ℕ → ℕ → ℕ → ℕ → Pair → Pair → Pair
write db now limit selected rank r =
    place now rank (payload db r) (row_eligible db r) (ltb selected limit)

-- `for rank, row in enumerate(rows, 1)`; the loop starts at `selected = 0`
unfoldable pub rank_rows : Db → ℕ → ℕ → ℕ → ℕ → List Pair → List Pair → List Pair
rank_rows db now limit selected rank [] table = table
rank_rows db now limit selected rank (r ∷ rows) table =
    rank_rows db now limit (next_selected db limit selected r) (rank + 1) rows
      (update pair_key r.id (write db now limit selected rank r) table)

abbrev pub in_jd : ℕ → Pair → Bool
in_jd jd_id p = p.jd_id == jd_id

-- the condition of the count `unresolved`
abbrev pub is_unresolved : ℕ → Pair → Bool
is_unresolved jd_id p =
    in_jd jd_id p && not (is_done_before_cutoff p.status || is_stage2_ready p.status)

-- the rows of the ranking: the join wants the CV row
abbrev pub is_ranked : Db → ℕ → Pair → Bool
is_ranked db jd_id p =
    in_jd jd_id p && (is_stage2_ready p.status && is_some (find cv_row_key p.cv_id db.cvs))

abbrev pub unscored : Pair → Bool
unscored p = not (is_some p.stage2_score)

pub ranked_rows : Db → ℕ → List Pair
unfolding row_le
ranked_rows db jd_id = sort_by (row_le db) (filter (is_ranked db jd_id) db.pairs)

-- `if jd.status == "PENDING": jd.status = "PROCESSING"`
abbrev pub start_processing : JdStatus → JdStatus
start_processing JdStatus.pending = JdStatus.processing
start_processing s = s

abbrev pub begin_jd : ℕ → Db → Db
begin_jd jd_id db = record db {
  jds = update jd_row_key jd_id (λ j. record j { status = start_processing j.status }) db.jds;
}

abbrev pub stage3_room : CampaignJd → ℕ
stage3_room jd = min jd.stage3_cap max_candidates_per_jd

unfoldable pub cut_off : ℕ → Db → CampaignJd → Db
unfolding rank_rows place row_eligible ranked_rows
cut_off now db jd = record db {
  pairs = rank_rows db now (stage3_room jd) 0 1 (ranked_rows db jd.id) db.pairs;
  jds =
      update jd_row_key jd.id (λ j. record j { status = JdStatus.shortlisted; updated_at = now })
        db.jds;
}

-- the transaction on the row that the query found; the Boolean says whether the JD was finalized
unfoldable pub finalize_found : ℕ → Db → Option CampaignJd → Result (Db × Bool)
finalize_found now db none = err "NoResultFound"
finalize_found now db (some jd) =
    if not (is_open_jd jd.status)
    then ok (db, false)
    else if ltb 0 (count (is_unresolved jd.id) db.pairs)
    then ok (begin_jd jd.id db, false)
    else if any unscored (filter (is_ranked db jd.id) db.pairs)
    then err "Invalid candidate coverage score"
    else ok (cut_off now db jd, true)

-- One iteration of the loop over the JDs.
unfoldable pub finalize_jd : ℕ → ℕ → Db → Result (Db × Bool)
unfolding finalize_found cut_off
finalize_jd now jd_id db = finalize_found now db (find jd_row_key jd_id db.jds)

abbrev jd_is_ready : ℕ → CampaignJd → Bool
jd_is_ready cid j = j.campaign_id == cid && is_open_jd j.status

-- the tables, the finalized JDs and the exception, if one was raised
abbrev pub Finalized : Type 0
Finalized = Db × List ℕ × Option String

-- An exception ends the loop, and what was committed before stays.
finalize_then : ℕ → Db → (Db → Finalized) → Result (Db × Bool) → Finalized
finalize_then jd_id db rest (err e) = (db, [], some e)
finalize_then jd_id db rest (ok r) =
    let later = rest r.0 in (later.0, if r.1 then jd_id ∷ later.1 else later.1, later.2)

finalize_loop : ℕ → List ℕ → Db → Finalized
unfolding finalize_then
finalize_loop now [] db = (db, [], none)
finalize_loop now (jd_id ∷ jd_ids) db =
    finalize_then jd_id db (finalize_loop now jd_ids) (finalize_jd now jd_id db)

unfoldable pub finalize_ready_jds : ℕ → ℕ → Db → Finalized
unfolding finalize_loop finalize_jd
finalize_ready_jds now cid db =
    finalize_loop now (map (λ (j : CampaignJd). j.id) (filter (jd_is_ready cid) db.jds)) db
