-- ===== src/Pipeline/Filing.antt =====
-- Settling a candidate of the synchronous pipeline together with the event that is logged for it, and
-- the lists of the response with one more item.
use text.Mathlib.TextPositions.{eq_refl}
use ai_cv_screening.Prelude.{
  ℕ, ◌+◌, Bool, true, false, ◌||◌, Option, none, some, List, [], ◌∷◌, ◌++◌, ◌==◌, ok, any, filter,
  Bool-cases, ◌≡◌, ◌≢◌, refl, ap, ◌∙◌, inl, inr, arith,
}
use ai_cv_screening.Prelude.Table.{find, update, find-update_ne}
use ai_cv_screening.Prelude.Tallies.{update-update, any-append, length-append, or_false}
use ai_cv_screening.Rules.Engine.{Decision, Check, Details, is_review}
use ai_cv_screening.Pipeline.Ledger.{
  Stage, Code, Event, stage1_verification, Item, Entry, entry_key, Progress, logged, log, filed,
  settle,
}
use ai_cv_screening.Pipeline.Accounting.{
  is_review_event, first_details, check_found, same_decision, same_checks, same_bool, carries,
  same_stage, own_details, or_else,
}
use ai_cv_screening.Pipeline.Books.{Books, is_of, listed_in, list_length}
use ai_cv_screening.Pipeline.Changes.{Open, Closed, settle-Books}

-- no other candidate's entry is touched
abbrev pub Touches : ℕ → Progress → Progress → Type 0
Touches k s t = (j : ℕ) → k ≢ j → find entry_key j t.outcomes ≡ find entry_key j s.outcomes

-- a survivor of the hard filters that is not settled, with its details
pub record Pending (k : ℕ) (d : Details) (es : List Entry) : Type 0 where
  pub opened : Open k es
  pub details : first_details opened.entry.stage_history ≡ some d

pub carry_Pending :
    (k : ℕ) (d : Details) (es fs : List Entry)
    → find entry_key k fs ≡ find entry_key k es
    → Pending k d es
    → Pending k d fs
carry_Pending k d es fs same p = record {
  opened = record {
    entry = p.opened.entry;
    found = same ∙ p.opened.found;
    unsettled = p.opened.unsettled;
  };
  details = p.details;
}

abbrev pub both : Code → Stage → Item → Event → Entry → Entry
both code stage item v e = logged v (filed code stage item e)

both_made :
    (k : ℕ) (code : Code) (stage : Stage) (item : Item) (v : Event) (es : List Entry)
    → log k v (settle k code stage item es) ≡ update entry_key k (both code stage item v) es
both_made k code stage item v es =
    update-update entry_key k (filed code stage item) (logged v) (λ e. refl) es

pub both-Touches :
    (k : ℕ) (code : Code) (stage : Stage) (item : Item) (v : Event) (s t : Progress)
    → t.outcomes ≡ log k v (settle k code stage item s.outcomes)
    → Touches k s t
both-Touches k code stage item v s t made j ne =
    ap (find entry_key j) (made ∙ both_made k code stage item v s.outcomes)
    ∙ find-update_ne entry_key k j (both code stage item v) (λ e. refl) ne s.outcomes

-- an event that is no decision
abbrev pub Plain : Event → Type 0
Plain v = (is_review_event v ≡ false) × (v.details ≡ none)

pub reviewed-append :
    (v : Event) (h : List Event)
    → is_review_event v ≡ false
    → any is_review_event (h ++ (v ∷ [])) ≡ any is_review_event h
reviewed-append v h e =
    any-append is_review_event h (v ∷ [])
    ∙ ap (λ b. any is_review_event h || (b || false)) e
    ∙ or_false (any is_review_event h)

pub details-append :
    (v : Event) (h : List Event)
    → v.details ≡ none
    → first_details (h ++ (v ∷ [])) ≡ first_details h
details-append v [] e = elim (Bool-cases (same_stage v.stage Stage.stage1)) [
  | inl own ↦ rw (own, e)
  | inr other ↦ rw other
]
details-append v (w ∷ h) e = ap (or_else (own_details w)) (details-append v h e)

module _ (a b c d k : Bool) where
  put_first : ((a || (k || false)) || (b || (c || d))) ≡ ((a || (b || (c || d))) || k)
  put_first = ground arith

  put_second : (a || ((b || (k || false)) || (c || d))) ≡ ((a || (b || (c || d))) || k)
  put_second = ground arith

  put_third : (a || (b || ((c || (k || false)) || d))) ≡ ((a || (b || (c || d))) || k)
  put_third = ground arith

  put_fourth : (a || (b || (c || (d || (k || false))))) ≡ ((a || (b || (c || d))) || k)
  put_fourth = ground arith

-- a list of the response with one more item
module _ (s : Progress) (item : Item) where
  abbrev pub lead : Progress
  lead = record s { leaderboard = s.leaderboard ++ (item ∷ []) }

  abbrev pub hold : Progress
  hold = record s { review_candidates = s.review_candidates ++ (item ∷ []) }

  abbrev pub refuse : Progress
  refuse = record s { rejected_candidates = s.rejected_candidates ++ (item ∷ []) }

  abbrev pub fall : Progress
  fall = record s { failed_candidates = s.failed_candidates ++ (item ∷ []) }

  pub length-lead : list_length lead ≡ list_length s + 1
  length-lead = omega (arith, length-append s.leaderboard (item ∷ []))

  pub length-hold : list_length hold ≡ list_length s + 1
  length-hold = omega (arith, length-append s.review_candidates (item ∷ []))

  pub length-refuse : list_length refuse ≡ list_length s + 1
  length-refuse = omega (arith, length-append s.rejected_candidates (item ∷ []))

  pub length-fall : list_length fall ≡ list_length s + 1
  length-fall = omega (arith, length-append s.failed_candidates (item ∷ []))

  module _ (j : ℕ) where
    abbrev pub in_lead : Bool
    in_lead = any (is_of j) s.leaderboard

    abbrev pub in_hold : Bool
    in_hold = any (is_of j) s.review_candidates

    abbrev pub in_refuse : Bool
    in_refuse = any (is_of j) s.rejected_candidates

    abbrev pub in_fall : Bool
    in_fall = any (is_of j) s.failed_candidates

    abbrev pub is_it : Bool
    is_it = item.candidate_id == j

    pub listed-lead : listed_in j lead ≡ (listed_in j s || is_it)
    listed-lead =
        ap (λ x. x || (in_hold || (in_refuse || in_fall)))
          (any-append (is_of j) s.leaderboard (item ∷ []))
        ∙ put_first in_lead in_hold in_refuse in_fall is_it

    pub listed-hold : listed_in j hold ≡ (listed_in j s || is_it)
    listed-hold =
        ap (λ x. in_lead || (x || (in_refuse || in_fall)))
          (any-append (is_of j) s.review_candidates (item ∷ []))
        ∙ put_second in_lead in_hold in_refuse in_fall is_it

    pub listed-refuse : listed_in j refuse ≡ (listed_in j s || is_it)
    listed-refuse =
        ap (λ x. in_lead || (in_hold || (x || in_fall)))
          (any-append (is_of j) s.rejected_candidates (item ∷ []))
        ∙ put_third in_lead in_hold in_refuse in_fall is_it

    pub listed-fall : listed_in j fall ≡ (listed_in j s || is_it)
    listed-fall =
        ap (λ x. in_lead || (in_hold || (in_refuse || x)))
          (any-append (is_of j) s.failed_candidates (item ∷ []))
        ∙ put_fourth in_lead in_hold in_refuse in_fall is_it

same_decision_refl : (x : Decision) → same_decision x x ≡ true
same_decision_refl Decision.pass = refl
same_decision_refl Decision.review = refl
same_decision_refl Decision.fail = refl

same_checks_refl : (xs : List Check) → same_checks xs xs ≡ true
same_checks_refl [] = refl
same_checks_refl (c ∷ xs) =
    rw (eq_refl c.rule, same_decision_refl c.status, eq_refl c.code, same_checks_refl xs)

pub same_bool_refl : (b : Bool) → same_bool b b ≡ true
same_bool_refl true = refl
same_bool_refl false = refl

-- the metadata that the pipeline makes of the details are those that are asked for
pub carries_own : (d : Details) → carries d (some (stage1_verification d)) ≡ true
unfolding stage1_verification
carries_own d = rw (
  same_decision_refl d.status,
  same_checks_refl d.checks,
  same_checks_refl (filter is_review d.checks),
  same_bool_refl (any (λ c. true) (filter is_review d.checks)),
)

module _ (ids : List ℕ) (k : ℕ) (code : Code) (stage : Stage) (item : Item) (v : Event)
    (s t : Progress) (plain : Plain v)
    (made : t.outcomes ≡ log k v (settle k code stage item s.outcomes))
    (c : Closed k code stage s t) where
  pub file-Books :
      (o : Open k s.outcomes)
      → check_found (first_details o.entry.stage_history) (both code stage item v o.entry) ≡ ok tt
      → Books ids s
      → Books ids t
  file-Books o checked b =
      settle-Books ids k code stage (both code stage item v) s t (λ e. refl) o
        (record {
          code_of = refl;
          stage_of = refl;
          reviewed = reviewed-append v o.entry.stage_history plain.0;
          checked =
              ap (λ x. check_found x (both code stage item v o.entry))
                (details-append v o.entry.stage_history plain.1)
              ∙ checked;
        })
        (made ∙ both_made k code stage item v s.outcomes) c b

pub early_checked :
    (o : Option Details) (code : Code) (item : Item) (v : Event) (e : Entry)
    → check_found o (both code Stage.stage1 item v e) ≡ ok tt
early_checked none code item v e = refl
early_checked (some d) code item v e = refl
