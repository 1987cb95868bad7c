-- ===== src/Pipeline/Acceptance.antt =====
-- Lemmas that take `validate_accounting` (app/run_audit.py) through the response of the synchronous
-- pipeline, check by check.
use mathlib.Core.Bool.{false≢true}
use ai_cv_screening.Prelude.{
  ℕ, zero, suc, ◌+◌, String, Bool, true, false, ◌||◌, Option, none, some, List, [], ◌∷◌, ◌++◌, ◌==◌,
  Result, ok, ◌>>◌, raise_if, any, all, count, length, map, is_some, All, Bool-cases, ==_refl, ◌≡◌,
  refl, sym, ap, ◌∙◌, inl, inr, arith, count-le-length,
}
use ai_cv_screening.Prelude.Tallies.{
  any-append, any-sort_by, length-append, length-sort_by, or_true,
}
use ai_cv_screening.Pipeline.Ledger.{Stage, Code, Event, Item, Entry, entry_key, Metrics, Progress}
use ai_cv_screening.Pipeline.Run.{distinct, is_settled, item_le, Report, report, finish}
use ai_cv_screening.Pipeline.Accounting.{
  check_all, is_incomplete, member, different_sets, entry_id, item_id, public_items, counted,
  with_code, count_codes, ◌=/=◌, check_lists, check_counts, check_metrics, validate_accounting,
  is_stage_failure, is_stage_review, was_reviewed,
}
use ai_cv_screening.Pipeline.Books.{
  Books, tests, tallies, kept_counts, closed, is_of, listed_in, settled_in, Sound, has_name,
}
use ai_cv_screening.Pipeline.Filter.{seen, passing, on_stage2, on_stage3}

-- every candidate has been through the stages
pub record Complete (n : ℕ) (m : Metrics) : Type 0 where
  pub processed_count : m.stage0_processed ≡ n
  pub seen_count : seen m ≡ n
  pub no_failure : m.stage0_failed ≡ 0
  pub no_review : m.stage0_review_required ≡ 0
  pub second : on_stage2 m + m.stage2_shortlisted ≡ passing m
  pub third : on_stage3 m ≡ m.stage2_shortlisted
  pub evaluated_count : m.stage3_evaluated ≡ m.stage2_shortlisted

pub closed-Complete : (n : ℕ) (m : Metrics) → Complete n m → closed m ≡ n
closed-Complete n m c = omega (arith, c.seen_count, c.no_failure, c.no_review, c.second, c.third)

-- a check that does not raise
pass :
    {b : Bool} (message : String) {next : Result (Unit {0})}
    → b ≡ false
    → next ≡ ok tt
    → (raise_if b message >> next) ≡ ok tt
pass {b} message {next} h k = rw (h, k)

last_pass : {b : Bool} (message : String) → b ≡ false → raise_if b message ≡ ok tt
last_pass {b} message h = rw h

agree : (a b : ℕ) → a ≡ b → (a =/= b) ≡ false
agree a b e = rw (e, ==_refl b)

neither : (a b : Bool) → a ≡ false → b ≡ false → (a || b) ≡ false
neither a b h k = rw (h, k)

-- where all are counted, each passes
All-counted :
    (q : Entry → Bool) (es : List Entry) → count q es ≡ length es → All (λ e. q e ≡ true) es
All-counted q [] h = tt
All-counted q (e ∷ es) h = elim (Bool-cases (q e)) [
  | inl t ↦ (t, All-counted q es (ground (arith, h, t)))
  | inr f ↦ absurd (ground (arith, h, f, count-le-length q es))
]

complete_stage :
    (es : List Entry)
    → All Sound es
    → All (λ e. is_settled e ≡ true) es
    → any is_incomplete es ≡ false
complete_stage [] h k = refl
complete_stage (e ∷ es) h k = rw (h.0.1, k.0, complete_stage es h.1 k.1)

check_all-Sound : (es : List Entry) → All Sound es → check_all es ≡ ok tt
check_all-Sound [] h = refl
check_all-Sound (e ∷ es) h = rw (h.0.0, check_all-Sound es h.1)

abbrev pub entry_of : ℕ → Option Code → Option Stage → List Event → Option Item → Entry
entry_of k code stage history item = record {
  candidate_id = k;
  outcome = code;
  stage = stage;
  stage_history = history;
  result_snapshot = item;
}

one_code :
    (k : ℕ) (c : Option Code) (s : Option Stage) (h : List Event) (i : Option Item)
    → is_some s ≡ is_some c
    → has_name c ≡ true
    → count_codes (entry_of k c s h i ∷ []) ≡ count is_settled (entry_of k c s h i ∷ [])
one_code k none s h i e n = refl
one_code k (some c) none h i e n = absurd (false≢true e)
one_code k (some Code.success) (some s) h i e n = refl
one_code k (some Code.review_required) (some s) h i e n = refl
one_code k (some Code.evaluation_failed) (some s) h i e n = refl
one_code k (some Code.filter_rejected) (some s) h i e n = refl
one_code k (some Code.cutoff_excluded) (some s) h i e n = refl
one_code k (some Code.extraction_failed) (some s) h i e n = refl
one_code k (some Code.processing_failed) (some s) h i e n = refl
one_code k (some (Code.unknown x)) (some s) h i e n = ground (arith, n)

-- each settled outcome has one of the seven codes
count_codes_total : (es : List Entry) → All Sound es → count_codes es ≡ count is_settled es
count_codes_total [] h = refl
count_codes_total (e ∷ es) h = omega (
  arith,
  one_code e.candidate_id e.outcome e.stage e.stage_history e.result_snapshot h.0.1 h.0.2,
  count_codes_total es h.1,
)

all-ext : (p q : ℕ → Bool) → ((k : ℕ) → p k ≡ q k) → (xs : List ℕ) → all p xs ≡ all q xs
all-ext p q h [] = refl
all-ext p q h (x ∷ xs) = rw (h x, all-ext p q h xs)

all_within :
    (p : ℕ → Bool) (xs : List ℕ) → ((k : ℕ) → member xs k ≡ true → p k ≡ true) → all p xs ≡ true
all_within p [] h = refl
all_within p (x ∷ xs) h =
    rw (h x (rw (==_refl x)), all_within p xs (λ k m. h k (rw m (or_true (x == k)))))

same_members :
    (xs ys : List ℕ) → ((k : ℕ) → member xs k ≡ member ys k) → different_sets xs ys ≡ false
same_members xs ys h =
    rw
      (all_within (member ys) xs (λ k m. sym (h k) ∙ m), all_within (member xs) ys (λ k m. h k ∙ m))

member-items : (k : ℕ) (is : List Item) → member (map item_id is) k ≡ any (is_of k) is
member-items k [] = refl
member-items k (i ∷ is) = rw (member-items k is)

settled_in-member :
    (k : ℕ) (es : List Entry)
    → All (λ e. is_settled e ≡ true) es
    → settled_in k es ≡ member (map entry_key es) k
settled_in-member k [] h = refl
settled_in-member k (e ∷ es) h = elim (Bool-cases (entry_key e == k)) [
  | inl t ↦ rw (t, h.0)
  | inr f ↦ rw f (settled_in-member k es h.1)
]

length-keys : (es : List Entry) → length (map entry_key es) ≡ length es
length-keys [] = refl
length-keys (e ∷ es) = ap suc (length-keys es)

abbrev pub nth : ℕ → List ℕ → ℕ
nth i [] = 0
nth zero (x ∷ xs) = x
nth (suc i) (x ∷ xs) = nth i xs

module _ (ids : List ℕ) (s : Progress) (unique : distinct ids ≡ ids) (b : Books ids s)
    (c : Complete (length ids) s.metrics) where
  abbrev made : Report
  made = report s (record s.metrics { accounted_candidates = count is_settled s.outcomes })

  every_settled : count is_settled s.outcomes ≡ length ids
  every_settled = b.settled ∙ closed-Complete (length ids) s.metrics c

  pub finish-made : finish (length ids) s ≡ ok made
  unfolding finish
  finish-made = rw (agree (count is_settled s.outcomes) (length ids) every_settled)

  kept : (i : ℕ) → nth i (tallies tests s.outcomes) ≡ nth i (kept_counts s.metrics)
  kept i = ap (nth i) b.tallied

  length-outcomes : length s.outcomes ≡ length ids
  length-outcomes = sym (length-keys s.outcomes) ∙ ap length b.keys

  All-settled : All (λ e. is_settled e ≡ true) s.outcomes
  All-settled = All-counted is_settled s.outcomes (every_settled ∙ sym length-outcomes)

  length-public : length (public_items made) ≡ length ids
  length-public = omega (
    arith,
    length-append s.leaderboard
        (made.review_candidates ++ (made.rejected_candidates ++ made.failed_candidates)),
    length-append made.review_candidates (made.rejected_candidates ++ made.failed_candidates),
    length-append made.rejected_candidates made.failed_candidates,
    length-sort_by item_le s.review_candidates,
    length-sort_by item_le s.rejected_candidates,
    length-sort_by item_le s.failed_candidates,
    b.listed,
    closed-Complete (length ids) s.metrics c,
  )

  any-public : (k : ℕ) → any (is_of k) (public_items made) ≡ listed_in k s
  any-public k = rw (
    any-append (is_of k) s.leaderboard
        (made.review_candidates ++ (made.rejected_candidates ++ made.failed_candidates)),
    any-append (is_of k) made.review_candidates
        (made.rejected_candidates ++ made.failed_candidates),
    any-append (is_of k) made.rejected_candidates made.failed_candidates,
    any-sort_by (is_of k) item_le s.review_candidates,
    any-sort_by (is_of k) item_le s.rejected_candidates,
    any-sort_by (is_of k) item_le s.failed_candidates,
  )

  member-public : (k : ℕ) → member (map item_id (public_items made)) k ≡ member ids k
  member-public k =
      member-items k (public_items made)
      ∙ any-public k
      ∙ b.published k
      ∙ settled_in-member k s.outcomes All-settled
      ∙ ap (λ ks. member ks k) b.keys

  check_lists-made : check_lists made ids ≡ ok tt
  unfolding check_lists
  check_lists-made = rw unique (
      pass _
        (neither (length ids =/= length ids) (length s.outcomes =/= length ids)
          (agree (length ids) (length ids) refl)
          (agree (length s.outcomes) (length ids) length-outcomes))
        (pass _ (same_members (map entry_id s.outcomes) ids (λ k. ap (λ ks. member ks k) b.keys)) (
          pass _
            (neither (length (public_items made) =/= length ids)
              (different_sets (map item_id (public_items made)) ids)
              (agree (length (public_items made)) (length ids) length-public)
              (same_members (map item_id (public_items made)) ids member-public))
            (last_pass _ (complete_stage s.outcomes b.sound All-settled)))))

  check_counts-made : check_counts made (length ids) ≡ ok tt
  unfolding check_counts
  check_counts-made =
      let m = s.metrics in
      let es = s.outcomes in
      pass _ (agree m.total_input_candidates (length ids) b.total) (
        pass _ (agree (count_codes es) (length ids) (count_codes_total es b.sound ∙ every_settled))
          (pass _
            (neither (m.stage3_succeeded =/= with_code Code.success es)
              (m.stage3_failed =/= with_code Code.evaluation_failed es)
              (agree m.stage3_succeeded (with_code Code.success es) (sym (kept 0)))
              (agree m.stage3_failed (with_code Code.evaluation_failed es) (sym (kept 1))))
            (pass _ (agree (counted (is_stage_failure Stage.stage0) made) m.stage0_failed (kept 4))
              (pass _
                (agree (counted (is_stage_failure Stage.stage1) made) m.stage1_failed (kept 5))
                (pass _
                  (agree (counted (is_stage_failure Stage.stage2) made) m.stage2_failed (kept 6))
                  (last_pass _
                    (agree m.stage1_review_required (count was_reviewed es) (sym b.reviews))))))))

  check_metrics-made : check_metrics made (length ids) ≡ ok tt
  unfolding check_metrics
  check_metrics-made =
      let m = s.metrics in
      let es = s.outcomes in
      pass _
        (agree m.stage3_review_required (counted (is_stage_review Stage.stage3) made)
          (sym (kept 9)))
        (pass _
          (neither (m.stage1_rejected =/= with_code Code.filter_rejected es)
            (m.stage2_excluded =/= with_code Code.cutoff_excluded es)
            (agree m.stage1_rejected (with_code Code.filter_rejected es) (sym (kept 2)))
            (agree m.stage2_excluded (with_code Code.cutoff_excluded es) (sym (kept 3))))
          (pass _ (agree (count is_settled es) (length ids) every_settled) (
            pass _
              (agree (m.stage0_processed + m.stage0_failed + m.stage0_review_required) (length ids)
                (omega (arith, c.processed_count, c.no_failure, c.no_review)))
              (pass _
                (agree m.stage0_review_required (counted (is_stage_review Stage.stage0) made)
                  (sym (kept 7)))
                (pass _ (agree (seen m) m.stage0_processed (c.seen_count ∙ sym c.processed_count)) (
                  pass _
                    (agree m.stage2_review_required (counted (is_stage_review Stage.stage2) made)
                      (sym (kept 8)))
                    (pass _
                      (agree
                        (m.stage2_shortlisted + m.stage2_excluded + m.stage2_failed
                          + m.stage2_review_required)
                        (passing m) (omega (arith, c.second)))
                      (last_pass _ (
                        neither (on_stage3 m =/= m.stage3_evaluated)
                          (m.stage3_evaluated =/= m.stage2_shortlisted)
                          (agree (on_stage3 m) m.stage3_evaluated (c.third ∙ sym c.evaluated_count))
                          (agree m.stage3_evaluated m.stage2_shortlisted c.evaluated_count))))))))))

  pub validate_accounting-made : validate_accounting made ids ≡ ok tt
  unfolding validate_accounting
  validate_accounting-made = rw (
    unique,
    check_lists-made,
    check_counts-made,
    check_all-Sound s.outcomes b.sound,
    check_metrics-made,
  )
