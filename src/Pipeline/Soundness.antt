-- ===== src/Pipeline/Soundness.antt =====
-- What an accepted response says: `validate_accounting` of app/run_audit.py read as a specification.
use mathlib.Core.Bool.{true≢false}
use ai_cv_screening.Prelude.{
  ℕ, ◌⊎◌, Option, none, some, count, count-le-length, String, Bool, true, false, not, ◌||◌, ◌&&◌,
  List, [], ◌∷◌, ◌==◌, ==→eq, Result, ok, err, ◌>>◌, raise_if, is_some, any, all, length, map, All,
  Bool-cases, ◌≡◌, refl, sym, ap, ◌∙◌, inl, inr, arith,
}
use ai_cv_screening.Pipeline.Ledger.{Code, Stage, Event, Item, Entry}
use ai_cv_screening.Pipeline.Books.{is_known}
use ai_cv_screening.Pipeline.Acceptance.{entry_of}
use ai_cv_screening.Pipeline.Run.{Report, distinct, is_settled}
use ai_cv_screening.Pipeline.Accounting.{
  ◌=/=◌, member, different_sets, is_incomplete, entry_id, item_id, public_items, booked, with_code,
  count_codes, check_all, check_lists, check_counts, check_metrics, validate_accounting,
}

passed :
    {b : Bool} (message : String) {next : Result (Unit {0})}
    → (raise_if b message >> next) ≡ ok tt
    → (b ≡ false) × (next ≡ ok tt)
passed {b = true} message {next} h = cc
passed {b = false} message {next} h = (refl, h)

last_passed : {b : Bool} (message : String) → raise_if b message ≡ ok tt → b ≡ false
last_passed {b = true} message h = cc
last_passed {b = false} message h = refl

first_of : (a b : Result (Unit {0})) → (a >> b) ≡ ok tt → (a ≡ ok tt) × (b ≡ ok tt)
first_of (err e) b h = cc
first_of (ok done) b h = (refl, h)

both_true : (a b : Bool) → not (a && b) ≡ false → (a ≡ true) × (not b ≡ false)
both_true true b h = (refl, h)
both_true false b h = absurd (true≢false h)

unnot : (a : Bool) → not a ≡ false → a ≡ true
unnot true h = refl
unnot false h = absurd (true≢false h)

both_false : (a b : Bool) → (a || b) ≡ false → (a ≡ false) × (b ≡ false)
both_false true b h = absurd (true≢false h)
both_false false b h = (refl, h)

equal : (a b : ℕ) → (a =/= b) ≡ false → a ≡ b
equal a b h = ground (arith, h)

all_of :
    (p : ℕ → Bool) (xs : List ℕ)
    → not (all p xs) ≡ false
    → (k : ℕ) → member xs k ≡ true
    → p k ≡ true
all_of p [] h k m = cc
all_of p (x ∷ xs) h k m =
    let here = both_true (p x) (all p xs) h in
    elim (Bool-cases (x == k)) [
      | inl e ↦ ap p (sym (==→eq x k e)) ∙ here.0
      | inr e ↦ all_of p xs here.1 k (rw e at m)
    ]

-- the dict's keys are the given ones
member-distinct : (k : ℕ) (xs : List ℕ) → member xs k ≡ true → member (distinct xs) k ≡ true
member-distinct k [] h = h
member-distinct k (x ∷ xs) h = elim (Bool-cases (member xs x)) [
  | inl again ↦ rw again (member-distinct k xs (earlier again (Bool-cases (x == k))))
  | inr new ↦ rw new (elim (Bool-cases (x == k)) [
    | inl e ↦ rw e
    | inr e ↦ rw e (member-distinct k xs (rw e at h))
  ])
]
  where
    earlier : member xs x ≡ true → ((x == k) ≡ true) ⊎ ((x == k) ≡ false) → member xs k ≡ true
    earlier again (inl e) = ap (member xs) (sym (==→eq x k e)) ∙ again
    earlier again (inr e) = rw e at h

complete_of : (es : List Entry) → any is_incomplete es ≡ false → All (λ e. is_settled e ≡ true) es
complete_of [] h = tt
complete_of (e ∷ es) h =
    let here = both_false (is_incomplete e) (any is_incomplete es) h in
    (
      unnot (is_settled e) (both_false (not (is_settled e)) (not (is_some e.stage)) here.0).0,
      complete_of es here.1,
    )

-- one entry is counted once, if its code is known
one_known :
    (k : ℕ) (c : Option Code) (s : Option Stage) (h : List Event) (i : Option Item)
    → count_codes (entry_of k c s h i ∷ []) ≡ count (booked is_known) (entry_of k c s h i ∷ [])
one_known k none s h i = refl
one_known k (some c) none h i = refl
one_known k (some Code.success) (some s) h i = refl
one_known k (some Code.review_required) (some s) h i = refl
one_known k (some Code.evaluation_failed) (some s) h i = refl
one_known k (some Code.filter_rejected) (some s) h i = refl
one_known k (some Code.cutoff_excluded) (some s) h i = refl
one_known k (some Code.extraction_failed) (some s) h i = refl
one_known k (some Code.processing_failed) (some s) h i = refl
one_known k (some (Code.unknown n)) (some s) h i = ground arith

known_sum : (es : List Entry) → count_codes es ≡ count (booked is_known) es
known_sum [] = refl
known_sum (e ∷ es) = omega (
  arith,
  one_known e.candidate_id e.outcome e.stage e.stage_history e.result_snapshot,
  known_sum es,
)

counted_everywhere {ℓ} :
    {A : Type ℓ} (p : A → Bool) (xs : List A) → count p xs ≡ length xs → All (λ x. p x ≡ true) xs
counted_everywhere p [] h = tt
counted_everywhere p (x ∷ xs) h = elim (Bool-cases (p x)) [
  | inl e ↦ (e, counted_everywhere p xs (counted_rest e))
  | inr e ↦ absurd (true≢false (short e))
]
  where
    counted_rest : p x ≡ true → count p xs ≡ length xs
    counted_rest e = ground (arith, e)

    short : p x ≡ false → true ≡ false
    short e = ground (arith, e, count-le-length p xs)

-- an accepted response
pub record Accounts (ids : List ℕ) (r : Report) : Type 0 where
  pub unique : length (distinct ids) ≡ length ids
  pub outcomes_length : length r.outcomes ≡ length ids
  pub items_length : length (public_items r) ≡ length ids
  pub settled : All (λ e. is_settled e ≡ true) r.outcomes
  pub each_outcome : (k : ℕ) → member ids k ≡ true → member (map entry_id r.outcomes) k ≡ true
  pub each_item : (k : ℕ) → member ids k ≡ true → member (map item_id (public_items r)) k ≡ true
  pub coded : All (λ e. booked is_known e ≡ true) r.outcomes
  pub succeeded : r.metrics.stage3_succeeded ≡ with_code Code.success r.outcomes
  pub rejected : r.metrics.stage1_rejected ≡ with_code Code.filter_rejected r.outcomes
  pub excluded : r.metrics.stage2_excluded ≡ with_code Code.cutoff_excluded r.outcomes

-- Of a response that `validate_accounting` accepts for a list of identifiers: these are distinct; each
-- has an outcome and an item in one of the four public lists, of which there are as many as
-- identifiers; no outcome, which may be any text, is other than one of the seven codes; and the metrics
-- of successes, rejections and exclusions count the outcomes with those codes.
pub validate_accounting-Accounts :
    (r : Report) (ids : List ℕ) → validate_accounting r ids ≡ ok tt → Accounts ids r
unfolding validate_accounting check_lists check_counts check_metrics
validate_accounting-Accounts r ids h =
    let n = length (distinct ids) in
    let lists =
      first_of (check_lists r ids) (check_counts r n >> (check_all r.outcomes >> check_metrics r n))
        h in
    let counts = first_of (check_counts r n) (check_all r.outcomes >> check_metrics r n) lists.1 in
    let metrics = first_of (check_all r.outcomes) (check_metrics r n) counts.1 in
    let (sizes, l1) = passed _ lists.0 in
    let (outcomes, l2) = passed _ l1 in
    let (items, l3) = passed _ l2 in
    let (total, c1) = passed _ counts.0 in
    let (codes, c2) = passed _ c1 in
    let (scores, c3) = passed _ c2 in
    let (reviews, m1) = passed _ metrics.1 in
    let (cuts, m2) = passed _ m1 in
    let unique =
      equal n (length ids) (both_false (n =/= length ids) (length r.outcomes =/= n) sizes).0 in
    let sized =
      equal (length r.outcomes) n
        (both_false (n =/= length ids) (length r.outcomes =/= n) sizes).1 in
    let kept =
      both_false (length (public_items r) =/= n)
        (different_sets (map item_id (public_items r)) (distinct ids)) items in
    record {
      unique = unique;
      outcomes_length = sized ∙ unique;
      items_length = equal (length (public_items r)) n kept.0 ∙ unique;
      settled = complete_of r.outcomes (last_passed _ l3);
      each_outcome = λ k m.
          all_of (member (map entry_id r.outcomes)) (distinct ids)
            (both_false (not (all (member (distinct ids)) (map entry_id r.outcomes)))
              (not (all (member (map entry_id r.outcomes)) (distinct ids))) outcomes).1
            k (member-distinct k ids m);
      each_item = λ k m.
          all_of (member (map item_id (public_items r))) (distinct ids)
            (both_false (not (all (member (distinct ids)) (map item_id (public_items r))))
              (not (all (member (map item_id (public_items r))) (distinct ids))) kept.1).1
            k (member-distinct k ids m);
      coded =
          counted_everywhere (booked is_known) r.outcomes
            (sym (known_sum r.outcomes) ∙ equal (count_codes r.outcomes) n codes ∙ sym sized);
      succeeded =
          equal r.metrics.stage3_succeeded (with_code Code.success r.outcomes)
            (both_false (r.metrics.stage3_succeeded =/= with_code Code.success r.outcomes)
              (r.metrics.stage3_failed =/= with_code Code.evaluation_failed r.outcomes) scores).0;
      rejected =
          equal r.metrics.stage1_rejected (with_code Code.filter_rejected r.outcomes)
            (both_false (r.metrics.stage1_rejected =/= with_code Code.filter_rejected r.outcomes)
              (r.metrics.stage2_excluded =/= with_code Code.cutoff_excluded r.outcomes) cuts).0;
      excluded =
          equal r.metrics.stage2_excluded (with_code Code.cutoff_excluded r.outcomes)
            (both_false (r.metrics.stage1_rejected =/= with_code Code.filter_rejected r.outcomes)
              (r.metrics.stage2_excluded =/= with_code Code.cutoff_excluded r.outcomes) cuts).1;
    }
