-- ===== src/Pipeline/Changes.antt =====
-- Lemmas on the two changes of an outcome of the synchronous pipeline: settling it, and logging an
-- event.
use mathlib.Core.Path.{subst}
use ai_cv_screening.Prelude.{
  ℕ, ◌+◌, Bool, true, false, ◌||◌, Option, none, some, List, [], ◌∷◌, ◌==◌, if◌then◌else◌, ok,
  count, map, All, Bool-cases, ==→eq, ==_refl, ◌≡◌, ◌≢◌, refl, sym, ap, ◌∙◌, inl, inr, arith,
}
use ai_cv_screening.Prelude.Table.{find, update, find-update_self, find-update_ne}
use ai_cv_screening.Prelude.Tallies.{
  keys-update, count-update, All-update, All-find, or_false, or_true, apart,
}
use ai_cv_screening.Rules.Engine.{Details}
use ai_cv_screening.Pipeline.Ledger.{Stage, Code, Event, Entry, entry_key, Progress, logged}
use ai_cv_screening.Pipeline.Run.{is_settled}
use ai_cv_screening.Pipeline.Accounting.{
  booked, was_reviewed, first_details, check_metadata, check_found,
}
use ai_cv_screening.Pipeline.Books.{
  Test, tests, kept_counts, sum, closed, tallies, tick, ticks, listed_in, list_length, settled_opt,
  settled_in, Sound, is_known, Books,
}

abbrev pub indicator : Bool → ℕ
indicator b = if b then 1 else 0

tick-indicator : (b : Bool) (n m : ℕ) → m + 0 ≡ n + indicator b → m ≡ tick b n
tick-indicator true n m h = omega arith
tick-indicator false n m h = omega arith

booked_unsettled : (t : Test) (e : Entry) → e.outcome ≡ none → booked t e ≡ false
booked_unsettled t e h = rw h

unsettled_found : (o : Option Details) (e : Entry) → e.outcome ≡ none → check_found o e ≡ ok tt
unsettled_found none e h = refl
unsettled_found (some d) e h = rw h

unsettled_checked : (e : Entry) → e.outcome ≡ none → check_metadata e ≡ ok tt
unsettled_checked e h = unsettled_found (first_details e.stage_history) e h

balance : (x y m n i j : ℕ) → x + i ≡ y + j → n + i ≡ m + j → y ≡ m → x ≡ n
balance x y m n i j h g e = omega arith

cancel : (i n m : ℕ) → n + i ≡ m + i → n ≡ m
cancel i n m h = omega arith

module _ (k : ℕ) (f : Entry → Entry) (es : List Entry) {a : Entry}
    (found : find entry_key k es ≡ some a) where
  count_closed :
      (q : Entry → Bool) (b : Bool)
      → q a ≡ false
      → q (f a) ≡ b
      → count q (update entry_key k f es) ≡ tick b (count q es)
  count_closed q b before after =
      tick-indicator b (count q es) (count q (update entry_key k f es)) (
        ap (λ x. count q (update entry_key k f es) + indicator x) (sym before)
        ∙ count-update entry_key q k f es found
        ∙ ap (λ x. count q es + indicator x) after)

  count_same : (q : Entry → Bool) → q (f a) ≡ q a → count q (update entry_key k f es) ≡ count q es
  count_same q same =
      cancel (indicator (q a)) (count q (update entry_key k f es)) (count q es)
        (count-update entry_key q k f es found ∙ ap (λ x. count q es + indicator x) same)

  tallies_closed :
      (code : Code) (stage : Stage)
      → a.outcome ≡ none
      → (f a).outcome ≡ some code
      → (f a).stage ≡ some stage
      → (ts : List Test)
      → tallies ts (update entry_key k f es) ≡ ticks code stage ts (tallies ts es)
  tallies_closed code stage fresh c s [] = refl
  tallies_closed code stage fresh c s (t ∷ ts) = rw (
    count_closed (booked t) (t code stage) (rw fresh) (rw (c, s)),
    tallies_closed code stage fresh c s ts,
  )

  tallies_same :
      a.outcome ≡ none
      → (f a).outcome ≡ none
      → (ts : List Test) → tallies ts (update entry_key k f es) ≡ tallies ts es
  tallies_same fresh later [] = refl
  tallies_same fresh later (t ∷ ts) = rw (
    count_same (booked t) (booked_unsettled t (f a) later ∙ sym (booked_unsettled t a fresh)),
    tallies_same fresh later ts,
  )

  module _ (keep : (e : Entry) → entry_key (f e) ≡ entry_key e) where
    settled_self : settled_in k (update entry_key k f es) ≡ is_settled (f a)
    settled_self = ap settled_opt (find-update_self entry_key k f keep es found)

    settled_other : (j : ℕ) → k ≢ j → settled_in j (update entry_key k f es) ≡ settled_in j es
    settled_other j ne = ap settled_opt (find-update_ne entry_key k j f keep ne es)

    settled_closed :
        is_settled (f a) ≡ true
        → (j : ℕ) → settled_in j (update entry_key k f es) ≡ (settled_in j es || (k == j))
    settled_closed after j = elim (Bool-cases (k == j)) [
      | inl e ↦
          subst (λ x. settled_in x (update entry_key k f es) ≡ (settled_in x es || (k == x)))
            (==→eq k j e)
            (settled_self
              ∙ after
              ∙ sym (or_true (settled_in k es))
              ∙ ap (λ b. settled_in k es || b) (sym (==_refl k)))
      | inr e ↦
          settled_other j (apart k j e)
          ∙ sym (or_false (settled_in j es))
          ∙ ap (λ b. settled_in j es || b) (sym e)
    ]

    settled_noted :
        is_settled (f a) ≡ is_settled a
        → (j : ℕ) → settled_in j (update entry_key k f es) ≡ settled_in j es
    settled_noted same j = elim (Bool-cases (k == j)) [
      | inl e ↦
          subst (λ x. settled_in x (update entry_key k f es) ≡ settled_in x es) (==→eq k j e)
            (settled_self ∙ same ∙ sym (ap settled_opt found))
      | inr e ↦ settled_other j (apart k j e)
    ]

-- what settling a candidate does to the rest of the books
pub record Closed (k : ℕ) (code : Code) (stage : Stage) (s t : Progress) : Type 0 where
  pub total : t.metrics.total_input_candidates ≡ s.metrics.total_input_candidates
  pub counts : kept_counts t.metrics ≡ ticks code stage tests (kept_counts s.metrics)
  pub named : is_known code stage ≡ true
  pub one : closed t.metrics ≡ closed s.metrics + 1
  pub lists : list_length t ≡ list_length s + 1
  pub reviews : t.metrics.stage1_review_required ≡ s.metrics.stage1_review_required
  pub public : (j : ℕ) → listed_in j t ≡ (listed_in j s || (k == j))

-- a candidate that is not settled
pub record Open (k : ℕ) (es : List Entry) : Type 0 where
  pub entry : Entry
  pub found : find entry_key k es ≡ some entry
  pub unsettled : entry.outcome ≡ none

-- the entry of a candidate after it is settled
pub record Settled (code : Code) (stage : Stage) (a b : Entry) : Type 0 where
  pub code_of : b.outcome ≡ some code
  pub stage_of : b.stage ≡ some stage
  pub reviewed : was_reviewed b ≡ was_reviewed a
  pub checked : check_metadata b ≡ ok tt

pub settle-Books :
    (ids : List ℕ) (k : ℕ) (code : Code) (stage : Stage) (f : Entry → Entry) (s t : Progress)
    → ((e : Entry) → entry_key (f e) ≡ entry_key e)
    → (o : Open k s.outcomes) → Settled code stage o.entry (f o.entry)
    → t.outcomes ≡ update entry_key k f s.outcomes
    → Closed k code stage s t
    → Books ids s
    → Books ids t
settle-Books ids k code stage f s t keep o g made c b = record {
  keys = ap (map entry_key) made ∙ keys-update entry_key k f keep s.outcomes ∙ b.keys;
  total = c.total ∙ b.total;
  tallied =
      ap (tallies tests) made
      ∙ tallies_closed k f s.outcomes o.found code stage o.unsettled g.code_of g.stage_of tests
      ∙ ap (ticks code stage tests) b.tallied
      ∙ sym c.counts;
  settled =
      ap (count is_settled) made
      ∙ count_closed k f s.outcomes o.found is_settled true (rw o.unsettled) (rw g.code_of)
      ∙ ap (λ n. n + 1) b.settled
      ∙ sym c.one;
  listed = c.lists ∙ ap (λ n. n + 1) b.listed ∙ sym c.one;
  reviews =
      ap (count was_reviewed) made
      ∙ count_same k f s.outcomes o.found was_reviewed g.reviewed
      ∙ b.reviews
      ∙ sym c.reviews;
  published = λ j.
      c.public j
      ∙ ap (λ x. x || (k == j)) (b.published j)
      ∙ sym (settled_closed k f s.outcomes o.found keep (rw g.code_of) j)
      ∙ ap (settled_in j) (sym made);
  sound = subst (All Sound) (sym made) (
      All-update entry_key Sound k f s.outcomes o.found
        (g.checked, rw (g.stage_of, g.code_of), rw g.code_of c.named) b.sound);
}

-- what an event does to the rest of the books
pub record Noted (a : Entry) (v : Event) (s t : Progress) : Type 0 where
  pub total : t.metrics.total_input_candidates ≡ s.metrics.total_input_candidates
  pub counts : kept_counts t.metrics ≡ kept_counts s.metrics
  pub lists : list_length t ≡ list_length s
  pub reviews :
      t.metrics.stage1_review_required + indicator (was_reviewed a)
      ≡ s.metrics.stage1_review_required + indicator (was_reviewed (logged v a))
  pub public : (j : ℕ) → listed_in j t ≡ listed_in j s

pub note-Books :
    (ids : List ℕ) (k : ℕ) (v : Event) (s t : Progress) (o : Open k s.outcomes)
    → t.outcomes ≡ update entry_key k (logged v) s.outcomes
    → Noted o.entry v s t
    → Books ids s
    → Books ids t
note-Books ids k v s t o made c b = record {
  keys =
      ap (map entry_key) made ∙ keys-update entry_key k (logged v) (λ e. refl) s.outcomes ∙ b.keys;
  total = c.total ∙ b.total;
  tallied =
      ap (tallies tests) made
      ∙ tallies_same k (logged v) s.outcomes o.found o.unsettled o.unsettled tests
      ∙ b.tallied
      ∙ sym c.counts;
  settled =
      ap (count is_settled) made
      ∙ count_same k (logged v) s.outcomes o.found is_settled refl
      ∙ b.settled
      ∙ ap sum (sym c.counts);
  listed = c.lists ∙ b.listed ∙ ap sum (sym c.counts);
  reviews =
      ap (count was_reviewed) made
      ∙ balance (count was_reviewed (update entry_key k (logged v) s.outcomes))
          (count was_reviewed s.outcomes) s.metrics.stage1_review_required
          t.metrics.stage1_review_required (indicator (was_reviewed o.entry))
          (indicator (was_reviewed (logged v o.entry)))
          (count-update entry_key was_reviewed k (logged v) s.outcomes o.found) c.reviews b.reviews;
  published = λ j.
      c.public j
      ∙ b.published j
      ∙ sym (settled_noted k (logged v) s.outcomes o.found (λ e. refl) refl j)
      ∙ ap (settled_in j) (sym made);
  sound = subst (All Sound) (sym made) (
      All-update entry_key Sound k (logged v) s.outcomes o.found
        (
          unsettled_checked (logged v o.entry) o.unsettled,
          (All-find entry_key Sound k s.outcomes o.found b.sound).1,
          (All-find entry_key Sound k s.outcomes o.found b.sound).2,
        )
        b.sound);
}
