-- ===== src/Pipeline/Screening.antt =====
-- Stages 2 and 3 of the synchronous pipeline (app/orchestrator.py) put together.
use mathlib.Core.Path.{subst}
use ai_cv_screening.Prelude.{
  ℕ, zero, suc, ◌+◌, String, true, false, some, List, [], ◌∷◌, ◌==◌, ==_refl, ok, err, filter,
  length, sort_by, All, All-sort_by, ◌≡◌, ◌≢◌, refl, sym, ap, ◌∙◌, inl, inr, arith,
}
use ai_cv_screening.Prelude.Table.{find, IsKeyed, IsKeyed-sort_by, IsKeyed-find, All-imp, All-both}
use ai_cv_screening.Prelude.Tallies.{
  length-sort_by, count-split, count-selected, count-none, or_true,
}
use ai_cv_screening.Rules.Engine.{Details}
use ai_cv_screening.Pipeline.Ledger.{Metrics, Progress}
use ai_cv_screening.Pipeline.Stages.{
  Survivor, survivor_key, survivor, Retrieved, retrieved_key, ranked, extract_loop, fail_all,
  cut_loop, is_shortlisted_in,
}
use ai_cv_screening.Pipeline.Run.{
  Judged, judged_key, judged_le, Services, results_of, shortlist, count_shortlist, cut_batch,
  count_evaluated, screen_survivors,
}
use ai_cv_screening.Pipeline.Books.{Books}
use ai_cv_screening.Pipeline.Filing.{Pending, carry_Pending}
use ai_cv_screening.Pipeline.Filter.{on_stage2, on_stage3, Awaits}
use ai_cv_screening.Pipeline.Extract.{early, Passed, Known, Ready, extract_loop-Gathered}
use ai_cv_screening.Pipeline.Cut.{
  All-ranked, IsKeyed-ranked, shortlist-cases, cut_loop-Cleared, fail_all-Cleared,
}
use ai_cv_screening.Pipeline.Evaluate.{
  Answers, complete_evaluations_total, Fileable, result_loop-Filed,
}

abbrev with_shortlisted : ℕ → Metrics → Metrics
with_shortlisted n m = record m { stage2_shortlisted = n }

abbrev with_evaluated : ℕ → Metrics → Metrics
with_evaluated n m = record m { stage3_evaluated = n }

abbrev pub set_at : ℕ → ℕ → List ℕ → List ℕ
set_at i n [] = []
set_at zero n (x ∷ xs) = n ∷ xs
set_at (suc i) n (x ∷ xs) = x ∷ set_at i n xs

count_shortlist-Books :
    (ids : List ℕ) (chosen : List Retrieved) (s : Progress)
    → Books ids s
    → Books ids (count_shortlist chosen s)
count_shortlist-Books ids chosen s b = record {
  keys = b.keys;
  total = b.total;
  tallied = b.tallied;
  settled = b.settled;
  listed = b.listed;
  reviews = b.reviews;
  published = b.published;
  sound = b.sound;
}

count_evaluated-Books :
    (ids : List ℕ) (rs : List Judged) (s : Progress)
    → Books ids s
    → Books ids (count_evaluated rs s)
count_evaluated-Books ids rs s b = record {
  keys = b.keys;
  total = b.total;
  tallied = b.tallied;
  settled = b.settled;
  listed = b.listed;
  reviews = b.reviews;
  published = b.published;
  sound = b.sound;
}

-- after the cutoff: the shortlisted are as they were, all others that were retrieved are settled
record Chosen (ids : List ℕ) (all : List Survivor) (payloads : List Retrieved) (s : Progress)
    (r : Progress × List Retrieved) : Type 0 where
  books : Books ids r.0
  keyed : IsKeyed retrieved_key r.1
  ready : All (Ready r.0) r.1
  known : All (Known all) r.1
  same : early r.0.metrics ≡ early (with_shortlisted (length r.1) s.metrics)
  settled : on_stage2 r.0.metrics + length r.1 ≡ on_stage2 s.metrics + length payloads
  third : on_stage3 r.0.metrics ≡ on_stage3 s.metrics

is_chosen :
    (ys : List Retrieved) → All (λ (y : Retrieved). is_shortlisted_in ys y.candidate_id ≡ true) ys
is_chosen [] = tt
is_chosen (y ∷ ys) = (
  rw (==_refl y.candidate_id),
  All-imp (λ (z : Retrieved). is_shortlisted_in ys z.candidate_id ≡ true)
      (λ (z : Retrieved). is_shortlisted_in (y ∷ ys) z.candidate_id ≡ true)
      (λ z h. rw h (or_true (y.candidate_id == z.candidate_id))) ys (is_chosen ys),
)

module _ (ids : List ℕ) (all : List Survivor) (payloads : List Retrieved) (s : Progress)
    (keyed : IsKeyed retrieved_key payloads) (ready : All (Ready s) payloads)
    (known : All (Known all) payloads) (b : Books ids s) where
  cut_ranked :
      (cutoff : ℕ) → Chosen ids all payloads s (cut_batch payloads (ok (ranked cutoff payloads)) s)
  cut_ranked cutoff =
      let chosen = ranked cutoff payloads in
      let s1 = count_shortlist chosen s in
      let cleared =
        cut_loop-Cleared ids chosen payloads s1 keyed ready
          (count_shortlist-Books ids chosen s b) in
      let t = cut_loop chosen payloads s1 in
      let chosen_keyed = IsKeyed-ranked cutoff payloads keyed in
      record {
        books = cleared.books;
        keyed = chosen_keyed;
        ready =
            All-both (λ (y : Retrieved). is_shortlisted_in chosen y.candidate_id ≡ true) (Ready s)
              (Ready t)
              (λ y e p.
                carry_Pending y.candidate_id y.filter_details s.outcomes t.outcomes
                  (cleared.touches y.candidate_id e) p)
              chosen (is_chosen chosen) (All-ranked (Ready s) cutoff payloads ready);
        known = All-ranked (Known all) cutoff payloads known;
        same = cleared.counted.same;
        settled = omega (
          arith,
          cleared.counted.settled,
          count-split (λ (x : Retrieved). is_shortlisted_in chosen x.candidate_id) payloads,
          count-selected retrieved_key payloads chosen keyed chosen_keyed (
              All-ranked (λ (y : Retrieved). find retrieved_key y.candidate_id payloads ≡ some y)
                cutoff payloads (IsKeyed-find retrieved_key payloads keyed)),
        );
        third = cleared.counted.third;
      }

  cut_failed : (message : String) → Chosen ids all payloads s (cut_batch payloads (err message) s)
  cut_failed message =
      let cleared = fail_all-Cleared ids payloads s keyed ready b in
      record {
        books = count_shortlist-Books ids [] (fail_all payloads s) cleared.books;
        keyed = tt;
        ready = tt;
        known = tt;
        same = ap (set_at 5 0) cleared.counted.same;
        settled = omega (
          arith,
          cleared.counted.settled,
          count-split (λ (x : Retrieved). false) payloads,
          count-none payloads,
        );
        third = cleared.counted.third;
      }

  cut_batch-Chosen :
      (cutoff : ℕ) → Chosen ids all payloads s (cut_batch payloads (shortlist cutoff payloads) s)
  cut_batch-Chosen cutoff = elim (shortlist-cases cutoff payloads) [
    | inl (message, e) ↦
        subst (λ r. Chosen ids all payloads s (cut_batch payloads r s)) (sym e) (cut_failed message)
    | inr e ↦
        subst (λ r. Chosen ids all payloads s (cut_batch payloads r s)) (sym e) (cut_ranked cutoff)
  ]

-- Every survivor is settled: at stage 2 or, if it is one of the `n` shortlisted, at stage 3.
abbrev pub Flow : ℕ → ℕ → Metrics → Metrics → Type 0
Flow survivors n a b =
    (early b ≡ set_at 6 n (set_at 5 n (early a)))
    × (on_stage2 b + n ≡ on_stage2 a + survivors)
    × (on_stage3 b ≡ on_stage3 a + n)

flow :
    (a b c d : Metrics) (survivors payloads n results : ℕ)
    → results ≡ n
    → Passed survivors payloads a b
    → early c ≡ early (with_shortlisted n b)
    → on_stage2 c + n ≡ on_stage2 b + payloads
    → on_stage3 c ≡ on_stage3 b
    → early d ≡ early (with_evaluated results c)
    → on_stage2 d ≡ on_stage2 c
    → on_stage3 d ≡ on_stage3 c + results
    → Flow survivors n a d
flow a b c d survivors payloads n results e p c5 c2 c3 d6 d2 d3 = (
  d6
      ∙ ap (set_at 6 results) (c5 ∙ ap (set_at 5 n) p.same)
      ∙ ap (λ r. set_at 6 r (set_at 5 n (early a))) e,
  omega (arith, p.settled, c2, d2),
  omega (arith, e, p.third, c3, d3),
)

pub record Screened (ids : List ℕ) (survivors : List Survivor) (s t : Progress) : Type 0 where
  pub books : Books ids t
  pub shortlisted : ℕ
  pub counted : Flow (length survivors) shortlisted s.metrics t.metrics

Answers-away :
    (j : ℕ) (ys : List Retrieved) (rs : List Judged)
    → Answers ys rs
    → All (λ (y : Retrieved). j ≢ y.candidate_id) ys
    → All (λ (r : Judged). j ≢ r.candidate_id) rs
Answers-away j [] [] h a = tt
Answers-away j [] (r ∷ rs) h a = absurd h
Answers-away j (y ∷ ys) [] h a = absurd h
Answers-away j (y ∷ ys) (r ∷ rs) h a = (λ e. a.0 (e ∙ h.0), Answers-away j ys rs h.1 a.1)

Answers-IsKeyed :
    (ys : List Retrieved) (rs : List Judged)
    → Answers ys rs
    → IsKeyed retrieved_key ys
    → IsKeyed judged_key rs
Answers-IsKeyed [] [] h k = tt
Answers-IsKeyed [] (r ∷ rs) h k = absurd h
Answers-IsKeyed (y ∷ ys) [] h k = absurd h
Answers-IsKeyed (y ∷ ys) (r ∷ rs) h k = (
  Answers-away r.candidate_id ys rs h.1
      (subst (λ j. All (λ (z : Retrieved). j ≢ z.candidate_id) ys) (sym h.0) k.0),
  Answers-IsKeyed ys rs h.1 k.1,
)

length-Answers : (ys : List Retrieved) (rs : List Judged) → Answers ys rs → length rs ≡ length ys
length-Answers [] [] h = refl
length-Answers [] (r ∷ rs) h = absurd h
length-Answers (y ∷ ys) [] h = absurd h
length-Answers (y ∷ ys) (r ∷ rs) h = ap suc (length-Answers ys rs h.1)

Answers-Fileable :
    (all : List Survivor) (s : Progress) (ys : List Retrieved) (rs : List Judged)
    → Answers ys rs
    → All (Ready s) ys
    → All (Known all) ys
    → All (Fileable all s) rs
Answers-Fileable all s [] [] h p k = tt
Answers-Fileable all s [] (r ∷ rs) h p k = absurd h
Answers-Fileable all s (y ∷ ys) [] h p k = absurd h
Answers-Fileable all s (y ∷ ys) (r ∷ rs) h p k = (
  subst
      (λ j.
        (d : Details) × (find survivor_key j all ≡ some (survivor j d)) × Pending j d s.outcomes)
      (sym h.0) (y.filter_details, k.0, p.0),
  Answers-Fileable all s ys rs h.1 p.1 k.1,
)

pub screen_survivors-Screened :
    (services : Services) (cutoff : ℕ) (ids : List ℕ) (survivors : List Survivor) (s : Progress)
    → IsKeyed survivor_key survivors
    → All (Awaits s) survivors
    → Books ids s
    → (t : Progress) × (screen_survivors services cutoff survivors s ≡ ok t)
      × Screened ids survivors s t
unfolding screen_survivors
screen_survivors-Screened services cutoff ids survivors s keyed waits b =
    let g =
      extract_loop-Gathered ids survivors services.extract survivors s keyed waits
        (IsKeyed-find survivor_key survivors keyed) b in
    let extracted = extract_loop services.extract survivors s in
    let c =
      cut_batch-Chosen ids survivors extracted.1 extracted.0 g.keyed g.ready g.known g.books
        cutoff in
    let cut = cut_batch extracted.1 (shortlist cutoff extracted.1) extracted.0 in
    let results =
      filter (λ (r : Judged). is_shortlisted_in cut.1 r.candidate_id)
        (results_of (services.evaluate cut.1)) in
    let (rs, made, answers) = complete_evaluations_total services.name results cut.1 in
    let ordered = sort_by judged_le rs in
    let filed =
      result_loop-Filed ids survivors ordered (count_evaluated rs cut.0)
        (IsKeyed-sort_by judged_key judged_le rs (Answers-IsKeyed cut.1 rs answers c.keyed))
        (All-sort_by (Fileable survivors cut.0) judged_le rs
          (Answers-Fileable survivors cut.0 cut.1 rs answers c.ready c.known))
        (count_evaluated-Books ids rs cut.0 c.books) in
    (
      filed.last,
      rw (made, filed.returned),
      record {
        books = filed.books;
        shortlisted = length cut.1;
        counted =
            flow s.metrics extracted.0.metrics cut.0.metrics filed.last.metrics (length survivors)
              (length extracted.1) (length cut.1) (length rs) (length-Answers cut.1 rs answers)
              g.counted c.same c.settled c.third filed.same filed.second
              (filed.third ∙ ap (λ n. on_stage3 cut.0.metrics + n) (length-sort_by judged_le rs));
      },
    )
