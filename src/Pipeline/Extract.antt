-- ===== src/Pipeline/Extract.antt =====
-- The induction over the loop that retrieves the evidence of the survivors (app/orchestrator.py).
use ai_cv_screening.Prelude.{
  ℕ, suc, ◌+◌, Option, none, some, List, [], ◌∷◌, ◌==◌, Result, ok, err, length, All, Bool-cases,
  ◌≡◌, ◌≢◌, refl, sym, ◌∙◌, inl, inr, arith,
}
use ai_cv_screening.Prelude.Table.{find, find-update_ne, Apart, IsKeyed, All-imp, All-both}
use ai_cv_screening.Pipeline.Ledger.{
  Stage, Code, EventStatus, entry_key, Metrics, Progress, logged, event, extracted,
}
use ai_cv_screening.Pipeline.Stages.{
  Survivor, survivor_key, survivor, verified_item, Evidence, Retrieved, retrieved_key, retrieved,
  log_extracted, fail_extraction, take_evidence, keep, extract_loop,
}
use ai_cv_screening.Pipeline.Books.{Books}
use ai_cv_screening.Pipeline.Filing.{Touches, Pending, carry_Pending, both-Touches}
use ai_cv_screening.Pipeline.Moves.{fail_stage2-Books, log-Pending, log_extracted-Books}
use ai_cv_screening.Pipeline.Filter.{seen, passing, on_stage2, on_stage3, Awaits}

-- the metrics that the loops of the later stages leave alone
abbrev pub early : Metrics → List ℕ
early m =
    m.stage0_processed
    ∷ (seen m
        ∷ (passing m
            ∷ (m.stage0_failed
                ∷ (m.stage0_review_required ∷ (m.stage2_shortlisted ∷ (m.stage3_evaluated ∷ []))))))

-- of `n` candidates that go in, `out` come out and the others are settled at stage 2
pub record Passed (n out : ℕ) (a b : Metrics) : Type 0 where
  pub same : early b ≡ early a
  pub settled : on_stage2 b + out ≡ on_stage2 a + n
  pub third : on_stage3 b ≡ on_stage3 a

abbrev pub Known : List Survivor → Retrieved → Type 0
Known all y = find survivor_key y.candidate_id all ≡ some (survivor y.candidate_id y.filter_details)

abbrev pub Ready : Progress → Retrieved → Type 0
Ready s y = Pending y.candidate_id y.filter_details s.outcomes

abbrev Got : List Survivor → ℕ → Progress → Option Retrieved → Type 0
Got all k s none = Unit
Got all k s (some y) = (y.candidate_id ≡ k) × (Ready s y × Known all y)

record Step (ids : List ℕ) (all : List Survivor) (k : ℕ) (s : Progress)
    (r : Progress × Option Retrieved) : Type 0 where
  books : Books ids r.0
  touches : Touches k s r.0
  got : Got all k r.0 r.1
  counted : Passed 1 (length (keep r.1 [])) s.metrics r.0.metrics

module _ (ids : List ℕ) (all : List Survivor) (x : Survivor) (s : Progress)
    (known : find survivor_key x.candidate_id all ≡ some x) (p : Awaits s x) (b : Books ids s) where
  fail_extraction-Step : Step ids all x.candidate_id s (fail_extraction x s, none)
  fail_extraction-Step = record {
    books =
        fail_stage2-Books ids x.candidate_id x.filter_details s p Code.extraction_failed
          "EVIDENCE_EXTRACTION_FAILED" refl refl b;
    touches =
        both-Touches x.candidate_id Code.extraction_failed Stage.stage2
          (verified_item x.candidate_id "EVIDENCE_EXTRACTION_FAILED" x.filter_details)
          (event Stage.stage2 EventStatus.failed) s (fail_extraction x s) refl;
    got = tt;
    counted = record { same = refl; settled = omega arith; third = refl };
  }

  log_extracted-Step :
      (v : Evidence)
      → Step ids all x.candidate_id s (log_extracted x.candidate_id s, some (retrieved x v))
  log_extracted-Step v = record {
    books = log_extracted-Books ids x.candidate_id x.filter_details s p b;
    touches = λ j ne.
        find-update_ne entry_key x.candidate_id j (logged (event Stage.stage2 extracted))
          (λ e. refl) ne s.outcomes;
    got = (
      refl,
      (
        log-Pending x.candidate_id x.filter_details (event Stage.stage2 extracted) s (refl, refl) p,
        known,
      ),
    );
    counted = record { same = refl; settled = omega arith; third = refl };
  }

  take_evidence-Step : (o : Result Evidence) → Step ids all x.candidate_id s (take_evidence x o s)
  take_evidence-Step (err e) = fail_extraction-Step
  take_evidence-Step (ok v) = elim (Bool-cases (v.payload.candidate_id == x.candidate_id)) [
    | inl e ↦ rw e (log_extracted-Step v)
    | inr e ↦ rw e fail_extraction-Step
  ]

-- what the whole loop has done
pub record Gathered (ids : List ℕ) (all todo : List Survivor) (s : Progress)
    (r : Progress × List Retrieved) : Type 0 where
  pub books : Books ids r.0
  pub touches :
      (j : ℕ)
      → All (λ (x : Survivor). j ≢ x.candidate_id) todo
      → find entry_key j r.0.outcomes ≡ find entry_key j s.outcomes
  pub away :
      (j : ℕ)
      → All (λ (x : Survivor). j ≢ x.candidate_id) todo
      → All (λ (y : Retrieved). j ≢ y.candidate_id) r.1
  pub keyed : IsKeyed retrieved_key r.1
  pub ready : All (Ready r.0) r.1
  pub known : All (Known all) r.1
  pub counted : Passed (length todo) (length r.1) s.metrics r.0.metrics

pub Passed-trans :
    (i j n m total out : ℕ) (a b c : Metrics)
    → total ≡ i + n
    → out ≡ j + m
    → Passed i j a b
    → Passed n m b c
    → Passed total out a c
Passed-trans i j n m total out a b c h k f g = record {
  same = g.same ∙ f.same;
  settled = omega (arith, h, k, f.settled, g.settled);
  third = g.third ∙ f.third;
}

gather :
    (ids : List ℕ) (all : List Survivor) (x : Survivor) (rest : List Survivor) (s t u : Progress)
    (o : Option Retrieved) (ys : List Retrieved)
    → Apart survivor_key x rest
    → Step ids all x.candidate_id s (t, o)
    → Gathered ids all rest t (u, ys)
    → Gathered ids all (x ∷ rest) s (u, keep o ys)
gather ids all x rest s t u none ys apart st later = record {
  books = later.books;
  touches = λ j h. later.touches j h.1 ∙ st.touches j (λ e. h.0 (sym e));
  away = λ j h. later.away j h.1;
  keyed = later.keyed;
  ready = later.ready;
  known = later.known;
  counted =
      Passed-trans 1 0 (length rest) (length ys) (suc (length rest)) (length ys) s.metrics t.metrics
        u.metrics (omega arith) (omega arith) st.counted later.counted;
}
gather ids all x rest s t u (some y) ys apart st later =
    let free =
      All-imp (λ (z : Survivor). x.candidate_id ≢ z.candidate_id)
        (λ (z : Survivor). y.candidate_id ≢ z.candidate_id) (λ z ne e. ne (sym st.got.0 ∙ e)) rest
        apart in
    record {
      books = later.books;
      touches = λ j h. later.touches j h.1 ∙ st.touches j (λ e. h.0 (sym e));
      away = λ j h. (λ e. h.0 (e ∙ st.got.0), later.away j h.1);
      keyed = (later.away y.candidate_id free, later.keyed);
      ready = (
        carry_Pending y.candidate_id y.filter_details t.outcomes u.outcomes
            (later.touches y.candidate_id free) st.got.1.0,
        later.ready,
      );
      known = (st.got.1.1, later.known);
      counted =
          Passed-trans 1 1 (length rest) (length ys) (suc (length rest)) (suc (length ys)) s.metrics
            t.metrics u.metrics (omega arith) (omega arith) st.counted later.counted;
    }

pub extract_loop-Gathered :
    (ids : List ℕ) (all : List Survivor) (extract : ℕ → Result Evidence) (todo : List Survivor)
    (s : Progress)
    → IsKeyed survivor_key todo
    → All (Awaits s) todo
    → All (λ (x : Survivor). find survivor_key x.candidate_id all ≡ some x) todo
    → Books ids s
    → Gathered ids all todo s (extract_loop extract todo s)
unfolding extract_loop
extract_loop-Gathered ids all extract [] s keyed waits known b = record {
  books = b;
  touches = λ j h. refl;
  away = λ j h. tt;
  keyed = tt;
  ready = tt;
  known = tt;
  counted = record { same = refl; settled = omega arith; third = refl };
}
extract_loop-Gathered ids all extract (x ∷ rest) s keyed waits known b =
    let r = take_evidence x (extract x.candidate_id) s in
    let st = take_evidence-Step ids all x s known.0 waits.0 b (extract x.candidate_id) in
    let later = extract_loop extract rest r.0 in
    gather ids all x rest s r.0 later.0 r.1 later.1 keyed.0 st (
      extract_loop-Gathered ids all extract rest r.0 keyed.1
        (All-both (λ (y : Survivor). x.candidate_id ≢ y.candidate_id) (Awaits s) (Awaits r.0)
          (λ y ne w.
            carry_Pending y.candidate_id y.filter_details s.outcomes r.0.outcomes
              (st.touches y.candidate_id ne) w)
          rest keyed.0 waits.1)
        known.1 st.books)
