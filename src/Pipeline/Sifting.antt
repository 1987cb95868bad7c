-- ===== src/Pipeline/Sifting.antt =====
-- The induction over the first loop of the synchronous pipeline (app/orchestrator.py).
use ai_cv_screening.Prelude.{
  ℕ, suc, ◌+◌, Option, none, some, List, [], ◌∷◌, Result, length, All, ◌≡◌, ◌≢◌, refl, sym, ◌∙◌,
  arith,
}
use ai_cv_screening.Prelude.Table.{find, Apart, IsKeyed, All-imp, All-both}
use ai_cv_screening.Rules.Contracts.{HardFilterRules}
use ai_cv_screening.Rules.Engine.{Reading}
use ai_cv_screening.Pipeline.Ledger.{entry_key, Metrics, Progress}
use ai_cv_screening.Pipeline.Stages.{
  Applicant, Survivor, survivor_key, process_text, apply_rules, keep, filter_loop,
}
use ai_cv_screening.Pipeline.Run.{applicant_id}
use ai_cv_screening.Pipeline.Books.{Books}
use ai_cv_screening.Pipeline.Filing.{carry_Pending}
use ai_cv_screening.Pipeline.Filter.{Filtered, Fresh, Awaits, Step, apply_rules-Step}

-- what the whole loop has done
pub record Sifted (ids : List ℕ) (todo : List Applicant) (s : Progress)
    (r : Progress × List Survivor) : Type 0 where
  pub books : Books ids r.0
  pub touches :
      (j : ℕ)
      → All (λ (a : Applicant). j ≢ a.candidate_id) todo
      → find entry_key j r.0.outcomes ≡ find entry_key j s.outcomes
  pub away :
      (j : ℕ)
      → All (λ (a : Applicant). j ≢ a.candidate_id) todo
      → All (λ (x : Survivor). j ≢ x.candidate_id) r.1
  pub keyed : IsKeyed survivor_key r.1
  pub awaiting : All (Awaits r.0) r.1
  pub counted : Filtered (length todo) (length r.1) s.metrics r.0.metrics

Filtered-trans :
    (n i j m : ℕ) (a b c : Metrics)
    → m ≡ i + j
    → Filtered 1 i a b
    → Filtered n j b c
    → Filtered (suc n) m a c
Filtered-trans n i j m a b c h f g = record {
  processed_count = omega (arith, f.processed_count, g.processed_count);
  seen_count = omega (arith, f.seen_count, g.seen_count);
  passing_count = omega (arith, h, f.passing_count, g.passing_count);
  others = g.others ∙ f.others;
}

sift :
    (ids : List ℕ) (a : Applicant) (rest : List Applicant) (s t u : Progress) (o : Option Survivor)
    (xs : List Survivor)
    → Apart applicant_id a rest
    → Step ids a.candidate_id s (t, o)
    → Sifted ids rest t (u, xs)
    → Sifted ids (a ∷ rest) s (u, keep o xs)
sift ids a rest s t u none xs apart st later = record {
  books = later.books;
  touches = λ j h. later.touches j h.1 ∙ st.touches j (λ e. h.0 (sym e));
  away = λ j h. later.away j h.1;
  keyed = later.keyed;
  awaiting = later.awaiting;
  counted =
      Filtered-trans (length rest) 0 (length xs) (length xs) s.metrics t.metrics u.metrics
        (omega arith) st.counted later.counted;
}
sift ids a rest s t u (some x) xs apart st later =
    let free =
      All-imp (λ (y : Applicant). a.candidate_id ≢ y.candidate_id)
        (λ (y : Applicant). x.candidate_id ≢ y.candidate_id) (λ y ne e. ne (sym st.kept.0 ∙ e)) rest
        apart in
    record {
      books = later.books;
      touches = λ j h. later.touches j h.1 ∙ st.touches j (λ e. h.0 (sym e));
      away = λ j h. (λ e. h.0 (e ∙ st.kept.0), later.away j h.1);
      keyed = (later.away x.candidate_id free, later.keyed);
      awaiting = (
        carry_Pending x.candidate_id x.filter_details t.outcomes u.outcomes
            (later.touches x.candidate_id free) st.kept.1,
        later.awaiting,
      );
      counted =
          Filtered-trans (length rest) 1 (length xs) (suc (length xs)) s.metrics t.metrics u.metrics
            (omega arith) st.counted later.counted;
    }

pub filter_loop-Sifted :
    (ids : List ℕ) (rules : HardFilterRules) (read : ℕ → Result Reading) (todo : List Applicant)
    (s : Progress)
    → IsKeyed applicant_id todo
    → All (λ (a : Applicant). Fresh s a.candidate_id) todo
    → Books ids s
    → Sifted ids todo s (filter_loop rules read todo s)
unfolding filter_loop
filter_loop-Sifted ids rules read [] s keyed fresh b = record {
  books = b;
  touches = λ j h. refl;
  away = λ j h. tt;
  keyed = tt;
  awaiting = tt;
  counted = record {
    processed_count = omega arith;
    seen_count = omega arith;
    passing_count = omega arith;
    others = refl;
  };
}
filter_loop-Sifted ids rules read (a ∷ rest) s keyed fresh b =
    let r = apply_rules rules a (read a.candidate_id) (process_text a.candidate_id s) in
    let st = apply_rules-Step ids rules a (read a.candidate_id) s fresh.0 b in
    let later = filter_loop rules read rest r.0 in
    sift ids a rest s r.0 later.0 r.1 later.1 keyed.0 st (
      filter_loop-Sifted ids rules read rest r.0 keyed.1
        (All-both (λ (y : Applicant). a.candidate_id ≢ y.candidate_id)
          (λ (y : Applicant). Fresh s y.candidate_id) (λ (y : Applicant). Fresh r.0 y.candidate_id)
          (λ y ne f. st.touches y.candidate_id ne ∙ f) rest keyed.0 fresh.1)
        st.books)
