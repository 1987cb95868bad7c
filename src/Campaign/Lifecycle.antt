-- ===== src/Campaign/Lifecycle.antt =====
-- The states of a (JD, CV) pair, and what every transaction keeps of each pair.
use ai_cv_screening.Prelude.{
  is_some, ◌<◌, ◌≤◌, ℕ, ◌≡◌, refl, sym, ap, ◌∙◌, true, false, List, [], ◌∷◌, arith,
}
use ai_cv_screening.Prelude.Table.{Pointwise, Pointwise-refl, Pointwise-trans, IsKeyed, Apart}
use ai_cv_screening.Campaign.Rows.{
  Settings, PairStatus, Pair, is_terminal, is_pending, is_running, is_stage2_ready, is_shortlisted,
  is_stage3_running,
}

infix 40 ◌⟶◌ ◌⟶*◌
-- the moves that the coordinator and the workers make
pub data ◌⟶◌ : PairStatus → PairStatus → Type 0 where
  reserve : PairStatus.pending ⟶ PairStatus.running
  give_back : PairStatus.running ⟶ PairStatus.pending
  exhaust : PairStatus.running ⟶ PairStatus.processing_failed
  reject : PairStatus.running ⟶ PairStatus.filter_rejected
  retrieve : PairStatus.running ⟶ PairStatus.stage2_ready
  shortlist : PairStatus.stage2_ready ⟶ PairStatus.shortlisted
  cut : PairStatus.stage2_ready ⟶ PairStatus.cutoff_excluded
  hold : PairStatus.stage2_ready ⟶ PairStatus.review_required
  claim : PairStatus.shortlisted ⟶ PairStatus.stage3_running
  park : PairStatus.stage3_running ⟶ PairStatus.shortlisted
  abandon : PairStatus.stage3_running ⟶ PairStatus.evaluation_failed
  succeed : PairStatus.stage3_running ⟶ PairStatus.success
  refer : PairStatus.stage3_running ⟶ PairStatus.review_required
  unreadable : PairStatus.pending ⟶ PairStatus.extraction_failed

pub data ◌⟶*◌ (s : PairStatus) : PairStatus → Type 0 where
  here : s ⟶* s
  next : {t u : PairStatus} → s ⟶* t → t ⟶ u → s ⟶* u

pub ⟶*-trans : {s t u : PairStatus} → s ⟶* t → t ⟶* u → s ⟶* u
⟶*-trans h here = h
⟶*-trans h (next r m) = next (⟶*-trans h r) m

pub ruleset moves = (
  here, next, reserve, give_back, exhaust, reject, retrieve, shortlist, cut, hold, claim, park,
  abandon, succeed, refer, unreadable,
)

-- What holds of a pair between two transactions: its retrieval is attempted at most RUN_MAX_ATTEMPTS
-- times, a pending pair has such an attempt left, and whatever a worker holds has a lease that can
-- expire. The evaluation attempts are not bounded here: a message that the broker delivers again, while
-- its lease holds, counts another one.
pub record IsSound (st : Settings) (p : Pair) : Type 0 where
  pub attempts_capped : p.attempt_count ≤ st.run_max_attempts
  pub pending_spare : is_pending p.status ≡ true → p.attempt_count < st.run_max_attempts
  pub running_counted : is_running p.status ≡ true → 0 < p.attempt_count
  pub running_leased : is_running p.status ≡ true → is_some p.lease_until ≡ true
  pub stage3_leased : is_stage3_running p.status ≡ true → is_some p.lease_until ≡ true

-- A pair keeps its place and its soundness, moves along the diagram, and once terminal keeps every
-- field.
pub record Advances (st : Settings) (p q : Pair) : Type 0 where
  pub same_id : q.id ≡ p.id
  pub same_campaign : q.campaign_id ≡ p.campaign_id
  pub same_jd : q.jd_id ≡ p.jd_id
  pub same_cv : q.cv_id ≡ p.cv_id
  pub path : p.status ⟶* q.status
  pub frozen : is_terminal p.status ≡ true → q ≡ p
  pub sound : IsSound st p → IsSound st q

pub Advances-refl : (st : Settings) (p : Pair) → Advances st p p
Advances-refl st p = record {
  same_id = refl;
  same_campaign = refl;
  same_jd = refl;
  same_cv = refl;
  path = here;
  frozen = λ h. refl;
  sound = λ h. h;
}

pub Advances-trans :
    (st : Settings) (p q r : Pair) → Advances st p q → Advances st q r → Advances st p r
Advances-trans st p q r h k = record {
  same_id = k.same_id ∙ h.same_id;
  same_campaign = k.same_campaign ∙ h.same_campaign;
  same_jd = k.same_jd ∙ h.same_jd;
  same_cv = k.same_cv ∙ h.same_cv;
  path = ⟶*-trans h.path k.path;
  frozen = λ t.
      let same = h.frozen t in k.frozen (ap (λ (x : Pair). is_terminal x.status) same ∙ t) ∙ same;
  sound = λ t. k.sound (h.sound t);
}

-- every pair of a table advances
abbrev pub AllAdvance : Settings → List Pair → List Pair → Type 0
AllAdvance st = Pointwise (Advances st)

pub AllAdvance-refl : (st : Settings) (ps : List Pair) → AllAdvance st ps ps
AllAdvance-refl st = Pointwise-refl (Advances st) (Advances-refl st)

pub AllAdvance-trans :
    (st : Settings) (ps qs rs : List Pair)
    → AllAdvance st ps qs
    → AllAdvance st qs rs
    → AllAdvance st ps rs
AllAdvance-trans st = Pointwise-trans (Advances st) (Advances-trans st)

-- A write to a pair in a known state that is not terminal.
pub Advances-from :
    (st : Settings) (s : PairStatus) (p q : Pair)
    → p.status ≡ s
    → is_terminal s ≡ false
    → q.id ≡ p.id
    → q.campaign_id ≡ p.campaign_id
    → q.jd_id ≡ p.jd_id
    → q.cv_id ≡ p.cv_id
    → s ⟶* q.status
    → (IsSound st p → IsSound st q)
    → Advances st p q
Advances-from st s p q e nt i c j v m k = record {
  same_id = i;
  same_campaign = c;
  same_jd = j;
  same_cv = v;
  path = rw e m;
  frozen = λ t. cc (ap is_terminal e);
  sound = k;
}

-- the status that a test passes
pub status_of_is_pending : (s : PairStatus) → is_pending s ≡ true → s ≡ PairStatus.pending
status_of_is_pending s h = ground arith

pub status_of_is_running : (s : PairStatus) → is_running s ≡ true → s ≡ PairStatus.running
status_of_is_running s h = ground arith

pub status_of_is_stage2_ready :
    (s : PairStatus) → is_stage2_ready s ≡ true → s ≡ PairStatus.stage2_ready
status_of_is_stage2_ready s h = ground arith

pub status_of_is_shortlisted :
    (s : PairStatus) → is_shortlisted s ≡ true → s ≡ PairStatus.shortlisted
status_of_is_shortlisted s h = ground arith

pub status_of_is_stage3_running :
    (s : PairStatus) → is_stage3_running s ≡ true → s ≡ PairStatus.stage3_running
status_of_is_stage3_running s h = ground arith

abbrev pub pair_key : Pair → ℕ
pair_key p = p.id

Apart-AllAdvance :
    (st : Settings) (p q : Pair) (ps qs : List Pair)
    → q.id ≡ p.id
    → AllAdvance st ps qs
    → Apart pair_key p ps
    → Apart pair_key q qs
Apart-AllAdvance st p q [] [] e h a = tt
Apart-AllAdvance st p q [] (y ∷ qs) e h a = absurd h
Apart-AllAdvance st p q (x ∷ ps) [] e h a = absurd h
Apart-AllAdvance st p q (x ∷ ps) (y ∷ qs) e h a =
    (λ same. a.0 (sym e ∙ same ∙ h.0.same_id), Apart-AllAdvance st p q ps qs e h.1 a.1)

-- the primary keys stay distinct
pub IsKeyed-AllAdvance :
    (st : Settings) (ps qs : List Pair)
    → AllAdvance st ps qs
    → IsKeyed pair_key ps
    → IsKeyed pair_key qs
IsKeyed-AllAdvance st [] [] h k = tt
IsKeyed-AllAdvance st [] (y ∷ qs) h k = absurd h
IsKeyed-AllAdvance st (x ∷ ps) [] h k = absurd h
IsKeyed-AllAdvance st (x ∷ ps) (y ∷ qs) h k =
    (Apart-AllAdvance st x y ps qs h.0.same_id h.1 k.0, IsKeyed-AllAdvance st ps qs h.1 k.1)
