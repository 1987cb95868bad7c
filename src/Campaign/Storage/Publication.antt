-- ===== src/Campaign/Storage/Publication.antt =====
-- `finish_stage0` publishes a document once.
use ai_cv_screening.Prelude.{
  ℕ, String, ◌≡◌, refl, ap, ◌∙◌, Bool, true, false, Option, none, List, [], ◌∷◌, arith, inl, inr,
  ◌⊎◌, err, Result, ◌>>=◌, Bool-cases, ok, filter, map, All,
}
use ai_cv_screening.Prelude.Table.{update_where, Pointwise, Pointwise-refl, Pointwise-update_where}
use ai_cv_screening.Campaign.Rows.{Campaign, CampaignCv, Pair, Db, is_terminal, tables_after}
use ai_cv_screening.Campaign.Storage.{
  get_campaign, scalar_one, finish_row, is_candidate, is_published, Extraction, is_inconsistent,
  has_error, publish, of_cv, fail_pair, published, finish_stage0,
}

filter-update_where {ℓ} :
    {A : Type ℓ} (p : A → Bool) (f : A → A)
    → ((a : A) → p (f a) ≡ p a)
    → (xs : List A) → filter p (update_where p f xs) ≡ map f (filter p xs)
filter-update_where p f h [] = refl
filter-update_where p f h (x ∷ xs) = elim (Bool-cases (p x)) [
  | inl e ↦ rw (e, h x, e) (ap (λ ys. f x ∷ ys) (filter-update_where p f h xs))
  | inr e ↦ rw (e, e) (filter-update_where p f h xs)
]

fail_pair_ends :
    (now : ℕ) (code : Option String) (p : Pair) → is_terminal (fail_pair now code p).status ≡ true
fail_pair_ends now code p = ground arith

All-update_where :
    (now cid cv_id : ℕ) (code : Option String) (ps : List Pair)
    → All
        (λ p. of_cv cid cv_id p ≡ true → is_terminal p.status ≡ true)
        (update_where (of_cv cid cv_id) (fail_pair now code) ps)
All-update_where now cid cv_id code [] = tt
All-update_where now cid cv_id code (p ∷ ps) = elim (Bool-cases (of_cv cid cv_id p)) [
  | inl e ↦ rw e ((λ h. fail_pair_ends now code p), All-update_where now cid cv_id code ps)
  | inr e ↦ rw e ((λ h. cc), All-update_where now cid cv_id code ps)
]

-- a pair that has ended keeps every field
abbrev pub KeepsEnded : List Pair → List Pair → Type 0
KeepsEnded = Pointwise (λ p q. is_terminal p.status ≡ true → q ≡ p)

published-KeepsEnded :
    (now cid candidate : ℕ) (x : Extraction) (db : Db) (v : CampaignCv)
    → KeepsEnded db.pairs (published now cid candidate x db v).pairs
published-KeepsEnded now cid candidate x db v = elim (Bool-cases (has_error x.error_code)) [
  | inl e ↦ rw e (
      Pointwise-update_where (λ p q. is_terminal p.status ≡ true → q ≡ p) (of_cv cid v.id)
        (fail_pair now x.error_code) (λ p h. refl) (λ p e h. rw h refl) db.pairs)
  | inr e ↦
      rw e (Pointwise-refl (λ p q. is_terminal p.status ≡ true → q ≡ p) (λ p h. refl) db.pairs)
]

published_row :
    (now cid candidate : ℕ) (x : Extraction) (db : Db) (v : CampaignCv)
    → filter (is_candidate cid candidate) db.cvs ≡ v ∷ []
    → filter (is_candidate cid candidate) (published now cid candidate x db v).cvs
      ≡ publish now x v ∷ []
published_row now cid candidate x db v f =
    filter-update_where (is_candidate cid candidate) (publish now x) (λ a. refl) db.cvs
    ∙ ap (map (publish now x)) f

publish-is_published :
    (now : ℕ) (x : Extraction) (v : CampaignCv)
    → is_published (publish now x v).stage0_status ≡ true
publish-is_published now x v = ground arith

finish_row_cases :
    (now cid candidate : ℕ) (x : Extraction) (db : Db) (v : CampaignCv)
    → (tables_after db (finish_row now cid candidate x db v) ≡ db)
      ⊎ ((u : CampaignCv) × (tables_after db (finish_row now cid candidate x db v)
            ≡ published now cid candidate x db u))
finish_row_cases now cid candidate x db v = elim (Bool-cases (is_published v.stage0_status)) [
  | inl e ↦ inl (rw e refl)
  | inr e ↦ elim (Bool-cases (is_inconsistent x)) [
    | inl i ↦ inl (rw (e, i) refl)
    | inr i ↦ inr (v, rw (e, i) refl)
  ]
]

finish_any_cases :
    (now cid candidate : ℕ) (x : Extraction) (db : Db) (own : Result Campaign)
    (found : Result CampaignCv)
    → (tables_after db (own >>= (λ c. found >>= finish_row now cid candidate x db)) ≡ db)
      ⊎ ((v : CampaignCv) × (tables_after db
              (own >>= (λ c. found >>= finish_row now cid candidate x db))
            ≡ published now cid candidate x db v))
finish_any_cases now cid candidate x db (err e) found = inl refl
finish_any_cases now cid candidate x db (ok c) (err e) = inl refl
finish_any_cases now cid candidate x db (ok c) (ok v) = finish_row_cases now cid candidate x db v

-- a call changes nothing, or publishes the candidate's row
pub finish_stage0_cases :
    (now cid owner candidate : ℕ) (x : Extraction) (db : Db)
    → (tables_after db (finish_stage0 now cid owner candidate x db) ≡ db)
      ⊎ ((v : CampaignCv) × (tables_after db (finish_stage0 now cid owner candidate x db)
            ≡ published now cid candidate x db v))
unfolding finish_stage0
finish_stage0_cases now cid owner candidate x db =
    finish_any_cases now cid candidate x db (get_campaign db cid owner)
      (scalar_one (filter (is_candidate cid candidate) db.cvs))

-- For the owner of the campaign, a candidate with one row that is not published yet, and consistent
-- arguments, `finish_stage0` publishes: the candidate's row is the published one, without the
-- pending PDF; if there is an error code, every pair of the document has ended; pairs that had ended
-- before keep every field; and every later call for the candidate returns False and changes nothing.
pub finish_stage0_once :
    (now cid owner candidate : ℕ) (x : Extraction) (db : Db) (c : Campaign) (v : CampaignCv)
    → get_campaign db cid owner ≡ ok c
    → filter (is_candidate cid candidate) db.cvs ≡ v ∷ []
    → is_published v.stage0_status ≡ false
    → is_inconsistent x ≡ false
    → (d : Db) × (finish_stage0 now cid owner candidate x db ≡ ok (d, true))
      × (filter (is_candidate cid candidate) d.cvs ≡ publish now x v ∷ [])
      × ((publish now x v).encrypted_pdf ≡ none)
      × (has_error x.error_code ≡ true
          → All (λ p. of_cv cid v.id p ≡ true → is_terminal p.status ≡ true) d.pairs)
      × KeepsEnded db.pairs d.pairs
      × ((later : ℕ) (y : Extraction) → finish_stage0 later cid owner candidate y d ≡ ok (d, false))
unfolding finish_stage0
finish_stage0_once now cid owner candidate x db c v own f fresh fine =
    let d = published now cid candidate x db v in
    let row = published_row now cid candidate x db v f in
    (
      d,
      rw (own, f, fresh, fine) refl,
      row,
      refl,
      λ e. rw e (All-update_where now cid v.id x.error_code db.pairs),
      published-KeepsEnded now cid candidate x db v,
      λ later y. rw (own, row, publish-is_published now x v) refl,
    )
