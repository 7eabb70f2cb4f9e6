-- ===== src/App/Import/Again.antt =====
-- Importing a vacancy that is already stored.
use mathlib.Core.Path.{subst}
use job_scout_ai.Prelude.{
  ◌≡◌, refl, sym, ap, ◌≢◌, ◌∙◌, Bool, true, false, none, some, Result, ok, lookup, values, find,
  if◌then◌else◌, arith, ◌==◌, ◌&&◌, Dict, Bool-cases, inl, inr,
}
use job_scout_ai.Strings.{is_nil}
use job_scout_ai.Core.Types.{
  CandidateProfile, JobSource, Company, Vacancy, RawVacancy, NormalizedVacancy, Recommendation,
  Time, is_zero,
}
use job_scout_ai.Core.VacancyStatus
use job_scout_ai.Core.VacancyStatus.{VacancyStatus}
use job_scout_ai.Core.VacancyStatus.Text.{same-eq}
use job_scout_ai.Core.Normalize.{normalize_vacancy}
use job_scout_ai.Store.{World}
use job_scout_ai.Store.Exec.{pure, lift, finds, ◌>>=◌, within_import_transaction, attempt}
use job_scout_ai.Store.Exec.Ends.{Ends, Triple, Triple-bind}
use job_scout_ai.Store.Memory.{find_vacancy_by_source_external_id, upsert_vacancy, time_or}
use job_scout_ai.Store.Lists.{VacancyWithMatch}
use job_scout_ai.App.{App}
use job_scout_ai.App.Import.Steps.{
  matched, after, committed, Of, new_id-Of, now-Of, get_or_create_company-Of, Written,
  upsert_vacancy-Written,
}
use job_scout_ai.App.Import.{
  decided_vacancy, store_vacancy, import_vacancy_from_raw_with_storage, import_vacancy_from_raw,
  go_on, named_company,
}
use job_scout_ai.App.Decision.{
  is_later, should_preserve_status, computed_status, stored_status, DedupDecision, detect_dedup,
  existing_of, no_duplicate, draft_vacancy,
}

later-declared :
    (s : VacancyStatus)
    → is_later s ≡ true
    → (VacancyStatus.valid s ≡ true) × (is_nil (VacancyStatus.to_text s) ≡ false)
unfolding VacancyStatus.valid VacancyStatus.to_text
later-declared (VacancyStatus.other s) l = absurd (cc)
later-declared VacancyStatus.archived l = (refl, refl)
later-declared _ l = ground arith

computed-declared :
    (is_duplicate passed : Bool) (recommendation : Recommendation)
    → VacancyStatus.valid (computed_status is_duplicate passed recommendation) ≡ true
unfolding computed_status VacancyStatus.valid
computed-declared is_duplicate passed recommendation = ground arith

-- A later state is kept, or was computed again.
later_kept :
    (s c : VacancyStatus)
    → is_later s ≡ true
    → VacancyStatus.valid c ≡ true
    → (if should_preserve_status s c then s else c) ≡ s
unfolding should_preserve_status
later_kept s c l valid =
    let (declared, named) = later-declared s l in
    elim (Bool-cases (VacancyStatus.same s c)) [
      | inl y ↦ rw (y, sym (same-eq s c declared valid y)) (ground arith)
      | inr n ↦ rw (n, named, l) refl
    ]

module _ (app : App) (source : JobSource) (raw : RawVacancy) (profile : CandidateProfile)
    (v : Vacancy) where
  -- The import has brought the stored vacancy up to date, under its identifier and in its state.
  pub record Updated (item : VacancyWithMatch) (w : World) : Type 0 where
    pub id : item.vacancy.id ≡ v.id
    pub status : is_later v.status ≡ true → item.vacancy.status ≡ v.status
    pub created : is_zero v.created_at ≡ false → item.vacancy.created_at ≡ v.created_at
    pub stored : lookup v.id w.db.vacancies ≡ some item.vacancy
    pub unmarked : item.vacancy.duplicate_of_vacancy_id ≡ none
    pub not_duplicate : is_later v.status ≡ false → item.vacancy.status ≢ VacancyStatus.duplicate

  decided-status :
      (time : Time) (company : Company) (dedup : DedupDecision) (draft : Vacancy)
      → is_later v.status ≡ true
      → (decided_vacancy app source raw profile time company (some v) dedup draft).status ≡ v.status
  unfolding stored_status
  decided-status time company dedup draft l =
      later_kept v.status _ l (computed-declared dedup.is_duplicate _ _)

  decided-created :
      (time : Time) (company : Company) (dedup : DedupDecision) (draft : Vacancy)
      → is_zero v.created_at ≡ false
      → (decided_vacancy app source raw profile time company (some v) dedup draft).created_at
        ≡ v.created_at
  unfolding time_or
  decided-created time company dedup draft z = rw z refl

  decided-not_duplicate :
      (time : Time) (company : Company) (draft : Vacancy)
      → is_later v.status ≡ false
      → (decided_vacancy app source raw profile time company (some v) no_duplicate draft).status
        ≢ VacancyStatus.duplicate
  unfolding stored_status should_preserve_status computed_status
  decided-not_duplicate time company draft l e = absurd (ground arith)

  store-Updated :
      (time : Time) (company : Company) (draft : Vacancy)
      → is_nil v.id ≡ false
      → draft.duplicate_of_vacancy_id ≡ none
      → Triple
          (λ w. Unit {0})
          (store_vacancy app source raw profile time company (some v) no_duplicate draft)
          Updated
          (λ w. Unit {0})
  unfolding store_vacancy
  store-Updated time company draft named unmarked =
      let x = decided_vacancy app source raw profile time company (some v) no_duplicate draft in
      Triple-bind (λ y. Of (Written x y)) (upsert_vacancy x) _ (upsert_vacancy-Written x named)
        λ y. matched (Written x y) Updated y company _ λ m w (e, stored). record {
          id = ap (λ z. z.id) e;
          status = λ l. ap (λ z. z.status) e ∙ decided-status time company no_duplicate draft l;
          created =
              λ z. ap (λ z. z.created_at) e ∙ decided-created time company no_duplicate draft z;
          stored = stored;
          unmarked = ap (λ z. z.duplicate_of_vacancy_id) e ∙ unmarked;
          not_duplicate =
              λ l d. decided-not_duplicate time company draft l (sym (ap (λ z. z.status) e) ∙ d);
        }

  -- The vacancy is found by its source and its external identifier.
  abbrev pub Known : Dict Vacancy → Type 0
  Known vacancies =
      find (λ u. u.source_id == source.id && u.external_id == raw.external_id) (values vacancies)
      ≡ some v

  found-Known :
      Triple
        (Of Known)
        (attempt (find_vacancy_by_source_external_id source.id raw.external_id))
        (λ found w. found ≡ ok v)
        (λ w. Unit {0})
  unfolding attempt find_vacancy_by_source_external_id finds
  found-Known = record { at = λ w h. rw h.holds refl }

  go_on-Updated :
      (time : Time) (normalized : NormalizedVacancy) (company : Company) (found : Result Vacancy)
      → is_nil v.id ≡ false
      → Triple
          (λ w. found ≡ ok v)
          (go_on app source raw profile time normalized company found)
          Updated
          (λ w. Unit {0})
  unfolding go_on existing_of detect_dedup draft_vacancy lift pure ◌>>=◌
  go_on-Updated time normalized company found named = record {
    at = λ w e.
        subst
          (λ f.
            Ends (λ w. Unit {0}) Updated (go_on app source raw profile time normalized company f w))
          (sym e)
          ((store-Updated time company
              (draft_vacancy app.host source raw normalized company no_duplicate) named refl).at
            w tt);
  }

  import-Updated :
      is_nil v.id ≡ false
      → Triple
          (Of Known)
          (import_vacancy_from_raw_with_storage app source raw profile)
          Updated
          (λ w. Unit {0})
  unfolding import_vacancy_from_raw_with_storage
  import-Updated named = after Known Updated _ _ now-Of λ time.
      after Known Updated _ _ new_id-Of λ id.
        after Known Updated _ _ (get_or_create_company-Of (named_company app source raw profile id))
          λ company.
            Triple-bind (λ found w. found ≡ ok v) _ _ found-Known
              λ found. go_on-Updated time (normalize_vacancy app.host raw) company found named

  -- Importing a vacancy that its source lists again, where the vacancy is stored under an identifier that is
  -- not empty: if the call succeeds, the stored vacancy is the one that it returns, with the identifier it
  -- had, with its creation time if that was set, and in its state if that is one of the later ones that
  -- shouldPreserveStatus names.
  pub import_again :
      (w w' : World) (item : VacancyWithMatch)
      → Known w.db.vacancies
      → is_nil v.id ≡ false
      → import_vacancy_from_raw app source raw profile w ≡ (ok item, w')
      → Updated item w'
  unfolding import_vacancy_from_raw within_import_transaction
  import_again w w' item known named e = subst (Ends (λ w. Unit {0}) Updated) e (
      committed Updated w (import_vacancy_from_raw_with_storage app source raw profile w)
        ((import-Updated named).at w (record { holds = known })))

  -- A vacancy that was stored as a duplicate and is imported again loses its mark: the call, if it succeeds,
  -- leaves a vacancy that is not in the state of a duplicate and names no primary.
  pub import_again_duplicate :
      (w w' : World) (item : VacancyWithMatch)
      → Known w.db.vacancies
      → is_nil v.id ≡ false
      → v.status ≡ VacancyStatus.duplicate
      → import_vacancy_from_raw app source raw profile w ≡ (ok item, w')
      → (item.vacancy.status ≢ VacancyStatus.duplicate)
        × (item.vacancy.duplicate_of_vacancy_id ≡ none)
  import_again_duplicate w w' item known named duplicate e =
      let u = import_again w w' item known named e in
      (u.not_duplicate (ap is_later duplicate), u.unmarked)
