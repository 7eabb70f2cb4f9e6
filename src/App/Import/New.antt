-- ===== src/App/Import/New.antt =====
-- Importing a vacancy that its source has not listed before.
use mathlib.Core.Path.{subst}
use job_scout_ai.Prelude.{
  ◌≡◌, ◌≢◌, refl, sym, ◌∙◌, true, not, Option, none, some, is_some, ok, err, not_found, values,
  find, arith, Bool-cases, inl, inr, ◌==◌, ◌&&◌, Dict,
}
use job_scout_ai.Core.Types.{CandidateProfile, JobSource, Company, Vacancy, RawVacancy, Time}
use job_scout_ai.Strings.{is_nil}
use job_scout_ai.Core.Normalize.{normalize_vacancy}
use job_scout_ai.Core.VacancyStatus
use job_scout_ai.Store.{World}
use job_scout_ai.Store.Exec.{lift, finds, or_error, attempt, within_import_transaction, ◌>>=◌}
use job_scout_ai.Store.Exec.Ends.{Ends, Triple, Triple-bind}
use job_scout_ai.Store.Memory.{
  find_vacancy_by_source_external_id, find_vacancy_by_content_hash, upsert_vacancy, id_or_new,
}
use job_scout_ai.Store.Lists.{VacancyWithMatch}
use job_scout_ai.App.{App}
use job_scout_ai.App.Import.Steps.{
  matched, after, committed, Of, new_id-Of, now-Of, get_or_create_company-Of,
}
use job_scout_ai.App.Import.{
  score_of, filter_of, decided_vacancy, store_vacancy, go_on, named_company,
  import_vacancy_from_raw_with_storage, import_vacancy_from_raw,
}
use job_scout_ai.App.Decision.{
  match_of, DedupDecision, no_duplicate, dedup_of, should_preserve_status, stored_status,
  computed_status, draft_vacancy, detect_dedup, existing_of,
}

-- What the state and the mark of a vacancy say where `primary` has its content.
abbrev pub Marked : Option Vacancy → Vacancy → Type 0
Marked none x = (x.status ≢ VacancyStatus.duplicate) × (x.duplicate_of_vacancy_id ≡ none)
Marked (some p) x = (x.status ≡ VacancyStatus.duplicate) × (x.duplicate_of_vacancy_id ≡ some p.id)

-- What detectDedup answers.
abbrev decision : Option Vacancy → DedupDecision
decision none = no_duplicate
decision (some p) = record {
  duplicate_of = some p.id;
  dedup_reason = some "CONTENT_HASH";
  is_duplicate = true;
}

Marked-like :
    (o : Option Vacancy) (x y : Vacancy)
    → y.status ≡ x.status
    → y.duplicate_of_vacancy_id ≡ x.duplicate_of_vacancy_id
    → Marked o x
    → Marked o y
Marked-like none x y e f m = (λ d. m.0 (sym e ∙ d), f ∙ m.1)
Marked-like (some p) x y e f m = (e ∙ m.0, f ∙ m.1)

upsert-Marked :
    (o : Option Vacancy) (x : Vacancy)
    → Marked o x
    → Triple (λ w. Unit {0}) (upsert_vacancy x) (λ y. Of λ vs. Marked o y) (λ w. Unit {0})
unfolding upsert_vacancy id_or_new
upsert-Marked o x m = record {
  at = λ w h. elim (Bool-cases (is_nil x.id)) [
    | inl y ↦ rw y (record { holds = Marked-like o x _ refl refl m })
    | inr n ↦ rw n (record { holds = Marked-like o x _ refl refl m })
  ];
}

module _ (app : App) (source : JobSource) (raw : RawVacancy) (profile : CandidateProfile)
    (primary : Option Vacancy) where
  -- The source has not listed the vacancy, and `primary` is what the store has of its content.
  abbrev pub Unlisted : Dict Vacancy → Type 0
  Unlisted vacancies =
      (find (λ u. u.source_id == source.id && u.external_id == raw.external_id) (values vacancies)
        ≡ none)
      × (find
            (λ u.
              u.content_hash == (normalize_vacancy app.host raw).content_hash
              && not (is_some u.duplicate_of_vacancy_id))
            (values vacancies)
          ≡ primary)

  detected : (o : Option Vacancy) → dedup_of (or_error not_found o) ≡ ok (decision o)
  unfolding dedup_of
  detected none = refl
  detected (some p) = refl

  detect-Triple :
      Triple
        (Of Unlisted)
        (detect_dedup (normalize_vacancy app.host raw).content_hash none)
        (λ d w. d ≡ decision primary)
        (λ w. Unit {0})
  unfolding detect_dedup find_vacancy_by_content_hash finds attempt lift ◌>>=◌
  detect-Triple = record { at = λ w h. rw (h.holds.1, detected primary) refl }

  found-Unlisted :
      Triple
        (Of Unlisted)
        (attempt (find_vacancy_by_source_external_id source.id raw.external_id))
        (λ found w. (found ≡ err not_found) × Of Unlisted w)
        (λ w. Unit {0})
  unfolding attempt find_vacancy_by_source_external_id finds
  found-Unlisted = record { at = λ w h. rw (h.holds.0) (refl, h) }

  decided-Marked :
      (o : Option Vacancy) (time : Time) (company : Company)
      → Marked o (
          decided_vacancy app source raw profile time company none (decision o) (
            draft_vacancy app.host source raw
              (normalize_vacancy app.host raw)
              company
              (decision o)))
  unfolding draft_vacancy stored_status should_preserve_status computed_status
  decided-Marked none time company = (λ e. absurd (ground arith), refl)
  decided-Marked (some p) time company = (refl, refl)

  -- The draft that follows a decision.
  abbrev draft : Company → DedupDecision → Vacancy
  draft company d = draft_vacancy app.host source raw (normalize_vacancy app.host raw) company d

  store-Marked :
      (time : Time) (company : Company)
      → Triple
          (λ w. Unit {0})
          (store_vacancy app source raw profile time company none
            (decision primary)
            (draft company (decision primary)))
          (λ item w. Marked primary item.vacancy)
          (λ w. Unit {0})
  unfolding store_vacancy
  store-Marked time company =
      Triple-bind (λ y. Of λ vs. Marked primary y) _ _
        (upsert-Marked primary
          (decided_vacancy app source raw profile time company none (decision primary)
            (draft company (decision primary)))
          (decided-Marked primary time company))
        λ y.
          matched (λ vs. Marked primary y) (λ item w. Marked primary item.vacancy) y company
            (match_of profile y
              (score_of app source raw profile time company (draft company (decision primary)))
              (filter_of app source raw profile time company (draft company (decision primary)))
              time)
            λ m w h. h

  new-Marked :
      (time : Time) (company : Company)
      → Triple
          (Of Unlisted)
          (go_on app source raw profile time
            (normalize_vacancy app.host raw)
            company
            (err not_found))
          (λ item w. Marked primary item.vacancy)
          (λ w. Unit {0})
  unfolding go_on existing_of lift ◌>>=◌
  new-Marked time company =
      Triple-bind (λ d w. d ≡ decision primary)
        (detect_dedup (normalize_vacancy app.host raw).content_hash none)
        (λ d. store_vacancy app source raw profile time company none d (draft company d))
        detect-Triple
        λ d. record {
          at = λ w e.
              subst
                (λ d.
                  Ends (λ w. Unit {0}) (λ item w. Marked primary item.vacancy)
                    (store_vacancy app source raw profile time company none d (draft company d) w))
                (sym e) ((store-Marked time company).at w tt);
        }

  import-Marked :
      Triple
        (Of Unlisted)
        (import_vacancy_from_raw_with_storage app source raw profile)
        (λ item w. Marked primary item.vacancy)
        (λ w. Unit {0})
  unfolding import_vacancy_from_raw_with_storage
  import-Marked =
      after Unlisted (λ item w. Marked primary item.vacancy) _ _ now-Of
        λ time.
          after Unlisted (λ item w. Marked primary item.vacancy) _ _ new_id-Of
            λ id.
              after Unlisted (λ item w. Marked primary item.vacancy) _ _
                (get_or_create_company-Of (named_company app source raw profile id))
                λ company.
                  Triple-bind (λ found w. (found ≡ err not_found) × Of Unlisted w) _ _
                    found-Unlisted
                    λ found. record {
                      at = λ w (e, h).
                          subst
                            (λ f.
                              Ends (λ w. Unit {0}) (λ item w. Marked primary item.vacancy)
                                (go_on app source raw profile time (normalize_vacancy app.host raw)
                                  company f w))
                            (sym e) ((new-Marked time company).at w h);
                    }

  -- Importing a vacancy that its source has not listed before, if the call succeeds, gives it the state of a
  -- duplicate exactly where the store has a vacancy of the same content that is no duplicate itself; that
  -- one is then named as the primary, and none is named otherwise.
  pub import_new :
      (w w' : World) (item : VacancyWithMatch)
      → Unlisted w.db.vacancies
      → import_vacancy_from_raw app source raw profile w ≡ (ok item, w')
      → Marked primary item.vacancy
  unfolding import_vacancy_from_raw within_import_transaction
  import_new w w' item unlisted e =
      subst (Ends (λ w. Unit {0}) (λ item w. Marked primary item.vacancy)) e (
        committed (λ item w. Marked primary item.vacancy) w
          (import_vacancy_from_raw_with_storage app source raw profile w)
          (import-Marked.at w (record { holds = unlisted })))
