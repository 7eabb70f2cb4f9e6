-- ===== src/App/Vacancies.antt =====
-- internal/app/app.go: reading vacancies and changing the state of one.
pub mod Paging
pub mod Change
use job_scout_ai.Prelude.{
  ℕ, String, false, not, List, Option, none, some, if◌then◌else◌, Result, ok, err, not_found,
  message, invalid_status_change, ℤ, pos, ltb_ℤ, leb_ℤ, pos_part,
}
use job_scout_ai.Strings.{◌+++◌}
use job_scout_ai.Core.Types.{VacancyMatch}
use job_scout_ai.Core.VacancyStatus
use job_scout_ai.Core.VacancyStatus.{VacancyStatus}
use job_scout_ai.Store.Exec.{Exec, pure, raise, lift, attempt, ◌>>=◌, ◌>>◌}
use job_scout_ai.Store.Memory.{
  get_vacancy, get_company_by_id, get_vacancy_match, update_vacancy_status,
}
use job_scout_ai.Store.Lists.{VacancyWithMatch, list_vacancies, list_recommended_vacancies}
use job_scout_ai.App.{App}

-- err != nil && !errors.Is(err, ErrNotFound)
abbrev optional_match : Result VacancyMatch → Result (Option VacancyMatch)
optional_match (ok m) = ok (some m)
optional_match (err not_found) = ok none
optional_match (err e) = err e

-- (*App).GetVacancy
unfoldable pub get_vacancy_with_match : String → Exec VacancyWithMatch
unfolding ◌>>=◌ get_vacancy get_company_by_id attempt get_vacancy_match
get_vacancy_with_match id = do
  vacancy ← get_vacancy id
  company ← get_company_by_id vacancy.company_id
  found ← attempt (get_vacancy_match vacancy.id)
  match ← lift (optional_match found)
  pure (record { vacancy = vacancy; company = some company; match = match })

-- (*App).UpdateVacancyStatus
unfoldable pub change_vacancy_status : String → VacancyStatus → Exec VacancyWithMatch
unfolding ◌>>=◌ VacancyStatus.valid VacancyStatus.can_transition VacancyStatus.to_text get_vacancy
    update_vacancy_status get_vacancy_with_match
change_vacancy_status id status =
    if not (VacancyStatus.valid status)
    then raise (message ("unknown vacancy status: " +++ VacancyStatus.to_text status))
    else do
      vacancy ← get_vacancy id
      if not (VacancyStatus.can_transition vacancy.status status)
          then raise invalid_status_change
          else do
            update_vacancy_status id status vacancy.duplicate_of_vacancy_id vacancy.dedup_reason
            get_vacancy_with_match id

unfoldable pub normalize_pagination : ℤ → ℤ → ℕ × ℕ
normalize_pagination page per_page =
    let page = if ltb_ℤ page (pos 0) then pos 0 else page in
    let per_page = if leb_ℤ per_page (pos 0) then pos 20 else per_page in
    let per_page = if ltb_ℤ (pos 100) per_page then pos 100 else per_page in
    (pos_part page, pos_part per_page)

-- (*App).ListVacancies
unfoldable pub vacancies_page : ℤ → ℤ → Option VacancyStatus → Exec (List VacancyWithMatch)
unfolding normalize_pagination list_vacancies
vacancies_page page per_page status =
    let (page, per_page) = normalize_pagination page per_page in
    list_vacancies
      (record { page = page; per_page = per_page; status = status; recommended_only = false })

-- (*App).ListRecommendedVacancies
unfoldable pub recommended_page : App → ℤ → ℤ → Exec (List VacancyWithMatch)
unfolding normalize_pagination list_recommended_vacancies
recommended_page app page per_page =
    let (page, per_page) = normalize_pagination page per_page in
    list_recommended_vacancies
      (record { page = page; per_page = per_page; status = none; recommended_only = false })
      app.cfg.scoring.review_threshold
