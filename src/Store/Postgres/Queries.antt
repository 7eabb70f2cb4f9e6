-- ===== src/Store/Postgres/Queries.antt =====
-- internal/store/postgres/postgres.go: the methods that read. Where ORDER BY leaves the order open, rows
-- keep that of the table.
use Prim.Native.String.{[], ◌∷◌}
use job_scout_ai.Prelude.{
  ◌*◌, ◌^◌, ◌%◌, String, [], Bool, false, not, ◌&&◌, ◌||◌, List, ◌∷◌, ◌++◌, Option, none, some,
  find, keep, take, drop, is_some, if◌then◌else◌, ◌==◌, ltb, leb, eqb_ℤ, ℤ, ltb_ℤ, leb_ℤ, Result,
  ok, err, not_found, message,
}
use job_scout_ai.Strings.{trim_space}
use job_scout_ai.Core.Types.{
  CandidateProfile, JobSource, Company, Vacancy, VacancyMatch, Application, AuditEvent,
}
use job_scout_ai.Core.VacancyStatus
use job_scout_ai.Core.VacancyStatus.{VacancyStatus, recommended}
use job_scout_ai.Core.Resume.{Resume, is_blank}
use job_scout_ai.Store.Postgres.Columns.{is_indexed}
use job_scout_ai.Store.Lists.{
  sort_by, earlier, wanted_status, ListVacanciesFilter, VacancyWithMatch,
}
use job_scout_ai.Store.Postgres.{Tables, Query, selects, select_one}

abbrev first_of : {A : Type 0} → List A → Option A
first_of [] = none
first_of (a ∷ rows) = some a

-- The profile that was written last.
unfoldable pub get_candidate_profile : Query CandidateProfile
unfolding sort_by
get_candidate_profile =
    select_one λ t. first_of (sort_by (λ p q. ltb q.updated_at p.updated_at) t.candidate_profiles)

unfoldable pub list_job_sources : Bool → Query (List JobSource)
unfolding sort_by keep
list_job_sources enabled_only = selects λ t.
    sort_by (λ s u. ltb s.created_at u.created_at)
      (keep (λ s. not enabled_only || s.enabled) t.job_sources)

abbrev company_of : Tables → String → Option Company
unfolding find
company_of t id = find (λ c. c.id == id) t.companies

unfoldable pub get_company_by_id : String → Query Company
unfolding find
get_company_by_id id = select_one λ t. company_of t id

unfoldable pub find_vacancy_by_source_external_id : String → String → Query Vacancy
unfolding find
find_vacancy_by_source_external_id source_id external_id =
    select_one λ t. find (λ v. v.source_id == source_id && v.external_id == external_id) t.vacancies

-- The oldest row with this content that is no duplicate.
unfoldable pub find_vacancy_by_content_hash : String → Query Vacancy
unfolding sort_by keep
find_vacancy_by_content_hash content_hash = select_one λ t. first_of (
    sort_by (λ v w. ltb v.created_at w.created_at)
      (keep (λ v. v.content_hash == content_hash && not (is_some v.duplicate_of_vacancy_id))
        t.vacancies))

unfoldable pub get_vacancy : String → Query Vacancy
unfolding find
get_vacancy id = select_one λ t. find (λ v. v.id == id) t.vacancies

abbrev match_of : Tables → String → Option VacancyMatch
unfolding find
match_of t vacancy_id = find (λ m. m.vacancy_id == vacancy_id) t.vacancy_matches

unfoldable pub get_vacancy_match : String → Query VacancyMatch
unfolding find
get_vacancy_match vacancy_id = select_one λ t. match_of t vacancy_id

-- LIMIT and OFFSET. The product is an int64, and PostgreSQL refuses a negative offset.
unfoldable pub limited : {A : Type 0} → ListVacanciesFilter → List A → Result (List A)
limited filter rows =
    let start = (filter.page * filter.per_page) % 2 ^ 64 in
    if leb (2 ^ 63) start
    then err (message "OFFSET must not be negative")
    else ok (take filter.per_page (drop start rows))

-- A row with its company and its match.
abbrev put_item :
    Vacancy
    → Option VacancyMatch
    → Option Company
    → Result (List VacancyWithMatch)
    → Result (List VacancyWithMatch)
put_item v m none rest = err not_found
put_item v m (some c) (err e) = err e
put_item v m (some c) (ok items) = ok (record { vacancy = v; company = some c; match = m } ∷ items)

unfoldable pub items_of : Tables → List Vacancy → Result (List VacancyWithMatch)
unfolding find
items_of t [] = ok []
items_of t (v ∷ rows) = put_item v (match_of t v.id) (company_of t v.company_id) (items_of t rows)

abbrev with_items : Tables → Result (List Vacancy) → Result (List VacancyWithMatch)
unfolding items_of
with_items t (err e) = err e
with_items t (ok rows) = items_of t rows

abbrev is_wanted : ListVacanciesFilter → Vacancy → Bool
unfolding VacancyStatus.same
is_wanted filter v =
    if filter.recommended_only
    then VacancyStatus.same v.status recommended
    else wanted_status filter.status v.status

unfoldable pub list_vacancies : ListVacanciesFilter → Query (List VacancyWithMatch)
unfolding sort_by keep limited with_items is_wanted
list_vacancies filter s = (
  with_items s.tables (
      limited filter (
        sort_by (λ v w. ltb w.collected_at v.collected_at)
          (keep (is_wanted filter) s.tables.vacancies))),
  s,
)

-- JOIN vacancy_matches m ON m.vacancy_id = v.id
unfoldable pub joined : List Vacancy → List VacancyMatch → List (Vacancy × VacancyMatch)
unfolding keep
joined [] matches = []
joined (v ∷ rows) matches =
    pairs v (keep (λ m. m.vacancy_id == v.id) matches) ++ joined rows matches
  where
    pairs : Vacancy → List VacancyMatch → List (Vacancy × VacancyMatch)
    pairs v [] = []
    pairs v (m ∷ ms) = (v, m) ∷ pairs v ms

abbrev is_good : ListVacanciesFilter → ℤ → Vacancy × VacancyMatch → Bool
unfolding VacancyStatus.same
is_good filter min_score (v, m) =
    m.hard_filter_passed
    && leb_ℤ min_score m.total_score
    && VacancyStatus.same v.status recommended
    && wanted_status filter.status v.status

abbrev better : Vacancy × VacancyMatch → Vacancy × VacancyMatch → Bool
better (v, m) (w, n) =
    if eqb_ℤ m.total_score n.total_score
    then ltb w.collected_at v.collected_at
    else ltb_ℤ n.total_score m.total_score

abbrev firsts : List (Vacancy × VacancyMatch) → List Vacancy
firsts [] = []
firsts ((v, m) ∷ rows) = v ∷ firsts rows

abbrev still_good : ℤ → VacancyWithMatch → Bool
still_good min_score item = has_score item.match
  where
    has_score : Option VacancyMatch → Bool
    has_score none = false
    has_score (some m) = leb_ℤ min_score m.total_score && m.hard_filter_passed

abbrev keep_items : ℤ → Result (List VacancyWithMatch) → Result (List VacancyWithMatch)
unfolding keep
keep_items min_score (err e) = err e
keep_items min_score (ok items) = ok (keep (still_good min_score) items)

unfoldable pub list_recommended_vacancies : ListVacanciesFilter → ℤ → Query (List VacancyWithMatch)
unfolding sort_by keep limited with_items joined is_good keep_items
list_recommended_vacancies filter min_score s = (
  keep_items min_score (
      with_items s.tables (
        limited filter (
          firsts (
            sort_by better (
              keep (is_good filter min_score)
                (joined s.tables.vacancies s.tables.vacancy_matches)))))),
  s,
)

unfoldable pub get_resume : String → Query Resume
unfolding find
get_resume id = select_one λ t. find (λ r. r.id == id) t.resumes

abbrev owned_by : String → String → Bool
owned_by profile_id owner = is_blank profile_id || owner == profile_id

unfoldable pub list_resumes : String → Query (List Resume)
unfolding sort_by keep trim_space
list_resumes profile_id = selects λ t.
    sort_by (λ r s. earlier r.created_at s.created_at r.id s.id)
      (keep (λ r. owned_by profile_id r.candidate_profile_id) t.resumes)

unfoldable pub find_active_application_by_vacancy_profile : String → String → Query Application
unfolding sort_by keep is_indexed
find_active_application_by_vacancy_profile vacancy_id profile_id = select_one λ t. first_of (
    sort_by (λ a b. earlier a.created_at b.created_at a.id b.id)
      (keep
        (λ a. a.vacancy_id == vacancy_id && (a.candidate_profile_id == profile_id && is_indexed a))
        t.applications))

unfoldable pub get_application : String → Query Application
unfolding find
get_application id = select_one λ t. find (λ a. a.id == id) t.applications

unfoldable pub list_applications : String → Query (List Application)
unfolding sort_by keep trim_space
list_applications profile_id = selects λ t.
    sort_by (λ a b. earlier b.created_at a.created_at b.id a.id)
      (keep (λ a. owned_by profile_id a.candidate_profile_id) t.applications)

unfoldable pub list_audit_events : Query (List AuditEvent)
unfolding sort_by
list_audit_events =
    selects λ t. sort_by (λ e f. earlier e.created_at f.created_at e.id f.id) t.audit_events
