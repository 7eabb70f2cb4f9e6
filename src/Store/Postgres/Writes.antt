-- ===== src/Store/Postgres/Writes.antt =====
-- internal/store/postgres/postgres.go: the methods that write, on *sql.DB and on *sql.Tx alike.
use job_scout_ai.Prelude.{
  String, Bool, true, not, ◌&&◌, ◌||◌, List, Option, none, some, any, find, map, is_some,
  if◌then◌else◌, ◌==◌, ok,
}
use job_scout_ai.Strings.{trim_space}
use job_scout_ai.Core.Types.{
  CandidateProfile, JobSource, Company, Vacancy, VacancyMatch, Time, is_zero,
}
use job_scout_ai.Core.SourceType
use job_scout_ai.Core.VacancyStatus
use job_scout_ai.Core.VacancyStatus.{VacancyStatus}
use job_scout_ai.Core.Resume.{is_blank}
use job_scout_ai.Store.Memory.{time_or}
use job_scout_ai.Store.Postgres.Columns.{
  profile_row, source_row, company_row, vacancy_row, match_row,
}
use job_scout_ai.Store.Postgres.{
  Tables, Query, ◌>>=◌, id_or_new, now, Violation, unique_violation, foreign_key_violation,
  check_violation, check, upsert, written, selects, execute, plain, timestamps,
}

-- UpsertCandidateProfile: the row keeps its created_at.
unfoldable pub upsert_candidate_profile : CandidateProfile → Query CandidateProfile
unfolding profile_row upsert time_or
upsert_candidate_profile profile = id_or_new profile.id >>= λ id. now >>= λ time.
    timestamps >>= λ ts.
    let new = record profile {
      id = id;
      created_at = time_or profile.created_at time;
      updated_at = time;
    } in
    execute plain (λ t. none)
      (λ t. record t {
        candidate_profiles =
            upsert (λ p. p.id == id)
              (λ p. record (profile_row ts new) { created_at = p.created_at }) (profile_row ts new)
              t.candidate_profiles;
      })
    >>= λ u s. (ok new, s)

unfoldable pub upsert_job_source : JobSource → Query JobSource
unfolding source_row upsert time_or SourceType.valid
upsert_job_source source = id_or_new source.id >>= λ id. now >>= λ time. timestamps >>= λ ts.
    let new = record source {
      id = id;
      created_at = time_or source.created_at time;
      updated_at = time;
    } in
    execute plain (λ t. check (SourceType.valid new.type) check_violation none)
      (λ t. record t {
        job_sources =
            upsert (λ x. x.id == id) (λ x. record (source_row ts new) { created_at = x.created_at })
              (source_row ts new) t.job_sources;
      })
    >>= λ u s. (ok new, s)

-- nullString, and what is scanned where it is NULL
abbrev stored_text : String → String
stored_text s = if is_blank s then "" else s

abbrev coalesce : String → String → String
coalesce new old = if is_blank new then old else new

-- The row of a known name.
unfoldable pub merged_company : Company → Company → Company
unfolding trim_space
merged_company new old = record old {
  display_name = new.display_name;
  website = coalesce new.website old.website;
  career_page = coalesce new.career_page old.career_page;
  blacklisted = old.blacklisted || new.blacklisted;
  notes = coalesce new.notes old.notes;
  updated_at = new.updated_at;
}

abbrev has_name : String → Company → Bool
has_name name c = c.normalized_name == name

unfoldable pub get_or_create_company : Company → Query Company
unfolding company_row upsert time_or merged_company find any trim_space
get_or_create_company company = id_or_new company.id >>= λ id. now >>= λ time. timestamps >>= λ ts.
    let new = company_row ts (record company {
      id = id;
      website = stored_text company.website;
      career_page = stored_text company.career_page;
      notes = stored_text company.notes;
      created_at = time_or company.created_at time;
      updated_at = time;
    }) in
    let name = company.normalized_name in
    selects (λ t. written (merged_company new) new (find (has_name name) t.companies)) >>= λ row.
    execute plain
      (λ t.
        check
          (is_some (find (has_name name) t.companies) || not (any (λ c. c.id == id) t.companies))
          unique_violation none)
      (λ t. record t { companies = upsert (has_name name) (merged_company new) new t.companies })
    >>= λ u s. (ok row, s)

unfoldable pub refers : {A : Type 0} → (A → String) → List A → String → Bool
unfolding any
refers id rows key = any (λ a. id a == key) rows

abbrev is_posting : Vacancy → Vacancy → Bool
is_posting new v = v.source_id == new.source_id && v.external_id == new.external_id

abbrev duplicate_refers : Tables → String → Option String → Bool
duplicate_refers t own none = true
duplicate_refers t own (some id) = id == own || refers (λ v. v.id) t.vacancies id

unfoldable pub vacancy_violation : Vacancy → Tables → Option Violation
unfolding any find VacancyStatus.valid refers
vacancy_violation new t =
    let known = find (is_posting new) t.vacancies in
    check (VacancyStatus.valid new.status) check_violation (
      check (is_some known || not (refers (λ v. v.id) t.vacancies new.id)) unique_violation (
        check (refers (λ x. x.id) t.job_sources new.source_id) foreign_key_violation (
          check (refers (λ c. c.id) t.companies new.company_id) foreign_key_violation (
            check (duplicate_refers t (written (λ v. v) new known).id new.duplicate_of_vacancy_id)
              foreign_key_violation none))))

-- RETURNING id: the vacancy gets the identifier of the row.
unfoldable pub upsert_vacancy : Vacancy → Query Vacancy
unfolding vacancy_row upsert time_or find vacancy_violation
upsert_vacancy vacancy = id_or_new vacancy.id >>= λ id. now >>= λ time. timestamps >>= λ ts.
    let new = record vacancy {
      id = id;
      created_at = time_or vacancy.created_at time;
      updated_at = time;
    } in
    let row = vacancy_row ts new in
    let update = λ (v : Vacancy). record row { id = v.id; created_at = v.created_at } in
    selects (λ t. (written update row (find (is_posting new) t.vacancies)).id) >>= λ row_id.
    execute plain (vacancy_violation new)
      (λ t. record t { vacancies = upsert (is_posting new) update row t.vacancies })
    >>= λ u s. (ok (record new { id = row_id }), s)

-- An identifier that no row has is no error here.
unfoldable pub update_vacancy_status :
    String → VacancyStatus → Option String → Option String → Query (Unit {0})
unfolding VacancyStatus.valid any refers
update_vacancy_status id status duplicate_of dedup_reason = now >>= λ time. timestamps >>= λ ts.
    execute plain
      (λ t.
        if not (refers (λ v. v.id) t.vacancies id)
        then none
        else check (VacancyStatus.valid status) check_violation
            (check (duplicate_refers t id duplicate_of) foreign_key_violation none))
      (λ t. record t {
        vacancies =
            map
              (λ v.
                if v.id == id
                then record v {
                  status = status;
                  duplicate_of_vacancy_id = duplicate_of;
                  dedup_reason = dedup_reason;
                  updated_at = ts time;
                }
                else v)
              t.vacancies;
      })

abbrev time_or_now : Time → Query Time
time_or_now t = if is_zero t then now else λ s. (ok t, s)

abbrev is_match_of : VacancyMatch → VacancyMatch → Bool
is_match_of new m =
    m.vacancy_id == new.vacancy_id && m.candidate_profile_id == new.candidate_profile_id

unfoldable pub match_violation : VacancyMatch → Tables → Option Violation
unfolding any find refers
match_violation new t =
    check
      (is_some (find (is_match_of new) t.vacancy_matches)
        || not (refers (λ m. m.id) t.vacancy_matches new.id))
      unique_violation
      (check (refers (λ v. v.id) t.vacancies new.vacancy_id) foreign_key_violation (
        check (refers (λ p. p.id) t.candidate_profiles new.candidate_profile_id)
          foreign_key_violation none))

unfoldable pub upsert_vacancy_match : VacancyMatch → Query VacancyMatch
unfolding match_row upsert time_or find match_violation
upsert_vacancy_match match = id_or_new match.id >>= λ id.
    time_or_now match.calculated_at >>= λ time. timestamps >>= λ ts.
    let new = record match { id = id; calculated_at = time } in
    let row = match_row ts new in
    let update = λ (m : VacancyMatch). record row { id = m.id } in
    selects (λ t. (written update row (find (is_match_of new) t.vacancy_matches)).id) >>= λ row_id.
    execute plain (match_violation new)
      (λ t. record t { vacancy_matches = upsert (is_match_of new) update row t.vacancy_matches })
    >>= λ u s. (ok (record new { id = row_id }), s)
