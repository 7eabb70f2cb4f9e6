-- ===== src/Store/Memory.antt =====
-- internal/store/memory/memory.go: the methods that read and write one entry. A method that fills in
-- fields of the value it is given returns the value as it leaves it.
use job_scout_ai.Prelude.{
  String, [], ◌∷◌, Bool, not, ◌&&◌, ◌||◌, ◌++◌, Option, none, some, any, find, lookup, insert,
  values, is_some, if◌then◌else◌, ◌==◌, not_found, conflict,
}
use job_scout_ai.Host.{Host}
use job_scout_ai.Strings.{is_nil, trim_space}
use job_scout_ai.Core.Types.{
  CandidateProfile, JobSource, Company, Vacancy, VacancyMatch, Application, AuditEvent, Time,
  is_zero,
}
use job_scout_ai.Core.VacancyStatus.{VacancyStatus}
use job_scout_ai.Core.ApplicationStatus
use job_scout_ai.Core.Normalize.{normalize_string_list}
use job_scout_ai.Core.Resume.{Resume}
use job_scout_ai.Store.Exec.{Exec, pure, raise, gets, finds, modify, new_id, now, ◌>>=◌, ◌>>◌}

unfoldable pub upsert_candidate_profile : CandidateProfile → Exec (Unit {0})
unfolding modify
upsert_candidate_profile profile = modify λ db. record db { profile = some profile }

unfoldable pub get_candidate_profile : Exec CandidateProfile
unfolding finds
get_candidate_profile = finds not_found λ db. db.profile

unfoldable pub upsert_job_source : JobSource → Exec (Unit {0})
unfolding modify insert
upsert_job_source source = modify λ db. record db { sources = insert source.id source db.sources }

-- The company as GetOrCreateCompany leaves it where its name is known.
abbrev pub merge_company : Company → Company → Company
merge_company existing company = record existing {
  display_name = company.display_name;
  website = company.website;
  career_page = company.career_page;
  blacklisted = existing.blacklisted || company.blacklisted;
  notes = company.notes;
}

unfoldable pub save_company : Company → Exec Company
unfolding ◌>>=◌ insert
save_company c = do modify λ db. record db { companies = insert c.id c db.companies }; pure c

abbrev merged_or_new : Company → Option Company → Company
merged_or_new company none = company
merged_or_new company (some existing) = merge_company existing company

unfoldable pub get_or_create_company : Company → Exec Company
unfolding ◌>>=◌ save_company find values
get_or_create_company company = do
  known ← gets λ db. find (λ c. c.normalized_name == company.normalized_name) (values db.companies)
  save_company (merged_or_new company known)

unfoldable pub get_company_by_id : String → Exec Company
unfolding finds lookup
get_company_by_id id = finds not_found λ db. lookup id db.companies

unfoldable pub find_vacancy_by_source_external_id : String → String → Exec Vacancy
unfolding finds find values
find_vacancy_by_source_external_id source_id external_id =
    finds not_found λ db.
      find (λ v. v.source_id == source_id && v.external_id == external_id) (values db.vacancies)

unfoldable pub find_vacancy_by_content_hash : String → Exec Vacancy
unfolding finds find values
find_vacancy_by_content_hash content_hash = finds not_found λ db.
    find (λ v. v.content_hash == content_hash && not (is_some v.duplicate_of_vacancy_id))
      (values db.vacancies)

-- if x.ID == "" { x.ID = core.NewID() }
unfoldable pub id_or_new : String → Exec String
unfolding pure new_id
id_or_new id = if is_nil id then new_id else pure id

unfoldable pub upsert_vacancy : Vacancy → Exec Vacancy
unfolding ◌>>=◌ id_or_new insert
upsert_vacancy vacancy = do
  id ← id_or_new vacancy.id
  let vacancy = record vacancy { id = id }
  modify λ db. record db { vacancies = insert id vacancy db.vacancies }
  pure vacancy

unfoldable pub get_vacancy : String → Exec Vacancy
unfolding finds lookup
get_vacancy id = finds not_found λ db. lookup id db.vacancies

unfoldable pub update_vacancy_status :
    String → VacancyStatus → Option String → Option String → Exec (Unit {0})
unfolding ◌>>=◌ get_vacancy insert
update_vacancy_status id status duplicate_of dedup_reason = do
  vacancy ← get_vacancy id
  let vacancy = record vacancy {
    status = status;
    duplicate_of_vacancy_id = duplicate_of;
    dedup_reason = dedup_reason;
  }
  modify λ db. record db { vacancies = insert id vacancy db.vacancies }

abbrev known_match_id : VacancyMatch → Option VacancyMatch → String
known_match_id match (some existing) = if is_nil match.id then existing.id else match.id
known_match_id match none = match.id

unfoldable pub time_or : Time → Time → Time
time_or t fallback = if is_zero t then fallback else t

-- The clock is read only for a time that is not set.
unfoldable pub time_or_now : Time → Exec Time
unfolding pure now
time_or_now t = if is_zero t then now else pure t

unfoldable pub upsert_vacancy_match : VacancyMatch → Exec VacancyMatch
unfolding ◌>>=◌ id_or_new time_or_now lookup insert
upsert_vacancy_match match = do
  existing ← gets λ db. lookup match.vacancy_id db.matches
  id ← id_or_new (known_match_id match existing)
  calculated_at ← time_or_now match.calculated_at
  let match = record match { id = id; calculated_at = calculated_at }
  modify λ db. record db { matches = insert match.vacancy_id match db.matches }
  pure match

unfoldable pub get_vacancy_match : String → Exec VacancyMatch
unfolding finds lookup
get_vacancy_match vacancy_id = finds not_found λ db. lookup vacancy_id db.matches

unfoldable pub upsert_resume : Host → Resume → Exec Resume
unfolding ◌>>=◌ id_or_new time_or trim_space normalize_string_list insert
upsert_resume h resume = do
  id ← id_or_new resume.id
  time ← now
  let resume = record resume {
    id = id;
    name = trim_space resume.name;
    text_content = trim_space resume.text_content;
    skills = normalize_string_list h resume.skills;
    created_at = time_or resume.created_at time;
    updated_at = time;
  }
  modify λ db. record db { resumes = insert id resume db.resumes }
  pure resume

unfoldable pub get_resume : String → Exec Resume
unfolding finds lookup
get_resume id = finds not_found λ db. lookup id db.resumes

-- (Application).IsActive
abbrev pub is_active : Application → Bool
is_active a = ApplicationStatus.is_active a.status

-- What FindActiveApplicationByVacancyProfile looks for.
unfoldable pub is_active_for : String → String → Application → Bool
unfolding ApplicationStatus.is_active
is_active_for vacancy_id profile_id a =
    a.vacancy_id == vacancy_id && a.candidate_profile_id == profile_id && is_active a

unfoldable pub find_active_application_by_vacancy_profile : String → String → Exec Application
unfolding finds find values is_active_for
find_active_application_by_vacancy_profile vacancy_id profile_id =
    finds not_found λ db. find (is_active_for vacancy_id profile_id) (values db.applications)

unfoldable pub get_application : String → Exec Application
unfolding finds lookup
get_application id = finds not_found λ db. lookup id db.applications

-- Another active application for the same vacancy and profile.
unfoldable pub conflicts_with : Application → Application → Bool
unfolding is_active_for
conflicts_with a existing =
    not (existing.id == a.id) && is_active_for a.vacancy_id a.candidate_profile_id existing

-- The record that UpsertApplication writes.
unfoldable pub filled_application : Application → String → Time → Application
unfolding time_or trim_space
filled_application a id time = record a {
  id = id;
  created_at = time_or a.created_at time;
  updated_at = time;
  prepared_at = time_or a.prepared_at time;
  cover_letter = trim_space a.cover_letter;
  notes = trim_space a.notes;
  rejection_reason = trim_space a.rejection_reason;
}

unfoldable pub save_application : Application → Exec Application
unfolding ◌>>=◌ any values conflicts_with insert ApplicationStatus.is_active
save_application a = do
  taken ← gets λ db. is_active a && any (conflicts_with a) (values db.applications)
  if taken
      then raise conflict
      else do modify λ db. record db { applications = insert a.id a db.applications }; pure a

unfoldable pub upsert_application : Application → Exec Application
unfolding ◌>>=◌ id_or_new filled_application save_application
upsert_application a = do
  id ← id_or_new a.id
  time ← now
  save_application (filled_application a id time)

-- Metadata that is nil becomes an empty map, which is the empty list both times.
unfoldable pub create_audit_event : AuditEvent → Exec (Unit {0})
unfolding ◌>>=◌ id_or_new time_or
create_audit_event event = do
  id ← id_or_new event.id
  time ← now
  let event = record event { id = id; created_at = time_or event.created_at time }
  modify λ db. record db { audit_events = db.audit_events ++ event ∷ [] }
