-- ===== src/Hh.antt =====
-- internal/integrations/hh/client.go: what the client of HeadHunter answers, and the vacancy made of it. The
-- client is a pair of functions of the request and of its number, since the answers change over time.
pub mod Requests
pub mod Calls
use job_scout_ai.Prelude.{
  ℕ, String, [], ◌∷◌, ◌||◌, not, List, Option, none, some, map, keep, if◌then◌else◌, ℤ, Result,
}
use job_scout_ai.Host.{Host}
use job_scout_ai.Strings.{contains, map_chars}
use job_scout_ai.Core.SourceType.{SourceType}
use job_scout_ai.Core.Types.{RawVacancy, Time}
use job_scout_ai.Core.Resume.{is_blank}

pub record SearchVacancySummary : Type 0 where
  pub id : String
  pub name : String
  pub alternate_url : String
  pub published_at : String

pub record SearchResponse : Type 0 where
  pub found : ℤ
  pub pages : ℤ
  pub per_page : ℤ
  pub items : List SearchVacancySummary

pub record Salary : Type 0 where
  pub from : Option ℤ
  pub to : Option ℤ
  pub currency : String

-- The nested structs that hold an identifier and a name are read by their names alone.
pub record VacancyDetails : Type 0 where
  pub id : String
  pub name : String
  pub alternate_url : String
  pub description : String
  pub published_at : String
  pub requirement : String
  pub responsibility : String
  pub key_skills : List String
  pub experience : String
  pub schedule : String
  pub employment : String
  pub area : String
  pub salary : Option Salary
  pub employer : String

pub record Client : Type 0 where
  pub search_vacancies : String → ℤ → ℤ → ℕ → Result SearchResponse
  pub get_vacancy : String → ℕ → Result VacancyDetails

abbrev salary_from_of : Option Salary → Option ℤ
salary_from_of none = none
salary_from_of (some s) = s.from

abbrev salary_to_of : Option Salary → Option ℤ
salary_to_of none = none
salary_to_of (some s) = s.to

abbrev currency_of : Option Salary → String
currency_of none = ""
currency_of (some s) = s.currency

-- The first of the layouts that fits; none fits where the time stays zero.
unfoldable pub first_time : Host → List String → String → Time
first_time h [] value = 0
first_time h (layout ∷ layouts) value =
    let rest = first_time h layouts value in
    elim (h.parse_time layout value) [ none ↦ rest | some t ↦ t ]

unfoldable pub parse_published_at : Host → String → Time
unfolding first_time
parse_published_at h value =
    first_time h
      ("2006-01-02T15:04:05Z07:00" ∷ "2006-01-02T15:04:05-0700" ∷ "2006-01-02T15:04:05Z0700" ∷ [])
      value

abbrev is_remote_name : Host → String → String → String
unfolding map_chars contains
is_remote_name h schedule description =
    if contains (map_chars h.to_lower schedule) "remote"
      || contains (map_chars h.to_lower description) "remote"
    then "remote"
    else schedule

unfoldable pub to_raw_vacancy : Host → VacancyDetails → String → String → String → Time → RawVacancy
unfolding parse_published_at map_chars contains keep
to_raw_vacancy h v source_id external_id source_url collected_at = record {
  source_type = SourceType.headhunter_api;
  source_id = source_id;
  external_id = external_id;
  source_url = source_url;
  canonical_url = v.alternate_url;
  title = v.name;
  company_name = v.employer;
  description = v.description;
  requirements = v.requirement;
  responsibilities = v.responsibility;
  location = v.area;
  remote_type = is_remote_name h v.schedule v.description;
  employment_type = v.employment;
  grade = v.experience;
  salary_from = salary_from_of v.salary;
  salary_to = salary_to_of v.salary;
  currency = currency_of v.salary;
  skills = keep (λ name. not (is_blank name)) v.key_skills;
  language_requirements = [];
  work_authorization_requirements = [];
  published_at = parse_published_at h v.published_at;
  collected_at = collected_at;
}
