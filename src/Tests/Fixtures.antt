-- ===== src/Tests/Fixtures.antt =====
-- A small world for the tests: a host that knows ASCII, a service with the default scoring, and a store
-- with one vacancy and one application that waits for approval.
use Prim.Native.Char.{code}
use Prim.Native.String.{[], ◌∷◌}
use job_scout_ai.Prelude.{
  ℕ, zero, suc, String, ◌≡◌, refl, sym, ap, [], ◌∷◌, true, false, ◌||◌, ◌&&◌, none, some, pos, leb,
  lookup, arith, ◌==◌, eq_iff, Bool-cases, inl, inr, ◌∙◌,
}
use job_scout_ai.Host.{Host}
use job_scout_ai.Core.Types.{
  CandidateProfile, Company, Vacancy, VacancyMatch, Application, manual_link,
}
use job_scout_ai.Core.VacancyStatus
use job_scout_ai.Core.ApplicationStatus
use job_scout_ai.Core.Resume.{Resume, general_backend, ru}
use job_scout_ai.Core.Scoring.{default_scoring_config}
use job_scout_ai.Store.{Db, World}
use job_scout_ai.Store.Applications.{Sound, Fresh}
use job_scout_ai.App.{App}

abbrev pub ascii_host : Host
ascii_host = record {
  unescape_string = λ s. s;
  to_lower = λ c. c;
  is_letter = λ c. (leb 97 (code c) && leb (code c) 122) || (leb 65 (code c) && leb (code c) 90);
  is_digit = λ c. leb 48 (code c) && leb (code c) 57;
  equal_fold = λ s t. s == t;
  quote = λ s. s;
  sha256_hex = λ parts. "00";
  fnv64a_hex = λ s. "00";
  escape_string = λ s. s;
  parse_time = λ layout s. none;
  format_date = λ t. "";
  parse_url = λ s. none;
  url_string = λ u. "";
  hostname = λ u. "";
}

unfoldable pub app : App
unfolding default_scoring_config
app = record {
  cfg = record {
    environment = "test";
    http_addr = ":8080";
    database_url = "postgres://localhost/jobscout";
    app_name = "JobScout AI";
    owner_email = "owner@example.com";
    hh_user_agent = "JobScout AI/1.0 (owner@example.com)";
    hh_access_token = "";
    hh_base_url = "https://api.hh.ru";
    hh_page_size = pos 20;
    hh_max_pages = pos 5;
    hh_min_delay_ms = pos 500;
    max_vacancy_age_days = pos 30;
    search_timeout_sec = pos 45;
    enable_telegram = true;
    telegram_bot_token = "token";
    telegram_owner_id = pos 7;
    scoring = default_scoring_config;
  };
  host = ascii_host;
  hh_client = none;
  tg_client = none;
}

abbrev pub profile : CandidateProfile
profile = record {
  id = "profile";
  desired_roles = "backend" ∷ [];
  desired_grades = [];
  primary_skills = "sql" ∷ "docker" ∷ [];
  secondary_skills = "kafka" ∷ [];
  excluded_skills = [];
  desired_locations = [];
  remote_allowed = true;
  relocation_allowed = false;
  minimum_salary = some (pos 1000);
  currencies = [];
  employment_types = [];
  excluded_companies = "acme" ∷ [];
  stop_words = "casino" ∷ [];
  years_of_commercial_experience = pos 3;
  languages = [];
  work_authorization = [];
  created_at = 1;
  updated_at = 1;
}

abbrev pub company : Company
company = record {
  id = "company";
  normalized_name = "globex";
  display_name = "globex";
  website = "";
  career_page = "";
  blacklisted = false;
  notes = "";
  created_at = 1;
  updated_at = 1;
}

abbrev pub vacancy : Vacancy
vacancy = record {
  id = "vacancy";
  source_id = "source";
  external_id = "77";
  source_url = "https://example.org/77";
  canonical_url = "https://example.org/77";
  title = "backend developer";
  normalized_title = "backend developer";
  company_id = "company";
  description = "services";
  requirements = "sql";
  responsibilities = "build";
  location = "remote";
  remote_type = "remote";
  employment_type = "full";
  grade = "middle";
  salary_from = some (pos 1500);
  salary_to = some (pos 2000);
  currency = "EUR";
  skills = "sql" ∷ "kafka" ∷ [];
  language_requirements = [];
  work_authorization_requirements = [];
  published_at = 500;
  collected_at = 900;
  content_hash = "00";
  status = VacancyStatus.recommended;
  duplicate_of_vacancy_id = none;
  dedup_reason = none;
  created_at = 900;
  updated_at = 900;
}

abbrev pub vacancy_match : VacancyMatch
vacancy_match = record {
  id = "match";
  vacancy_id = "vacancy";
  candidate_profile_id = "profile";
  total_score = pos 85;
  skills_score = 60;
  experience_score = 100;
  location_score = 100;
  salary_score = 100;
  grade_score = 100;
  role_score = 100;
  positive_reasons = "role matches backend" ∷ [];
  negative_reasons = [];
  missing_skills = "docker" ∷ [];
  hard_filter_passed = true;
  calculated_at = 900;
  scoring_version = "v1";
}

abbrev pub resume : Resume
resume = record {
  id = "resume";
  candidate_profile_id = "profile";
  name = "go resume";
  target_role = general_backend;
  language = ru;
  text_content = "project: a queue";
  skills = "sql" ∷ [];
  is_active = true;
  created_at = 800;
  updated_at = 800;
}

abbrev pub application : Application
application = record {
  id = "application";
  vacancy_id = "vacancy";
  candidate_profile_id = "profile";
  resume_id = "resume";
  status = ApplicationStatus.waiting_approval;
  application_method = manual_link;
  cover_letter = "letter";
  prepared_at = 950;
  approved_at = none;
  submitted_at = none;
  response_received_at = none;
  rejection_reason = "";
  notes = "";
  created_at = 950;
  updated_at = 950;
}

abbrev pub db : Db
db = record {
  profile = some profile;
  sources = [];
  companies = ("company", company) ∷ [];
  vacancies = ("vacancy", vacancy) ∷ [];
  matches = ("vacancy", vacancy_match) ∷ [];
  resumes = ("resume", resume) ∷ [];
  applications = ("application", application) ∷ [];
  audit_events = [];
}

-- Identifiers of growing length.
abbrev pub tail_of : ℕ → String
tail_of zero = []
tail_of (suc n) = "x" ∷ tail_of n

abbrev pub draw : ℕ → String
draw n = "n" ∷ tail_of n

abbrev pub world : World
world = record {
  db = db;
  rolls_back = true;
  ids = draw;
  drawn = 0;
  clock = λ n. 1000;
  read = 0;
  requests = 0;
  outbox = [];
}

tail_of-injective : (n m : ℕ) → tail_of n ≡ tail_of m → n ≡ m
tail_of-injective zero zero e = refl
tail_of-injective zero (suc m) e = absurd (cc)
tail_of-injective (suc n) zero e = absurd (cc)
tail_of-injective (suc n) (suc m) e = ap suc (tail_of-injective n m (cc))

only :
    (i : String) (a : Application)
    → lookup i db.applications ≡ some a
    → (i ≡ "application") × (application ≡ a)
unfolding lookup
only i a e = elim (Bool-cases ("application" == i)) [
  | inl y ↦ (sym ((eq_iff "application" i).0 y), cc (rw y at e))
  | inr n ↦ absurd (cc (rw n at e))
]

abbrev first_code : String → ℕ
first_code [] = 0
first_code (c ∷ s) = code c

elsewhere : (n : ℕ) → lookup (draw n) db.applications ≡ none
unfolding lookup
elsewhere n = elim (Bool-cases ("application" == draw n)) [
  | inl y ↦
      let clash : 97 ≡ 110 = ap first_code ((eq_iff "application" (draw n)).0 y) in
      absurd (omega (arith, clash))
  | inr miss ↦ rw miss refl
]

pub world-Fresh : Fresh world
world-Fresh = record {
  not_empty = λ n h. refl;
  distinct = λ n m h k e. tail_of-injective n m (cc);
  unused = λ n h. elsewhere n;
}

pub world-Sound : Sound db.applications
unfolding ApplicationStatus.valid
world-Sound = record {
  keyed = λ i a e. let (p, q) = only i a e in rw (p, sym q) refl;
  named = λ i a e. let (p, q) = only i a e in rw p refl;
  declared = λ i a e. let (p, q) = only i a e in rw (sym q) refl;
  unique = λ i j a b e f p q v c. (only i a e).0 ∙ sym (only j b f).0;
}
