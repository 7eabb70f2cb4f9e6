-- ===== src/Tests/Postgres.antt =====
-- PostgreSQL and the store in memory, side by side.
use Prim.Native.String.{[], ◌∷◌}
use job_scout_ai.Prelude.{
  ◌/◌, ◌*◌, String, ◌≡◌, refl, [], ◌∷◌, none, ok, err, Result, not_found, values, conflict,
}
use job_scout_ai.Core.Types.{Company, Application, Time}
use job_scout_ai.Core.VacancyStatus
use job_scout_ai.Core.ApplicationStatus
use job_scout_ai.Store.Memory
use job_scout_ai.Store.Memory.{filled_application}
use job_scout_ai.Store.Postgres.{Session}
use job_scout_ai.Store.Postgres.Columns.{application_row}
use job_scout_ai.Store.Postgres.Writes
use job_scout_ai.Store.Postgres.Queries
use job_scout_ai.Store.Postgres.Applications
use job_scout_ai.Store.Postgres.Applications.Agreement.{
  Agrees, Fits, Same, reads_as, storages_agree,
}
use job_scout_ai.Tests.Fixtures.{
  db, world, draw, profile, company, vacancy, vacancy_match, resume, application,
}

-- A column that keeps microseconds.
abbrev microseconds : Time → Time
microseconds t = t / 1000 * 1000

abbrev session : Session
session = record {
  tables = record {
    candidate_profiles = profile ∷ [];
    job_sources = [];
    companies = company ∷ [];
    vacancies = vacancy ∷ [];
    vacancy_matches = vacancy_match ∷ [];
    resumes = resume ∷ [];
    applications = record application { prepared_at = 0; created_at = 0; updated_at = 0 } ∷ [];
    audit_events = [];
  };
  timestamp = microseconds;
  ids = draw;
  drawn = 0;
  clock = λ n. 1000;
  read = 0;
}

abbrev approved : Application
approved = record application { status = ApplicationStatus.approved; notes = " noted " }

world-Agrees : Agrees world session
unfolding values application_row ApplicationStatus.valid
world-Agrees = record {
  keyed = (refl, tt);
  rows = refl;
  valid = (refl, tt);
  ids = refl;
  drawn = refl;
  clock = refl;
  read = refl;
}

approved-Fits :
    Fits (filled_application approved "application" 1000) session.timestamp session.tables
unfolding filled_application Writes.refers ApplicationStatus.valid
approved-Fits = record {
  created = (λ e. refl, tt);
  status = refl;
  method = refl;
  vacancy = refl;
  profile = refl;
  resume = refl;
}

storages_agree_example :
    Same
      (Memory.upsert_application approved world)
      (Applications.upsert_application approved session)
    × ((id : String)
        → reads_as session.timestamp
            (Memory.get_application id (Memory.upsert_application approved world).1).0
          ≡ (Queries.get_application id (Applications.upsert_application approved session).1).0)
storages_agree_example = storages_agree approved world session world-Agrees approved-Fits

-- Another active application for the same vacancy.
second_conflicts :
    (Applications.upsert_application (record application { id = "other" }) session).0 ≡ err conflict
unfolding Applications.upsert_application
second_conflicts = refl

-- A vacancy that is not there is no error for PostgreSQL.
missing_in_memory :
    (Memory.update_vacancy_status "no" VacancyStatus.archived none none world).0 ≡ err not_found
unfolding Memory.update_vacancy_status
missing_in_memory = refl

missing_in_postgres :
    (Writes.update_vacancy_status "no" VacancyStatus.archived none none session).0 ≡ ok tt
unfolding Writes.update_vacancy_status
missing_in_postgres = refl

-- A company whose website is known is seen again without one.
abbrev with_site : Company
with_site = record company { website = "https://globex.example" }

abbrev website_of : Result Company → String
website_of (ok c) = c.website
website_of (err e) = "error"

website_lost :
    website_of
      (Memory.get_or_create_company company
        (record world { db = record db { companies = ("company", with_site) ∷ [] } })).0
    ≡ ""
unfolding Memory.get_or_create_company
website_lost = refl

website_kept :
    website_of
      (Writes.get_or_create_company company
        (record session { tables = record session.tables { companies = with_site ∷ [] } })).0
    ≡ "https://globex.example"
unfolding Writes.get_or_create_company
website_kept = refl
