-- ===== src/Tests/Import.antt =====
-- Imports in the small world.
use job_scout_ai.Prelude.{
  String, ◌≡◌, ◌≢◌, refl, [], ◌∷◌, none, some, Result, ok, err, pos, true, values, find,
}
use job_scout_ai.Core.SourceType.{manual_url}
use job_scout_ai.Core.Types.{JobSource, RawVacancy, Vacancy}
use job_scout_ai.Core.VacancyStatus
use job_scout_ai.Core.Normalize.{normalize_vacancy}
use job_scout_ai.Store.{World}
use job_scout_ai.Store.Lists.{VacancyWithMatch}
use job_scout_ai.App.Import.{import_vacancy_from_raw}
use job_scout_ai.App.Import.Again.{Updated, import_again, import_again_duplicate}
use job_scout_ai.App.Import.New.{Marked, import_new}
use job_scout_ai.Tests.Fixtures.{app, db, profile, vacancy, world}

abbrev source : JobSource
source = record {
  id = "source";
  type = manual_url;
  name = "by hand";
  enabled = true;
  configuration = [];
  last_successful_sync_at = none;
  last_error_at = none;
  created_at = 1;
  updated_at = 1;
}

abbrev raw : String → RawVacancy
raw external_id = record {
  source_type = manual_url;
  source_id = "source";
  external_id = external_id;
  source_url = "u";
  canonical_url = "u";
  title = "backend";
  company_name = "globex";
  description = "d";
  requirements = "sql";
  responsibilities = "r";
  location = "";
  remote_type = "remote";
  employment_type = "full";
  grade = "middle";
  salary_from = some (pos 1500);
  salary_to = none;
  currency = "";
  skills = "sql" ∷ [];
  language_requirements = [];
  work_authorization_requirements = [];
  published_at = 900;
  collected_at = 950;
}

-- The world with the vacancy as `v`.
abbrev with_vacancy : Vacancy → World
with_vacancy v = record world { db = record db { vacancies = ("vacancy", v) ∷ [] } }

abbrev item_of : Result VacancyWithMatch → VacancyWithMatch
item_of (ok item) = item
item_of (err e) = record { vacancy = vacancy; company = none; match = none }

abbrev run : String → Vacancy → Result VacancyWithMatch × World
unfolding import_vacancy_from_raw app
run external_id v = import_vacancy_from_raw app source (raw external_id) profile (with_vacancy v)

abbrev submitted : Vacancy
submitted = record vacancy { status = VacancyStatus.submitted }

abbrev marked : Vacancy
marked = record vacancy { status = VacancyStatus.duplicate; duplicate_of_vacancy_id = some "first" }

import_again_example :
    Updated app source
      (raw "77")
      profile
      submitted
      (item_of (run "77" submitted).0)
      (run "77" submitted).1
unfolding find values import_vacancy_from_raw normalize_vacancy app
import_again_example =
    import_again app source (raw "77") profile submitted (with_vacancy submitted)
      (run "77" submitted).1 (item_of (run "77" submitted).0) refl refl refl

import_again_duplicate_example :
    ((item_of (run "77" marked).0).vacancy.status ≢ VacancyStatus.duplicate)
    × ((item_of (run "77" marked).0).vacancy.duplicate_of_vacancy_id ≡ none)
unfolding find values import_vacancy_from_raw normalize_vacancy app
import_again_duplicate_example =
    import_again_duplicate app source (raw "77") profile marked (with_vacancy marked)
      (run "77" marked).1 (item_of (run "77" marked).0) refl refl refl refl

import_new_example : Marked (some vacancy) (item_of (run "78" vacancy).0).vacancy
unfolding find values import_vacancy_from_raw normalize_vacancy app
import_new_example =
    import_new app source (raw "78") profile (some vacancy) (with_vacancy vacancy)
      (run "78" vacancy).1 (item_of (run "78" vacancy).0) (refl, refl) refl
