-- ===== src/App/Import.antt =====
-- internal/app/app.go: importing one vacancy.
pub mod Steps
pub mod Again
pub mod New
use Prim.Native.String.{[], ◌∷◌}
use job_scout_ai.Prelude.{
  String, [], ◌∷◌, Bool, true, false, not, ◌&&◌, ◌||◌, List, ◌++◌, Option, none, some,
  if◌then◌else◌, Result, ok, err, not_found,
}
use job_scout_ai.Host.{Host}
use job_scout_ai.Strings.{is_nil, trim_space}
use job_scout_ai.Core.Types.{
  CandidateProfile, JobSource, Company, Vacancy, VacancyMatch, RawVacancy, NormalizedVacancy,
  HardFilterResult, ScoringResult, Recommendation, apply, review, Time,
}
use job_scout_ai.Core.VacancyStatus
use job_scout_ai.Core.VacancyStatus.{VacancyStatus}
use job_scout_ai.Core.Normalize.{normalize_text, normalize_string_list, normalize_vacancy}
use job_scout_ai.Core.Filters.{apply_hard_filters}
use job_scout_ai.Core.Scoring.{score_vacancy}
use job_scout_ai.Core.Resume.{is_blank}
use job_scout_ai.Store.Exec.{
  Exec, pure, lift, attempt, new_id, now, within_import_transaction, ◌>>=◌,
}
use job_scout_ai.Store.Memory.{
  get_or_create_company, find_vacancy_by_source_external_id, find_vacancy_by_content_hash,
  upsert_vacancy, upsert_vacancy_match, time_or,
}
use job_scout_ai.Store.Lists.{VacancyWithMatch}
use job_scout_ai.App.{App}
use job_scout_ai.App.Decision.{
  first_non_empty, hostname_from_url, is_later, should_preserve_status, DedupDecision, no_duplicate,
  dedup_of, detect_dedup, draft_vacancy, is_recommended, computed_status, status_of, stored_status,
  id_of, created_of, match_of, existing_of,
}

module _ (app : App) (source : JobSource) (raw : RawVacancy) (profile : CandidateProfile) where
  abbrev pub filter_of : Time → Company → Vacancy → HardFilterResult
  filter_of time company draft =
      apply_hard_filters app.host profile draft company time
        (record { max_vacancy_age_days = app.cfg.max_vacancy_age_days })

  abbrev pub score_of : Time → Company → Vacancy → ScoringResult
  score_of time company draft =
      score_vacancy app.host profile draft company app.cfg.scoring
        (filter_of time company draft).passed

  -- The vacancy that is written.
  abbrev pub decided_vacancy : Time → Company → Option Vacancy → DedupDecision → Vacancy → Vacancy
  decided_vacancy time company existing dedup draft = record draft {
    status = stored_status existing (
        computed_status dedup.is_duplicate (filter_of time company draft).passed
          (score_of time company draft).recommendation);
    id = id_of existing;
    created_at = time_or (created_of existing) time;
    updated_at = time;
  }

  -- From the draft on: filters, score, state, and the two writes.
  unfoldable pub store_vacancy :
      Time → Company → Option Vacancy → DedupDecision → Vacancy → Exec VacancyWithMatch
  unfolding ◌>>=◌ apply_hard_filters score_vacancy computed_status stored_status time_or
      upsert_vacancy match_of upsert_vacancy_match
  store_vacancy time company existing dedup draft = do
    vacancy ← upsert_vacancy (decided_vacancy time company existing dedup draft)
    match ←
        upsert_vacancy_match (
          match_of profile vacancy (score_of time company draft) (filter_of time company draft)
            time)
    pure (record { vacancy = vacancy; company = some company; match = some match })

  -- From the search for an existing vacancy on.
  unfoldable pub go_on : Time → NormalizedVacancy → Company → Result Vacancy → Exec VacancyWithMatch
  unfolding ◌>>=◌ existing_of detect_dedup draft_vacancy store_vacancy
  go_on time normalized company found = do
    existing ← lift (existing_of found)
    dedup ← detect_dedup normalized.content_hash existing
    store_vacancy time company existing dedup
        (draft_vacancy app.host source raw normalized company dedup)

  -- The company that the vacancy names, or the host of its URL.
  abbrev pub named_company : String → Company
  named_company id =
      let company_name =
        first_non_empty
          (raw.company_name ∷ hostname_from_url app.host raw.source_url ∷ "unknown company" ∷ []) in
      record {
        id = id;
        normalized_name = normalize_text app.host company_name;
        display_name = company_name;
        website = "";
        career_page = "";
        blacklisted = false;
        notes = "";
        created_at = 0;
        updated_at = 0;
      }

  unfoldable pub import_vacancy_from_raw_with_storage : Exec VacancyWithMatch
  unfolding ◌>>=◌ normalize_vacancy normalize_text first_non_empty hostname_from_url
      get_or_create_company attempt find_vacancy_by_source_external_id go_on
  import_vacancy_from_raw_with_storage = do
    time ← now
    let normalized = normalize_vacancy app.host raw
    id ← new_id
    company ← get_or_create_company (named_company id)
    found ← attempt (find_vacancy_by_source_external_id source.id raw.external_id)
    go_on time normalized company found

  unfoldable pub import_vacancy_from_raw : Exec VacancyWithMatch
  unfolding within_import_transaction import_vacancy_from_raw_with_storage
  import_vacancy_from_raw = within_import_transaction import_vacancy_from_raw_with_storage
