-- ===== src/App/ManualImport.antt =====
-- internal/app/app.go: the import of one vacancy by its URL or its text.
use Prim.Native.String.{[], ◌∷◌}
use job_scout_ai.Prelude.{
  String, [], ◌∷◌, Option, none, some, if◌then◌else◌, message, manual_text_required,
}
use job_scout_ai.Strings.{is_nil}
use job_scout_ai.Hh
use job_scout_ai.Hh.{SearchResponse, SearchVacancySummary, VacancyDetails, to_raw_vacancy}
use job_scout_ai.Core.SourceType
use job_scout_ai.Core.Types.{CandidateProfile, JobSource, RawVacancy, Time}
use job_scout_ai.Core.Normalize.{canonical_url}
use job_scout_ai.Core.Resume.{is_blank}
use job_scout_ai.Store.Exec.{Exec, raise, lift, now, ask, ◌>>=◌}
use job_scout_ai.Store.Lists.{VacancyWithMatch}
use job_scout_ai.App.{App, get_profile}
use job_scout_ai.App.Decision.{first_non_empty, hostname_from_url}
use job_scout_ai.App.Import.{import_vacancy_from_raw}
use job_scout_ai.App.Links.{
  detect_source_type, extract_hh_vacancy_id, extract_first_line, canonical_manual_external_id,
}
use job_scout_ai.App.Profile.{ensure_source_by_type}

pub record ManualImportRequest : Type 0 where
  pub url : String
  pub text : String
  pub title : String
  pub company_name : String
  pub location : String

module _ (app : App) where
  module _ (req : ManualImportRequest) (profile : CandidateProfile) (time : Time) where
    unfoldable pub import_by_id : Hh.Client → JobSource → String → Exec VacancyWithMatch
    unfolding ◌>>=◌ ask to_raw_vacancy import_vacancy_from_raw
    import_by_id client source vacancy_id =
        if is_nil vacancy_id
        then raise (message "cannot parse headhunter vacancy id from url")
        else do
          answer ← ask (client.get_vacancy vacancy_id)
          details ← lift answer
          import_vacancy_from_raw app source
              (to_raw_vacancy app.host details source.id vacancy_id req.url time) profile

    unfoldable pub import_from_hh : Option Hh.Client → Exec VacancyWithMatch
    unfolding ◌>>=◌ ensure_source_by_type extract_hh_vacancy_id import_by_id
    import_from_hh none = raise (message "headhunter client is not configured")
    import_from_hh (some client) = do
      source ← ensure_source_by_type SourceType.headhunter_api
      import_by_id client source (extract_hh_vacancy_id app.host req.url)

    abbrev pub manual_raw : JobSource → String → RawVacancy
    unfolding canonical_url first_non_empty extract_first_line hostname_from_url
    manual_raw source external_id = record {
      source_type = SourceType.manual_url;
      source_id = source.id;
      external_id = external_id;
      source_url = req.url;
      canonical_url = canonical_url app.host req.url;
      title = first_non_empty (req.title ∷ extract_first_line req.text ∷ "Manual vacancy" ∷ []);
      company_name =
          first_non_empty
            (req.company_name ∷ hostname_from_url app.host req.url ∷ "Manual source" ∷ []);
      description = req.text;
      requirements = "";
      responsibilities = "";
      location = req.location;
      remote_type = "";
      employment_type = "";
      grade = "";
      salary_from = none;
      salary_to = none;
      currency = "";
      skills = [];
      language_requirements = [];
      work_authorization_requirements = [];
      published_at = time;
      collected_at = time;
    }

    unfoldable pub import_from_text : Exec VacancyWithMatch
    unfolding ◌>>=◌ ensure_source_by_type canonical_manual_external_id canonical_url first_non_empty
        extract_first_line hostname_from_url import_vacancy_from_raw
    import_from_text = if is_blank req.text then raise manual_text_required else do
      source ← ensure_source_by_type SourceType.manual_url
      external_id ← canonical_manual_external_id app.host req.url req.text req.title
      import_vacancy_from_raw app source (manual_raw source external_id) profile

  abbrev pub by_source :
      ManualImportRequest → CandidateProfile → Time → SourceType.SourceType → Exec VacancyWithMatch
  by_source req profile time SourceType.headhunter_api =
      import_from_hh req profile time app.hh_client
  by_source req profile time _ = import_from_text req profile time

  unfoldable pub import_manual_vacancy : ManualImportRequest → Exec VacancyWithMatch
  unfolding ◌>>=◌ get_profile detect_source_type import_from_hh import_from_text
  import_manual_vacancy req = do
    profile ← get_profile
    time ← now
    by_source req profile time (detect_source_type app.host req.url)
