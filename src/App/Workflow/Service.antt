-- ===== src/App/Workflow/Service.antt =====
-- internal/app: the methods of the service besides the commands write no application.
use job_scout_ai.Prelude.{
  ℕ, suc, zero, ◌+◌, String, List, [], ◌∷◌, Option, none, some, Result, ok, err, Error,
}
use job_scout_ai.Hh
use job_scout_ai.Hh.{SearchResponse, SearchVacancySummary, VacancyDetails}
use job_scout_ai.Core.Types.{
  CandidateProfile, JobSource, RawVacancy, NormalizedVacancy, Company, Vacancy, Time,
}
use job_scout_ai.Core.SourceType.{SourceType}
use job_scout_ai.Core.VacancyStatus.{VacancyStatus}
use job_scout_ai.Store.{World}
use job_scout_ai.Store.Exec.{Exec, ask, within_import_transaction}
use job_scout_ai.Store.Exec.Ends.{Keeps, Triple-ask, Keeps-bind}
use job_scout_ai.Store.Memory.{
  get_or_create_company, save_company, find_vacancy_by_source_external_id, upsert_vacancy,
  upsert_vacancy_match, time_or_now, find_vacancy_by_content_hash, upsert_job_source, upsert_resume,
  upsert_candidate_profile,
}
use job_scout_ai.Store.Lists.{list_job_sources}
use job_scout_ai.Store.Applications.Rules.{Good, Good-outside}
use job_scout_ai.Store.Applications.Elsewhere.{store_rules, modify-Keeps, id_or_new-Keeps}
use job_scout_ai.Store.Applications.Transaction.{Keeps-transaction}
use job_scout_ai.App.{App}
use job_scout_ai.App.Decision.{detect_dedup, DedupDecision}
use job_scout_ai.App.Import.{
  import_vacancy_from_raw, import_vacancy_from_raw_with_storage, go_on, store_vacancy,
}
use job_scout_ai.App.Links.{canonical_manual_external_id}
use job_scout_ai.App.Profile.{save_profile, ensure_source_by_type, make_source, or_made}
use job_scout_ai.App.Resumes.{ResumeCreateRequest, ResumePatchRequest, create_resume, update_resume}
use job_scout_ai.App.Vacancies.{change_vacancy_status, get_vacancy_with_match}
use job_scout_ai.App.Search.{
  SearchSummary, Outcome, import_details, import_items, import_page, import_pages,
  run_headhunter_source, after_source, search_sources, search_in, search_by, run_search,
}
use job_scout_ai.App.ManualImport.{
  ManualImportRequest, import_by_id, import_from_hh, import_from_text, by_source,
  import_manual_vacancy,
}
use job_scout_ai.App.Workflow.Actions.{get_profile-Keeps}

module _ {start : World} where
  pub ask-Keeps : {A : Type 0} (f : ℕ → A) → Keeps (Good start) (ask f)
  ask-Keeps f = Triple-ask f λ w. Good-outside start w (suc w.requests) w.outbox

  pub upsert_job_source-Keeps : (source : JobSource) → Keeps (Good start) (upsert_job_source source)
  unfolding upsert_job_source
  upsert_job_source-Keeps source = search modify-Keeps

  pub transaction-Keeps :
      {A : Type 0} (m : Exec A)
      → ((s : World) → Keeps (Good s) m)
      → Keeps (Good start) (within_import_transaction m)
  transaction-Keeps m k = Keeps-transaction m k start

  pub ruleset service_rules = (
    store_rules, modify-Keeps, id_or_new-Keeps, ask-Keeps, upsert_job_source-Keeps,
    get_profile-Keeps, transaction-Keeps,
  )

module _ (app : App) (source : JobSource) (raw : RawVacancy) (profile : CandidateProfile) where
  store_vacancy-Keeps :
      {start : World} (time : Time) (company : Company) (existing : Option Vacancy)
      (dedup : DedupDecision) (draft : Vacancy)
      → Keeps (Good start) (store_vacancy app source raw profile time company existing dedup draft)
  unfolding store_vacancy upsert_vacancy upsert_vacancy_match time_or_now
  store_vacancy-Keeps time company existing dedup draft = search service_rules depth 16

  detect_dedup-Keeps :
      {start : World} (content_hash : String) (existing : Option Vacancy)
      → Keeps (Good start) (detect_dedup content_hash existing)
  unfolding detect_dedup find_vacancy_by_content_hash
  detect_dedup-Keeps content_hash (some existing) = search service_rules
  detect_dedup-Keeps content_hash none = search service_rules depth 10

  go_on-Keeps :
      {start : World} (time : Time) (normalized : NormalizedVacancy) (company : Company)
      (found : Result Vacancy)
      → Keeps (Good start) (go_on app source raw profile time normalized company found)
  unfolding go_on
  go_on-Keeps time normalized company found =
      search (service_rules, detect_dedup-Keeps, store_vacancy-Keeps) depth 10

  get_or_create_company-Keeps :
      {start : World} (company : Company) → Keeps (Good start) (get_or_create_company company)
  unfolding get_or_create_company save_company
  get_or_create_company-Keeps company = search service_rules depth 10

  pub import-Keeps :
      {start : World} → Keeps (Good start) (import_vacancy_from_raw app source raw profile)
  unfolding import_vacancy_from_raw import_vacancy_from_raw_with_storage
      find_vacancy_by_source_external_id
  import-Keeps = search (service_rules, get_or_create_company-Keeps, go_on-Keeps) depth 14

module _ {start : World} (app : App) (client : Hh.Client) (query : String)
    (profile : CandidateProfile) (time : Time) where
  details-Keeps :
      (source : JobSource) (item : SearchVacancySummary) (s : SearchSummary)
      (d : Result VacancyDetails)
      → Keeps (Good start) (import_details app client source profile time item s d)
  unfolding import_details
  details-Keeps source item s (err e) = search service_rules
  details-Keeps source item s (ok d) = search (service_rules, import-Keeps)

  items-Keeps :
      (source : JobSource) (items : List SearchVacancySummary) (s : SearchSummary)
      → Keeps (Good start) (import_items app client source profile time items s)
  unfolding import_items
  items-Keeps source [] s = search service_rules
  items-Keeps source (item ∷ items) s =
      Keeps-bind _ _ (ask-Keeps (client.get_vacancy item.id))
        λ d. Keeps-bind _ _ (details-Keeps source item s d) λ s. items-Keeps source items s

  page-Keeps :
      (source : JobSource) (rest : SearchSummary → Exec Outcome) (page : ℕ) (s : SearchSummary)
      (r : Result SearchResponse)
      → ((s : SearchSummary) → Keeps (Good start) (rest s))
      → Keeps (Good start) (import_page app client query profile time source rest page s r)
  unfolding import_page
  page-Keeps source rest page s (err e) k = search service_rules
  page-Keeps source rest page s (ok resp) k = search (service_rules, items-Keeps, k)

  pages-Keeps :
      (source : JobSource) (left page : ℕ) (s : SearchSummary)
      → Keeps (Good start) (import_pages app client query profile time source left page s)
  unfolding import_pages
  pages-Keeps source zero page s = search service_rules
  pages-Keeps source (suc left) page s = Keeps-bind _ _ (ask-Keeps _) λ r.
      page-Keeps source (import_pages app client query profile time source left (page + 1)) page s r
        λ s. pages-Keeps source left (page + 1) s

  after-Keeps :
      (source : JobSource) (rest : SearchSummary → Exec Outcome) (s : SearchSummary)
      (e : Option Error)
      → ((s : SearchSummary) → Keeps (Good start) (rest s))
      → Keeps (Good start) (after_source app client query profile time source rest s e)
  unfolding after_source
  after-Keeps source rest s (some e) k = search service_rules
  after-Keeps source rest s none k = search (service_rules, k)

  sources-Keeps :
      (sources : List JobSource) (s : SearchSummary)
      → Keeps (Good start) (search_sources app client query profile time sources s)
  unfolding search_sources run_headhunter_source
  sources-Keeps [] s = search service_rules
  sources-Keeps (source ∷ sources) s =
      Keeps-bind _ _ (pages-Keeps source _ 0 s)
        λ o. after-Keeps source _ o.summary o.failure λ s. sources-Keeps sources s

module _ {start : World} (app : App) where
  search_by-Keeps :
      (client : Option Hh.Client) (query : String) (profile : CandidateProfile)
      → Keeps (Good start) (search_by app client query profile)
  unfolding search_by search_in list_job_sources
  search_by-Keeps none query profile = search service_rules
  search_by-Keeps (some client) query profile = search (service_rules, sources-Keeps) depth 12

  pub run_search-Keeps : (query : String) → Keeps (Good start) (run_search app query)
  unfolding run_search
  run_search-Keeps query = search (service_rules, search_by-Keeps)

  make_source-Keeps : (type : SourceType) → Keeps (Good start) (make_source type)
  unfolding make_source
  make_source-Keeps SourceType.headhunter_api = search service_rules
  make_source-Keeps SourceType.manual_url = search service_rules
  make_source-Keeps _ = search service_rules

  or_made-Keeps :
      (type : SourceType) (found : Option JobSource) → Keeps (Good start) (or_made type found)
  or_made-Keeps type none = make_source-Keeps type
  or_made-Keeps type (some source) = search service_rules

  ensure_source-Keeps : (type : SourceType) → Keeps (Good start) (ensure_source_by_type type)
  unfolding ensure_source_by_type list_job_sources
  ensure_source-Keeps type = search (service_rules, or_made-Keeps)

  module _ (req : ManualImportRequest) (profile : CandidateProfile) (time : Time) where
    from_hh-Keeps :
        (client : Option Hh.Client)
        → Keeps (Good start) (import_from_hh app req profile time client)
    unfolding import_from_hh import_by_id
    from_hh-Keeps none = search service_rules
    from_hh-Keeps (some client) = search (service_rules, ensure_source-Keeps, import-Keeps) depth 12

    from_text-Keeps : Keeps (Good start) (import_from_text app req profile time)
    unfolding import_from_text canonical_manual_external_id
    from_text-Keeps = search (service_rules, ensure_source-Keeps, import-Keeps) depth 12

    by_source-Keeps : (type : SourceType) → Keeps (Good start) (by_source app req profile time type)
    by_source-Keeps SourceType.headhunter_api = from_hh-Keeps app.hh_client
    by_source-Keeps _ = from_text-Keeps

  pub import_manual-Keeps :
      (req : ManualImportRequest) → Keeps (Good start) (import_manual_vacancy app req)
  unfolding import_manual_vacancy
  import_manual-Keeps req = search (service_rules, by_source-Keeps)

  pub save_profile-Keeps : (profile : CandidateProfile) → Keeps (Good start) (save_profile profile)
  unfolding save_profile upsert_candidate_profile
  save_profile-Keeps profile = search service_rules depth 10

  pub create_resume-Keeps : (req : ResumeCreateRequest) → Keeps (Good start) (create_resume app req)
  unfolding create_resume upsert_resume
  create_resume-Keeps req = search service_rules depth 16

  pub update_resume-Keeps :
      (id : String) (req : ResumePatchRequest) → Keeps (Good start) (update_resume app id req)
  unfolding update_resume upsert_resume
  update_resume-Keeps id req = search service_rules depth 16

  pub change_status-Keeps :
      (id : String) (status : VacancyStatus) → Keeps (Good start) (change_vacancy_status id status)
  unfolding change_vacancy_status get_vacancy_with_match
  change_status-Keeps id status = search service_rules depth 14
