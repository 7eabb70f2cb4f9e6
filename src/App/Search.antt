-- ===== src/App/Search.antt =====
-- internal/app/app.go: a search on HeadHunter.
pub mod Asked
pub mod Counters
pub mod Counts
use Prim.Native.String.{[], ◌∷◌}
use job_scout_ai.Prelude.{
  ℕ, zero, suc, ◌+◌, String, [], ◌∷◌, Bool, true, false, not, ◌&&◌, ◌||◌, List, Option, none, some,
  keep, is_empty, if◌then◌else◌, Result, ok, err, Error, message, manual_text_required, ℤ, pos,
  pos_part, ◌+ℤ◌, leb_ℤ,
}
use job_scout_ai.Host.{Host}
use job_scout_ai.Strings.{is_nil}
use job_scout_ai.Hh
use job_scout_ai.Hh.{SearchResponse, SearchVacancySummary, VacancyDetails, to_raw_vacancy}
use job_scout_ai.Core.SourceType
use job_scout_ai.Core.Types.{CandidateProfile, JobSource, RawVacancy, VacancyMatch, Time}
use job_scout_ai.Core.VacancyStatus
use job_scout_ai.Core.Normalize.{canonical_url}
use job_scout_ai.Core.Resume.{is_blank}
use job_scout_ai.Store.Exec.{Exec, pure, raise, lift, attempt, now, ask, ◌>>=◌, ◌>>◌}
use job_scout_ai.Store.Memory.{upsert_job_source}
use job_scout_ai.Store.Lists.{VacancyWithMatch, list_job_sources}
use job_scout_ai.App.{App, get_profile}
use job_scout_ai.App.Decision.{first_non_empty, hostname_from_url}
use job_scout_ai.App.Import.{import_vacancy_from_raw}
use job_scout_ai.App.Links.{
  build_search_query, detect_source_type, extract_hh_vacancy_id, extract_first_line,
  canonical_manual_external_id,
}
use job_scout_ai.App.Profile.{ensure_source_by_type, is_type}

pub record SearchSummary : Type 0 where
  pub found : ℤ
  pub imported : ℕ
  pub duplicates : ℕ
  pub filtered : ℕ
  pub recommended : ℕ
  pub errors : ℕ

abbrev pub no_results : SearchSummary
no_results = record {
  found = pos 0;
  imported = 0;
  duplicates = 0;
  filtered = 0;
  recommended = 0;
  errors = 0;
}

abbrev pub failed : SearchSummary → SearchSummary
failed s = record s { errors = s.errors + 1 }

abbrev pub one_if : Bool → ℕ
one_if true = 1
one_if false = 0

abbrev pub is_good_match : ℤ → Option VacancyMatch → Bool
is_good_match threshold none = false
is_good_match threshold (some m) = m.hard_filter_passed && leb_ℤ threshold m.total_score

-- What an imported vacancy adds to the summary.
unfoldable pub count_imported : ℤ → SearchSummary → VacancyWithMatch → SearchSummary
unfolding VacancyStatus.same
count_imported threshold s item = record s {
  imported = s.imported + 1;
  duplicates =
      s.duplicates + one_if (VacancyStatus.same item.vacancy.status VacancyStatus.duplicate);
  filtered =
      s.filtered + one_if (VacancyStatus.same item.vacancy.status VacancyStatus.filtered_out);
  recommended = s.recommended + one_if (is_good_match threshold item.match);
}

module _ (app : App) (client : Hh.Client) where
  abbrev count_result : SearchSummary → Result VacancyWithMatch → SearchSummary
  count_result s (ok item) = count_imported app.cfg.scoring.review_threshold s item
  count_result s (err e) = failed s

  -- The details of an item that was found, or the error of the request.
  unfoldable pub import_details :
      JobSource
      → CandidateProfile
      → Time
      → SearchVacancySummary
      → SearchSummary
      → Result VacancyDetails
      → Exec SearchSummary
  unfolding ◌>>=◌ attempt import_vacancy_from_raw to_raw_vacancy count_imported
  import_details source profile time item s (err e) = pure (failed s)
  import_details source profile time item s (ok details) = do
    imported ← attempt (
        import_vacancy_from_raw app source
          (to_raw_vacancy app.host details source.id item.id item.alternate_url time) profile)
    pure (count_result s imported)

  -- The loop over the items of a page.
  unfoldable pub import_items :
      JobSource
      → CandidateProfile
      → Time
      → List SearchVacancySummary
      → SearchSummary
      → Exec SearchSummary
  unfolding ◌>>=◌ ask import_details
  import_items source profile time [] s = pure s
  import_items source profile time (item ∷ items) s = do
    details ← ask (client.get_vacancy item.id)
    s ← import_details source profile time item s details
    import_items source profile time items s

  abbrev pub add_found : ℕ → SearchResponse → SearchSummary → SearchSummary
  add_found zero resp s = record s { found = s.found +ℤ resp.found }
  add_found (suc page) resp s = s

-- What a search has counted, and the error that ended it.
pub record Outcome : Type 0 where
  pub summary : SearchSummary
  pub failure : Option Error

abbrev pub ended : SearchSummary → Option Error → Outcome
ended s e = record { summary = s; failure = e }

module _ (app : App) (client : Hh.Client) (query : String) (profile : CandidateProfile)
    (time : Time) where
  -- The body of the loop over the pages; `rest` goes on with the next one.
  unfoldable pub import_page :
      JobSource
      → (SearchSummary → Exec Outcome)
      → ℕ
      → SearchSummary
      → Result SearchResponse
      → Exec Outcome
  unfolding ◌>>=◌ import_items
  import_page source rest page s (err e) = pure (ended s (some e))
  import_page source rest page s (ok resp) =
      let s = add_found app client page resp s in
      if is_empty resp.items then pure (ended s none) else do
        s ← import_items app client source profile time resp.items s
        if leb_ℤ resp.pages (pos (page + 1)) then pure (ended s none) else rest s

  -- The loop over the pages, with as many rounds as are left.
  unfoldable pub import_pages : JobSource → ℕ → ℕ → SearchSummary → Exec Outcome
  unfolding ◌>>=◌ ask import_page
  import_pages source zero page s = pure (ended s none)
  import_pages source (suc left) page s = do
    answer ← ask (client.search_vacancies query (pos page) app.cfg.hh_page_size)
    import_page source (import_pages source left (page + 1)) page s answer

  unfoldable pub run_headhunter_source : JobSource → SearchSummary → Exec Outcome
  unfolding import_pages
  run_headhunter_source source s = import_pages source (pos_part app.cfg.hh_max_pages) 0 s

  -- The moment of the search becomes that of the last success or failure. The error of this write
  -- is ignored.
  unfoldable pub after_source :
      JobSource → (SearchSummary → Exec Outcome) → SearchSummary → Option Error → Exec Outcome
  unfolding ◌>>=◌ attempt upsert_job_source
  after_source source rest s (some e) = do
    _ ← attempt (upsert_job_source (record source { last_error_at = some time }))
    pure (ended s (some e))
  after_source source rest s none = do
    _ ← attempt (
        upsert_job_source
          (record source { last_successful_sync_at = some time; last_error_at = none }))
    rest s

  unfoldable pub search_sources : List JobSource → SearchSummary → Exec Outcome
  unfolding ◌>>=◌ run_headhunter_source after_source
  search_sources [] s = pure (ended s none)
  search_sources (source ∷ sources) s = do
    outcome ← run_headhunter_source source s
    after_source source (search_sources sources) outcome.summary outcome.failure

module _ (app : App) where
  -- From the sources on.
  unfoldable pub search_in : Hh.Client → String → CandidateProfile → List JobSource → Exec Outcome
  unfolding ◌>>=◌ keep SourceType.to_text build_search_query search_sources
  search_in client query profile sources =
      let sources = keep (is_type SourceType.headhunter_api) sources in
      let search_query = build_search_query app.host profile query in
      if is_empty sources
      then raise (message "no enabled headhunter sources configured")
      else if is_blank search_query
      then raise (message "search query is empty")
      else do time ← now; search_sources app client search_query profile time sources no_results

  unfoldable pub search_by : Option Hh.Client → String → CandidateProfile → Exec Outcome
  unfolding ◌>>=◌ list_job_sources search_in
  search_by none query profile = raise (message "headhunter client is not configured")
  search_by (some client) query profile = do
    sources ← list_job_sources true
    search_in client query profile sources

  unfoldable pub run_search : String → Exec Outcome
  unfolding ◌>>=◌ get_profile search_by
  run_search query = do profile ← get_profile; search_by app.hh_client query profile
