-- ===== src/App/Http/Vacancies.antt =====
-- internal/app/http.go: the handlers of the profile, the search and the vacancies.
use Prim.Native.String.{[], ◌∷◌}
use job_scout_ai.Prelude.{
  String, [], ◌∷◌, Option, none, some, if◌then◌else◌, Result, ok, err, Error, not_found,
  manual_text_required, invalid_status_change, pos, ◌==◌, ◌||◌, not,
}
use job_scout_ai.Strings.{trim_space}
use job_scout_ai.Core.VacancyStatus
use job_scout_ai.Core.VacancyStatus.{VacancyStatus}
use job_scout_ai.Core.Resume.{is_blank}
use job_scout_ai.Store.Exec.{Exec, pure}
use job_scout_ai.App.{App, get_profile}
use job_scout_ai.App.Profile.{save_profile}
use job_scout_ai.App.Search.{Outcome, SearchSummary, run_search}
use job_scout_ai.App.ManualImport.{import_manual_vacancy}
use job_scout_ai.App.Vacancies.{
  vacancies_page, recommended_page, get_vacancy_with_match, change_vacancy_status,
}
use job_scout_ai.App.Http.{
  Request, Decoders, Response, Payload, write_json, write_error, method_not_allowed, read_json,
  with_body, with_body_or, respond, bad_request, pagination_from_query,
}
use job_scout_ai.App.Http.Errors.{error_text}

-- The status codes that the handlers of this file give to errors.
unfoldable pub import_error : Error → Response
unfolding write_error error_text
import_error manual_text_required = write_error 422 (error_text manual_text_required)
import_error not_found = write_error 404 (error_text not_found)
import_error e = write_error 400 (error_text e)

unfoldable pub vacancy_error : Error → Response
unfolding write_error error_text
vacancy_error not_found = write_error 404 (error_text not_found)
vacancy_error e = write_error 400 (error_text e)

unfoldable pub status_error : Error → Response
unfolding write_error error_text
status_error invalid_status_change = write_error 409 (error_text invalid_status_change)
status_error not_found = write_error 404 (error_text not_found)
status_error e = write_error 400 (error_text e)

unfoldable pub handle_health : Exec Response
unfolding pure write_json
handle_health = pure (write_json 200 Payload.healthy)

-- The summary, or the error that ended the search.
unfoldable pub searched_with : SearchSummary → Option Error → Response
unfolding write_json bad_request
searched_with s none = write_json 200 (Payload.summary s)
searched_with s (some e) = bad_request e

abbrev pub searched : Outcome → Response
searched o = searched_with o.summary o.failure

module _ (app : App) (json : Decoders) (r : Request) where
  unfoldable pub put_profile : Exec Response
  unfolding respond save_profile read_json with_body write_json bad_request
  put_profile =
      with_body (read_json json.profile r.body)
        λ p. respond (save_profile p) (λ q. write_json 200 (Payload.profile q)) bad_request

  unfoldable pub handle_profile : Exec Response
  unfolding respond get_profile put_profile method_not_allowed pure write_json write_error
      error_text
  handle_profile =
      if r.method == "GET"
      then respond get_profile (λ p. write_json 200 (Payload.profile p))
          (λ e. write_error 404 (error_text e))
      else if r.method == "POST" || r.method == "PUT"
      then put_profile
      else pure (method_not_allowed ("GET" ∷ "POST" ∷ "PUT" ∷ []))

  unfoldable pub handle_search : Exec Response
  unfolding respond run_search read_json with_body_or method_not_allowed pure searched_with
      bad_request
  handle_search =
      if not (r.method == "POST")
      then pure (method_not_allowed ("POST" ∷ []))
      else with_body_or "" (read_json json.search_query r.body)
          λ query. respond (run_search app query) searched bad_request

  unfoldable pub handle_recommended_vacancies : Exec Response
  unfolding respond recommended_page pagination_from_query method_not_allowed pure write_json
      bad_request
  handle_recommended_vacancies =
      let (page, per_page) = pagination_from_query r in
      if not (r.method == "GET")
      then pure (method_not_allowed ("GET" ∷ []))
      else respond (recommended_page app (pos page) (pos per_page))
          (λ items. write_json 200 (Payload.vacancies items)) bad_request

  -- No status in the query, or one that is parsed.
  unfoldable pub wanted_status : String → Result (Option VacancyStatus)
  unfolding VacancyStatus.parse trim_space
  wanted_status raw =
      if is_blank raw
      then ok none
      else elim (VacancyStatus.parse (trim_space raw)) [ ok s ↦ ok (some s) | err e ↦ err e ]

  unfoldable pub listed : Result (Option VacancyStatus) → Exec Response
  unfolding respond vacancies_page pagination_from_query write_json bad_request pure
  listed (err e) = pure (bad_request e)
  listed (ok status) =
      let (page, per_page) = pagination_from_query r in
      respond (vacancies_page (pos page) (pos per_page) status)
        (λ items. write_json 200 (Payload.vacancies items)) bad_request

  unfoldable pub handle_vacancies : Exec Response
  unfolding listed wanted_status method_not_allowed pure
  handle_vacancies =
      if not (r.method == "GET")
      then pure (method_not_allowed ("GET" ∷ []))
      else listed (wanted_status (r.query "status"))

  unfoldable pub handle_import_vacancy : Exec Response
  unfolding respond import_manual_vacancy read_json with_body method_not_allowed pure write_json
      import_error
  handle_import_vacancy =
      if not (r.method == "POST")
      then pure (method_not_allowed ("POST" ∷ []))
      else with_body (read_json json.manual_import r.body) λ req.
        respond (import_manual_vacancy app req) (λ item. write_json 200 (Payload.vacancy item))
          import_error

  unfoldable pub handle_get_vacancy : String → Exec Response
  unfolding respond get_vacancy_with_match method_not_allowed pure write_json vacancy_error
  handle_get_vacancy id =
      if not (r.method == "GET")
      then pure (method_not_allowed ("GET" ∷ []))
      else respond (get_vacancy_with_match id) (λ item. write_json 200 (Payload.vacancy item))
          vacancy_error

  unfoldable pub parsed_status : String → Result VacancyStatus → Exec Response
  unfolding respond change_vacancy_status write_json status_error bad_request pure
  parsed_status id (err e) = pure (bad_request e)
  parsed_status id (ok status) =
      respond (change_vacancy_status id status) (λ item. write_json 200 (Payload.vacancy item))
        status_error

  unfoldable pub handle_vacancy_status : String → Exec Response
  unfolding parsed_status read_json with_body method_not_allowed pure VacancyStatus.parse
  handle_vacancy_status id =
      if not (r.method == "PATCH")
      then pure (method_not_allowed ("PATCH" ∷ []))
      else with_body (read_json json.status r.body)
          λ status. parsed_status id (VacancyStatus.parse status)
