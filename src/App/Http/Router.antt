-- ===== src/App/Http/Router.antt =====
-- internal/app/http.go: the routes. ServeMux answers a path that is not clean with a redirect to the clean one, which
-- keeps the query, unless the method is CONNECT. Of the patterns that fit a path ServeMux takes the longest; a pattern that
-- ends in a slash fits every path below it, and no two of these overlap.
use Prim.Native.String.{[], ◌∷◌}
use job_scout_ai.Prelude.{
  String, [], ◌∷◌, List, drop, not, ◌&&◌, ◌||◌, is_empty, if◌then◌else◌, ◌==◌,
}
use job_scout_ai.Strings.{is_nil, has_prefix, split, join, ◌+++◌}
use job_scout_ai.Strings.Affixes.{trim_prefix, has_suffix, without_suffix}
use job_scout_ai.Store.Exec.{Exec, pure}
use job_scout_ai.App.{App}
use job_scout_ai.App.Links.{trim_slashes}
use job_scout_ai.App.Http.{Request, Decoders, Response, Payload, write_error, write_json}
use job_scout_ai.App.Http.Vacancies.{
  handle_health, handle_profile, handle_search, handle_recommended_vacancies, handle_vacancies,
  handle_import_vacancy, handle_get_vacancy, handle_vacancy_status,
}
use job_scout_ai.App.Http.Applications.{
  handle_resumes, handle_resume_by_id, handle_applications, handle_application_by_id,
  handle_prepare_application,
}

-- The names on a path, "." and ".." resolved, the last one first.
unfoldable pub clean_names : (names segments : List String) → List String
clean_names names [] = names
clean_names names (s ∷ segments) =
    clean_names
      (if is_nil s || s == "." then names else if s == ".." then drop 1 names else s ∷ names)
      segments

abbrev pub in_order : (names before : List String) → List String
in_order [] before = before
in_order (s ∷ names) before = in_order names (s ∷ before)

-- path.Clean as net/http uses it: a slash at the end stays.
unfoldable pub clean_path : String → String
unfolding clean_names split join has_suffix
clean_path path =
    let names = in_order (clean_names [] (split path "/")) [] in
    "/" +++ join names "/" +++ (if has_suffix path "/" && not (is_empty names) then "/" else "")

module _ (app : App) (json : Decoders) (r : Request) where
  -- The rest of the path behind the prefix.
  unfoldable pub handle_vacancy : String → Exec Response
  unfolding handle_get_vacancy handle_vacancy_status handle_prepare_application has_suffix
      without_suffix trim_slashes pure write_error
  handle_vacancy path =
      if is_nil path
      then pure (write_error 404 "vacancy id is required")
      else if has_suffix path "/applications/prepare"
      then handle_prepare_application app json r
          (trim_slashes (without_suffix path "/applications/prepare"))
      else if has_suffix path "/status"
      then handle_vacancy_status app json r (without_suffix (without_suffix path "/status") "/")
      else handle_get_vacancy app json r (trim_slashes path)

  unfoldable pub handle_vacancy_by_id : Exec Response
  unfolding handle_vacancy trim_prefix
  handle_vacancy_by_id = handle_vacancy (trim_prefix r.path "/v1/vacancies/")

  -- The handler that the mux gives a path to.
  unfoldable pub routed : Exec Response
  unfolding handle_health handle_profile handle_search handle_recommended_vacancies handle_vacancies
      handle_import_vacancy handle_vacancy_by_id handle_resumes handle_resume_by_id
      handle_applications handle_application_by_id has_prefix pure write_error
  routed =
      if r.path == "/healthz"
      then handle_health
      else if r.path == "/v1/profile"
      then handle_profile app json r
      else if r.path == "/v1/search"
      then handle_search app json r
      else if r.path == "/v1/vacancies"
      then handle_vacancies app json r
      else if r.path == "/v1/vacancies/recommended"
      then handle_recommended_vacancies app json r
      else if r.path == "/v1/vacancies/import-url"
      then handle_import_vacancy app json r
      else if has_prefix "/v1/vacancies/" r.path
      then handle_vacancy_by_id
      else if r.path == "/v1/resumes"
      then handle_resumes app json r
      else if has_prefix "/v1/resumes/" r.path
      then handle_resume_by_id app json r
      else if r.path == "/v1/applications"
      then handle_applications app json r
      else if has_prefix "/v1/applications/" r.path
      then handle_application_by_id app json r
      else pure (write_error 404 "404 page not found")

  unfoldable pub serve : Exec Response
  unfolding clean_path routed pure write_json
  serve =
      if not (r.method == "CONNECT") && not (clean_path r.path == r.path)
      then pure (write_json 301 (Payload.moved (clean_path r.path)))
      else routed
