-- ===== src/App/Http/Sound.antt =====
-- internal/app/http.go and http_resumes_applications.go: no request breaks what holds of the applications.
use job_scout_ai.Prelude.{String, Option, Result, ok, err}
use job_scout_ai.Core.VacancyStatus.{VacancyStatus}
use job_scout_ai.Store.{World}
use job_scout_ai.Store.Exec.Ends.{Keeps, keeps_rules}
use job_scout_ai.Store.Applications.Rules.{Good}
use job_scout_ai.App.{App}
use job_scout_ai.App.Http.{Request, Decoders}
use job_scout_ai.App.Http.Vacancies.{
  handle_health, put_profile, handle_profile, handle_search, handle_recommended_vacancies, listed,
  handle_vacancies, handle_import_vacancy, handle_get_vacancy, parsed_status, handle_vacancy_status,
}
use job_scout_ai.App.Http.Applications.{
  post_resume, patch_resume, handle_resumes, handle_resume, handle_resume_by_id,
  handle_applications, handle_application, handle_application_by_id, handle_prepare_application,
  handle_command, handle_approve_application, handle_cancel_application,
  handle_mark_application_submitted, handle_update_application_outcome, handle_get_application,
}
use job_scout_ai.App.Http.Router.{handle_vacancy, handle_vacancy_by_id, routed, serve}
use job_scout_ai.App.Http.Rules.{
  command_rules, read_rules, respond_keeps, with_body_keeps, with_body_or_keeps,
}

module _ (app : App) (json : Decoders) (r : Request) {start : World} where
  ruleset handler_rules =
      (read_rules, command_rules, respond_keeps, with_body_keeps, with_body_or_keeps)

  profile-Good : Keeps (Good start) (handle_profile app json r)
  unfolding handle_profile put_profile
  profile-Good = search handler_rules depth 12

  search-Good : Keeps (Good start) (handle_search app json r)
  unfolding handle_search
  search-Good = search handler_rules depth 12

  recommended-Good : Keeps (Good start) (handle_recommended_vacancies app json r)
  unfolding handle_recommended_vacancies
  recommended-Good = search handler_rules depth 12

  listed-Good : (s : Result (Option VacancyStatus)) → Keeps (Good start) (listed app json r s)
  unfolding listed
  listed-Good (ok s) = search handler_rules
  listed-Good (err e) = search handler_rules

  vacancies-Good : Keeps (Good start) (handle_vacancies app json r)
  unfolding handle_vacancies
  vacancies-Good = search (handler_rules, listed-Good)

  import-Good : Keeps (Good start) (handle_import_vacancy app json r)
  unfolding handle_import_vacancy
  import-Good = search handler_rules depth 12

  parsed-Good :
      (id : String) (s : Result VacancyStatus) → Keeps (Good start) (parsed_status app json r id s)
  unfolding parsed_status
  parsed-Good id (ok s) = search handler_rules
  parsed-Good id (err e) = search handler_rules

  vacancy-Good : (path : String) → Keeps (Good start) (handle_vacancy app json r path)
  unfolding handle_vacancy handle_prepare_application handle_vacancy_status handle_get_vacancy
  vacancy-Good path = search (handler_rules, parsed-Good) depth 16

  resumes-Good : Keeps (Good start) (handle_resumes app json r)
  unfolding handle_resumes post_resume
  resumes-Good = search handler_rules depth 12

  resume-Good : (id : String) → Keeps (Good start) (handle_resume app json r id)
  unfolding handle_resume patch_resume
  resume-Good id = search handler_rules depth 14

  applications-Good : Keeps (Good start) (handle_applications app json r)
  unfolding handle_applications
  applications-Good = search handler_rules depth 12

  application-Good : (path : String) → Keeps (Good start) (handle_application app json r path)
  unfolding handle_application handle_approve_application handle_cancel_application
      handle_mark_application_submitted handle_command handle_update_application_outcome
      handle_get_application
  application-Good path = search handler_rules depth 20

  pub serve-Good : Keeps (Good start) (serve app json r)
  unfolding serve routed handle_health handle_vacancy_by_id handle_resume_by_id
      handle_application_by_id
  serve-Good =
      search
        (
          keeps_rules, profile-Good, search-Good, recommended-Good, vacancies-Good, import-Good,
          vacancy-Good, resumes-Good, resume-Good, applications-Good, application-Good,
        )
        depth 20
