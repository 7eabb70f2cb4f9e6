-- ===== src/App/Http/Applications.antt =====
-- internal/app/http_resumes_applications.go: the handlers of the resumes and the applications.
use Prim.Native.String.{[], ◌∷◌}
use job_scout_ai.Prelude.{String, [], ◌∷◌, none, if◌then◌else◌, Error, ◌==◌, not}
use job_scout_ai.Strings.{is_nil}
use job_scout_ai.Strings.Affixes.{trim_prefix, has_suffix, without_suffix}
use job_scout_ai.Store.Exec.{Exec, pure}
use job_scout_ai.Store.Memory.{get_resume}
use job_scout_ai.App.{App}
use job_scout_ai.App.View.{ApplicationView}
use job_scout_ai.App.Resumes.{profile_resumes, create_resume, update_resume}
use job_scout_ai.App.Applications.{
  list_application_views, get_application_view, approve_application, cancel_application,
  mark_application_submitted,
}
use job_scout_ai.App.Outcome.{update_application_outcome}
use job_scout_ai.App.Prepare.{prepare_application}
use job_scout_ai.App.Links.{trim_slashes}
use job_scout_ai.App.Http.{
  Request, Decoders, Response, Payload, write_json, write_error, method_not_allowed, read_json,
  with_body, with_body_or, respond, request_actor,
}
use job_scout_ai.App.Http.Errors.{error_text, api_status}

unfoldable pub write_api_error : App → Error → Response
unfolding write_error error_text api_status
write_api_error app e = write_error (api_status app.host e) (error_text e)

unfoldable pub viewed : ApplicationView → Response
unfolding write_json
viewed view = write_json 200 (Payload.application view)

-- 201 for an application that the call has created.
unfoldable pub prepared : ApplicationView → Response
unfolding write_json
prepared view = write_json (if view.created then 201 else 200) (Payload.application view)

module _ (app : App) (json : Decoders) (r : Request) where
  unfoldable pub post_resume : Exec Response
  unfolding respond create_resume read_json with_body write_json write_api_error
  post_resume = with_body (read_json json.resume_create r.body) λ req.
      respond (create_resume app req) (λ resume. write_json 201 (Payload.resume resume))
        (write_api_error app)

  unfoldable pub patch_resume : String → Exec Response
  unfolding respond update_resume read_json with_body write_json write_api_error
  patch_resume id = with_body (read_json json.resume_patch r.body) λ req.
      respond (update_resume app id req) (λ resume. write_json 200 (Payload.resume resume))
        (write_api_error app)

  unfoldable pub handle_resumes : Exec Response
  unfolding respond profile_resumes post_resume method_not_allowed pure write_json write_api_error
  handle_resumes =
      if r.method == "GET"
      then respond profile_resumes (λ items. write_json 200 (Payload.resumes items))
          (write_api_error app)
      else if r.method == "POST"
      then post_resume
      else pure (method_not_allowed ("GET" ∷ "POST" ∷ []))

  -- From the identifier on.
  unfoldable pub handle_resume : String → Exec Response
  unfolding respond get_resume patch_resume method_not_allowed pure write_json write_api_error
      write_error
  handle_resume id =
      if is_nil id
      then pure (write_error 404 "resume id is required")
      else if r.method == "GET"
      then respond (get_resume id) (λ resume. write_json 200 (Payload.resume resume))
          (write_api_error app)
      else if r.method == "PATCH"
      then patch_resume id
      else pure (method_not_allowed ("GET" ∷ "PATCH" ∷ []))

  unfoldable pub handle_resume_by_id : Exec Response
  unfolding handle_resume trim_prefix trim_slashes
  handle_resume_by_id = handle_resume (trim_slashes (trim_prefix r.path "/v1/resumes/"))

  unfoldable pub handle_applications : Exec Response
  unfolding respond list_application_views method_not_allowed pure write_json write_api_error
  handle_applications =
      if not (r.method == "GET")
      then pure (method_not_allowed ("GET" ∷ []))
      else respond (list_application_views app)
          (λ items. write_json 200 (Payload.applications items)) (write_api_error app)

  unfoldable pub handle_prepare_application : String → Exec Response
  unfolding respond prepare_application read_json with_body_or method_not_allowed pure prepared
      write_api_error request_actor
  handle_prepare_application vacancy_id =
      if not (r.method == "POST")
      then pure (method_not_allowed ("POST" ∷ []))
      else with_body_or none (read_json json.resume_id r.body) λ resume_id.
        respond (prepare_application app vacancy_id resume_id (request_actor r)) prepared
          (write_api_error app)

  -- The three commands that take no body.
  unfoldable pub handle_command : (String → String → Exec ApplicationView) → String → Exec Response
  unfolding respond method_not_allowed pure viewed write_api_error request_actor
  handle_command command id =
      if not (r.method == "POST")
      then pure (method_not_allowed ("POST" ∷ []))
      else respond (command id (request_actor r)) viewed (write_api_error app)

  unfoldable pub handle_approve_application : String → Exec Response
  unfolding handle_command approve_application
  handle_approve_application = handle_command (approve_application app)

  unfoldable pub handle_cancel_application : String → Exec Response
  unfolding handle_command cancel_application
  handle_cancel_application = handle_command (cancel_application app)

  unfoldable pub handle_mark_application_submitted : String → Exec Response
  unfolding handle_command mark_application_submitted
  handle_mark_application_submitted = handle_command (mark_application_submitted app)

  unfoldable pub handle_update_application_outcome : String → Exec Response
  unfolding respond update_application_outcome read_json with_body method_not_allowed pure viewed
      write_api_error request_actor
  handle_update_application_outcome id =
      if not (r.method == "PATCH")
      then pure (method_not_allowed ("PATCH" ∷ []))
      else with_body (read_json json.application_outcome r.body) λ req.
        respond (update_application_outcome app req id (request_actor r)) viewed
          (write_api_error app)

  unfoldable pub handle_get_application : String → Exec Response
  unfolding respond get_application_view method_not_allowed pure viewed write_api_error
  handle_get_application id =
      if not (r.method == "GET")
      then pure (method_not_allowed ("GET" ∷ []))
      else respond (get_application_view app id) viewed (write_api_error app)

  -- The rest of the path behind the prefix.
  unfoldable pub handle_application : String → Exec Response
  unfolding handle_approve_application handle_cancel_application handle_mark_application_submitted
      handle_update_application_outcome handle_get_application has_suffix without_suffix
      trim_slashes pure write_error
  handle_application path =
      if is_nil path
      then pure (write_error 404 "application id is required")
      else if has_suffix path "/approve"
      then handle_approve_application (trim_slashes (without_suffix path "/approve"))
      else if has_suffix path "/cancel"
      then handle_cancel_application (trim_slashes (without_suffix path "/cancel"))
      else if has_suffix path "/mark-submitted"
      then handle_mark_application_submitted (trim_slashes (without_suffix path "/mark-submitted"))
      else if has_suffix path "/outcome"
      then handle_update_application_outcome (trim_slashes (without_suffix path "/outcome"))
      else handle_get_application (trim_slashes path)

  unfoldable pub handle_application_by_id : Exec Response
  unfolding handle_application trim_prefix
  handle_application_by_id = handle_application (trim_prefix r.path "/v1/applications/")
