-- ===== src/App/Http/Errors.antt =====
-- internal/app/http_resumes_applications.go: the status code of an error.
use job_scout_ai.Prelude.{
  ℕ, String, Bool, ◌||◌, Error, not_found, conflict, profile_not_configured, manual_text_required,
  invalid_status_change, vacancy_archived, invalid_application_transition, resume_not_found,
  no_suitable_resume, message, panicked, if◌then◌else◌,
}
use job_scout_ai.Host.{Host}
use job_scout_ai.Strings.{◌+++◌, contains, map_chars}

-- err.Error()
unfoldable pub error_text : Error → String
error_text not_found = "not found"
error_text conflict = "conflict"
error_text profile_not_configured = "candidate profile is not configured"
error_text manual_text_required =
    "manual vacancy text is required when automatic retrieval is unavailable"
error_text invalid_status_change = "invalid vacancy status transition"
error_text vacancy_archived = "vacancy is archived"
error_text invalid_application_transition = "invalid application status transition"
error_text (resume_not_found id) = "resume not found: " +++ id
error_text (no_suitable_resume role) = "no suitable resume found: " +++ role
error_text (message s) = s
error_text (panicked s) = s

unfoldable pub is_validation_error : Host → Error → Bool
unfolding map_chars error_text contains
is_validation_error h e =
    let text = map_chars h.to_lower (error_text e) in
    contains text "required"
    || contains text "invalid "
    || contains text "must be"
    || contains text "empty"

-- The switch of writeAPIError.
unfoldable pub api_status : Host → Error → ℕ
unfolding is_validation_error
api_status h not_found = 404
api_status h (resume_not_found id) = 404
api_status h profile_not_configured = 404
api_status h conflict = 409
api_status h vacancy_archived = 409
api_status h invalid_application_transition = 409
api_status h (no_suitable_resume role) = 409
api_status h e = if is_validation_error h e then 400 else 500
