-- ===== src/App/View.antt =====
-- internal/app/applications.go: the view of an application, and the small functions of the file.
use job_scout_ai.Prelude.{
  String, Bool, true, false, List, Option, none, some, if◌then◌else◌, ◌==◌, ◌||◌,
}
use job_scout_ai.Host.{Host}
use job_scout_ai.Strings.{is_nil, trim_space, map_chars, has_prefix}
use job_scout_ai.Core.Types.{
  CandidateProfile, Vacancy, Company, VacancyMatch, Application, AuditAction, AuditEvent, Value,
  Time, application_prepared, application_hr_contact, application_interview, application_offer,
  application_rejected,
}
use job_scout_ai.Core.VacancyStatus.{VacancyStatus}
use job_scout_ai.Core.ApplicationStatus.{ApplicationStatus}
use job_scout_ai.Core.Resume.{Resume, is_blank}
use job_scout_ai.Core.CoverLetter.{build_application_warnings, extract_project_experience}
use job_scout_ai.Store.Exec.{Exec, pure, ◌>>=◌}
use job_scout_ai.Store.Memory.{get_resume, get_vacancy, get_company_by_id, get_vacancy_match}

pub record ApplicationView : Type 0 where
  pub application : Application
  pub resume : Option Resume
  pub vacancy : Option Vacancy
  pub company : Option Company
  pub match : Option VacancyMatch
  pub warnings : List String
  pub vacancy_url : String
  pub created : Bool

unfoldable pub build_application_view : Host → CandidateProfile → Application → Exec ApplicationView
unfolding ◌>>=◌ get_resume get_vacancy get_company_by_id get_vacancy_match
build_application_view h profile application = do
  resume ← get_resume application.resume_id
  vacancy ← get_vacancy application.vacancy_id
  company ← get_company_by_id vacancy.company_id
  match ← get_vacancy_match vacancy.id
  pure (record {
    application = application;
    resume = some resume;
    vacancy = some vacancy;
    company = some company;
    match = some match;
    warnings =
        build_application_warnings h profile resume vacancy (some match)
          (extract_project_experience h resume.text_content);
    vacancy_url =
        if is_blank vacancy.canonical_url then vacancy.source_url else vacancy.canonical_url;
    created = false;
  })

unfoldable pub candidate_name_from_actor : Host → String → String
unfolding trim_space map_chars has_prefix
candidate_name_from_actor h actor =
    let actor = trim_space actor in
    let lower = map_chars h.to_lower actor in
    if is_nil actor
    then ""
    else if lower == "http" || has_prefix "telegram:" lower
    then ""
    else actor

unfoldable pub deref_string : Option String → String
deref_string none = ""
deref_string (some s) = s

unfoldable pub is_outcome_status : ApplicationStatus → Bool
is_outcome_status ApplicationStatus.hr_contact = true
is_outcome_status ApplicationStatus.interview = true
is_outcome_status ApplicationStatus.offer = true
is_outcome_status ApplicationStatus.rejected = true
is_outcome_status _ = false

unfoldable pub vacancy_status_for_outcome : ApplicationStatus → VacancyStatus
vacancy_status_for_outcome ApplicationStatus.hr_contact = VacancyStatus.hr_contact
vacancy_status_for_outcome ApplicationStatus.interview = VacancyStatus.interview
vacancy_status_for_outcome ApplicationStatus.offer = VacancyStatus.offer
vacancy_status_for_outcome ApplicationStatus.rejected = VacancyStatus.rejected
vacancy_status_for_outcome _ = VacancyStatus.recommended

unfoldable pub audit_action_for_outcome : ApplicationStatus → AuditAction
audit_action_for_outcome ApplicationStatus.hr_contact = application_hr_contact
audit_action_for_outcome ApplicationStatus.interview = application_interview
audit_action_for_outcome ApplicationStatus.offer = application_offer
audit_action_for_outcome ApplicationStatus.rejected = application_rejected
audit_action_for_outcome _ = application_prepared

-- The event of an action on an application; the store gives it its identifier.
abbrev pub event_for :
    String → AuditAction → Application → List (String × Value) → Time → AuditEvent
event_for actor action application metadata time = record {
  id = "";
  actor = actor;
  action = action;
  entity_type = "APPLICATION";
  entity_id = application.id;
  metadata = metadata;
  created_at = time;
}
