-- ===== src/App/Applications.antt =====
-- internal/app/applications.go: approving, cancelling, submitting and closing an application, and reading
-- the applications.
pub mod Mirror
use job_scout_ai.Prelude.{
  String, [], ◌∷◌, Bool, true, false, not, ◌&&◌, List, Option, none, some, is_some, if◌then◌else◌,
  Result, invalid_application_transition,
}
use job_scout_ai.Host.{Host}
use job_scout_ai.Strings.{is_nil, trim_space}
use job_scout_ai.Core.Types.{
  CandidateProfile, Vacancy, Application, ApplicationMethod, Value, text, instant, Time,
  application_approved, application_cancelled, application_marked_submitted,
}
use job_scout_ai.Core.VacancyStatus
use job_scout_ai.Core.ApplicationStatus
use job_scout_ai.Core.ApplicationStatus.{ApplicationStatus}
use job_scout_ai.Core.Resume.{is_blank}
use job_scout_ai.Store.Exec.{Exec, pure, raise, lift, now, within_import_transaction, ◌>>=◌, ◌>>◌}
use job_scout_ai.Store.Memory.{
  get_application, upsert_application, get_vacancy, update_vacancy_status, create_audit_event,
}
use job_scout_ai.Store.Lists.{list_applications}
use job_scout_ai.App.{App, get_profile}
use job_scout_ai.App.View.{
  ApplicationView, build_application_view, is_outcome_status, vacancy_status_for_outcome,
  audit_action_for_outcome, event_for,
}

unfoldable pub method_text : ApplicationMethod → String
method_text ApplicationMethod.manual_link = "MANUAL_LINK"
method_text ApplicationMethod.official_api = "OFFICIAL_API"
method_text (ApplicationMethod.other s) = s

-- Views of the applications in turn; the first failure is the failure of the call.
unfoldable pub views_of : Host → CandidateProfile → List Application → Exec (List ApplicationView)
unfolding ◌>>=◌ build_application_view
views_of h profile [] = pure []
views_of h profile (application ∷ applications) = do
  view ← build_application_view h profile application
  views ← views_of h profile applications
  pure (view ∷ views)

abbrev pub ids_of : Application → List (String × Value)
ids_of a = ("vacancyId", text a.vacancy_id) ∷ ("resumeId", text a.resume_id) ∷ []

-- The assignments before each write.
abbrev pub approved_at_time : Application → Time → Application
approved_at_time a time = record a {
  status = ApplicationStatus.approved;
  approved_at = some time;
  updated_at = time;
}

abbrev pub requiring_action : Application → Time → Application
requiring_action a time = record a {
  status = ApplicationStatus.manual_action_required;
  updated_at = time;
}

abbrev pub cancelled_at_time : Application → Time → Application
cancelled_at_time a time = record a { status = ApplicationStatus.cancelled; updated_at = time }

abbrev pub submitted_at_time : Application → Time → Application
submitted_at_time a time = record a {
  status = ApplicationStatus.submitted;
  submitted_at = some time;
  updated_at = time;
}

abbrev pub or_time : Option Time → Time → Option Time
or_time none time = some time
or_time (some t) time = some t

module _ (app : App) where
  unfoldable pub list_application_views : Exec (List ApplicationView)
  unfolding ◌>>=◌ get_profile list_applications views_of
  list_application_views = do
    profile ← get_profile
    applications ← list_applications profile.id
    views_of app.host profile applications

  unfoldable pub get_application_view : String → Exec ApplicationView
  unfolding ◌>>=◌ get_profile get_application build_application_view
  get_application_view id = do
    profile ← get_profile
    application ← get_application id
    build_application_view app.host profile application

  -- The end of an approval: the event, and the view.
  unfoldable pub record_approval : String → CandidateProfile → Application → Exec ApplicationView
  unfolding ◌>>=◌ create_audit_event build_application_view method_text ApplicationStatus.to_text
  record_approval actor profile a = do
    time ← now
    create_audit_event (
        event_for actor application_approved a
          (("vacancyId", text a.vacancy_id)
            ∷ ("resumeId", text a.resume_id)
            ∷ ("status", text (ApplicationStatus.to_text a.status))
            ∷ ("approvedAt", instant time)
            ∷ ("applicationMethod", text (method_text a.application_method))
            ∷ [])
          time)
    build_application_view app.host profile a

  -- The switch of ApproveApplication.
  unfoldable pub approve_from :
      ApplicationStatus → String → CandidateProfile → Application → Exec ApplicationView
  unfolding ◌>>=◌ upsert_application record_approval build_application_view
  approve_from ApplicationStatus.waiting_approval actor profile a = do
    time ← now
    a ← upsert_application (approved_at_time a time)
    a ← upsert_application (requiring_action a time)
    record_approval actor profile a
  approve_from ApplicationStatus.approved actor profile a = do
    time ← now
    a ←
        upsert_application
          (requiring_action (record a { approved_at = or_time a.approved_at time }) time)
    record_approval actor profile a
  approve_from ApplicationStatus.manual_action_required actor profile a =
      build_application_view app.host profile a
  approve_from _ actor profile a = raise invalid_application_transition

  unfoldable pub approve_application : String → String → Exec ApplicationView
  unfolding ◌>>=◌ get_profile within_import_transaction get_application approve_from
  approve_application id actor = do
    profile ← get_profile
    within_import_transaction (do a ← get_application id; approve_from a.status actor profile a)

  -- The default case of CancelApplication.
  unfoldable pub cancel_now : String → CandidateProfile → Application → Exec ApplicationView
  unfolding ◌>>=◌ upsert_application create_audit_event build_application_view
  cancel_now actor profile a = do
    time ← now
    a ← upsert_application (cancelled_at_time a time)
    create_audit_event (event_for actor application_cancelled a (ids_of a) time)
    build_application_view app.host profile a

  unfoldable pub cancel_from :
      ApplicationStatus → String → CandidateProfile → Application → Exec ApplicationView
  unfolding build_application_view raise cancel_now
  cancel_from ApplicationStatus.cancelled actor profile a =
      build_application_view app.host profile a
  cancel_from ApplicationStatus.rejected actor profile a = raise invalid_application_transition
  cancel_from ApplicationStatus.submitted actor profile a = raise invalid_application_transition
  cancel_from ApplicationStatus.hr_contact actor profile a = raise invalid_application_transition
  cancel_from ApplicationStatus.interview actor profile a = raise invalid_application_transition
  cancel_from ApplicationStatus.offer actor profile a = raise invalid_application_transition
  cancel_from _ actor profile a = cancel_now actor profile a

  unfoldable pub cancel_application : String → String → Exec ApplicationView
  unfolding ◌>>=◌ get_profile within_import_transaction get_application cancel_from
  cancel_application id actor = do
    profile ← get_profile
    within_import_transaction (do a ← get_application id; cancel_from a.status actor profile a)

  -- The vacancy follows the application, if its own moves allow it.
  unfoldable pub move_vacancy : String → VacancyStatus.VacancyStatus → Exec (Unit {0})
  unfolding ◌>>=◌ get_vacancy update_vacancy_status VacancyStatus.can_transition
  move_vacancy vacancy_id status = do
    vacancy ← get_vacancy vacancy_id
    if not (VacancyStatus.can_transition vacancy.status status)
        then raise invalid_application_transition
        else update_vacancy_status vacancy.id status vacancy.duplicate_of_vacancy_id
            vacancy.dedup_reason

  unfoldable pub submit_from :
      ApplicationStatus → String → CandidateProfile → Application → Exec ApplicationView
  unfolding ◌>>=◌ upsert_application move_vacancy create_audit_event build_application_view
  submit_from ApplicationStatus.submitted actor profile a =
      build_application_view app.host profile a
  submit_from ApplicationStatus.manual_action_required actor profile a = do
    time ← now
    a ← upsert_application (submitted_at_time a time)
    move_vacancy a.vacancy_id VacancyStatus.submitted
    create_audit_event (event_for actor application_marked_submitted a (ids_of a) time)
    build_application_view app.host profile a
  submit_from _ actor profile a = raise invalid_application_transition

  unfoldable pub mark_application_submitted : String → String → Exec ApplicationView
  unfolding ◌>>=◌ get_profile within_import_transaction get_application submit_from
  mark_application_submitted id actor = do
    profile ← get_profile
    within_import_transaction (do a ← get_application id; submit_from a.status actor profile a)
