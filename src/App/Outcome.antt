-- ===== src/App/Outcome.antt =====
-- UpdateApplicationOutcome of internal/app/applications.go: what an employer answered.
use job_scout_ai.Prelude.{
  String, [], ◌∷◌, not, ◌&&◌, some, if◌then◌else◌, invalid_application_transition,
}
use job_scout_ai.Strings.{trim_space}
use job_scout_ai.Core.Types.{CandidateProfile, Application, AuditEvent, text, Time}
use job_scout_ai.Core.ApplicationStatus
use job_scout_ai.Core.ApplicationStatus.{ApplicationStatus}
use job_scout_ai.Core.Resume.{is_blank}
use job_scout_ai.Store.Exec.{Exec, raise, lift, now, within_import_transaction, ◌>>=◌, ◌>>◌}
use job_scout_ai.Store.Memory.{get_application, upsert_application, create_audit_event}
use job_scout_ai.App.{App, get_profile}
use job_scout_ai.App.View.{
  ApplicationView, build_application_view, is_outcome_status, vacancy_status_for_outcome,
  audit_action_for_outcome, event_for,
}
use job_scout_ai.App.Applications.{move_vacancy}

pub record ApplicationOutcomeRequest : Type 0 where
  pub status : String
  pub rejection_reason : String
  pub notes : String

-- The application as the request leaves it.
unfoldable pub with_outcome :
    ApplicationOutcomeRequest → ApplicationStatus → Time → Application → Application
unfolding trim_space ApplicationStatus.same
with_outcome req status time a = record a {
  status = status;
  response_received_at = some time;
  updated_at = time;
  rejection_reason =
      if ApplicationStatus.same status ApplicationStatus.rejected
        && not (is_blank req.rejection_reason)
      then trim_space req.rejection_reason
      else a.rejection_reason;
  notes = if is_blank req.notes then a.notes else trim_space req.notes;
}

abbrev pub outcome_event : String → ApplicationStatus → Application → Time → AuditEvent
outcome_event actor status a time =
    event_for actor (audit_action_for_outcome status) a
      (("vacancyId", text a.vacancy_id)
        ∷ ("resumeId", text a.resume_id)
        ∷ ("status", text (ApplicationStatus.to_text status))
        ∷ [])
      time

module _ (app : App) (req : ApplicationOutcomeRequest) where
  unfoldable pub apply_outcome :
      ApplicationStatus → String → CandidateProfile → Application → Exec ApplicationView
  unfolding ◌>>=◌ with_outcome upsert_application move_vacancy create_audit_event
      build_application_view vacancy_status_for_outcome audit_action_for_outcome
      ApplicationStatus.to_text
  apply_outcome status actor profile a = do
    time ← now
    a ← upsert_application (with_outcome req status time a)
    move_vacancy app a.vacancy_id (vacancy_status_for_outcome status)
    create_audit_event (outcome_event actor status a time)
    build_application_view app.host profile a

  unfoldable pub outcome_from :
      ApplicationStatus → String → CandidateProfile → Application → Exec ApplicationView
  unfolding ◌>>=◌ build_application_view apply_outcome ApplicationStatus.same
      ApplicationStatus.can_transition
  outcome_from status actor profile a =
      if ApplicationStatus.same a.status status
      then build_application_view app.host profile a
      else if not (ApplicationStatus.can_transition a.status status)
      then raise invalid_application_transition
      else apply_outcome status actor profile a

  unfoldable pub update_application_outcome : String → String → Exec ApplicationView
  unfolding ◌>>=◌ get_profile trim_space ApplicationStatus.parse is_outcome_status
      within_import_transaction get_application outcome_from
  update_application_outcome id actor = do
    profile ← get_profile
    status ← lift (ApplicationStatus.parse (trim_space req.status))
    if not (is_outcome_status status)
        then raise invalid_application_transition
        else within_import_transaction
            (do a ← get_application id; outcome_from status actor profile a)
