-- ===== src/App/Workflow/Actions.antt =====
-- Each action of the service keeps the applications sound and moves them only as permitted.
use job_scout_ai.Prelude.{String, ◌≡◌, refl, true, invalid_application_transition}
use job_scout_ai.Host.{Host}
use job_scout_ai.Core.Types.{
  Application, CandidateProfile, AuditEvent, application_cancelled, application_marked_submitted,
}
use job_scout_ai.Core.VacancyStatus
use job_scout_ai.Core.ApplicationStatus
use job_scout_ai.Core.ApplicationStatus.{ApplicationStatus}
use job_scout_ai.Store.{World}
use job_scout_ai.Store.Exec.{Exec, raise, now, ◌>>◌}
use job_scout_ai.Store.Exec.Ends.{Triple, Keeps, Triple-bind, Keeps-bind, Keeps-raise}
use job_scout_ai.Store.Memory.{create_audit_event}
use job_scout_ai.Store.Applications.Rules.{Good, At, step-Triple, now-At, forget}
use job_scout_ai.Store.Applications.Elsewhere.{store_rules}
use job_scout_ai.App.{App, get_profile}
use job_scout_ai.App.View.{ApplicationView, build_application_view, event_for}
use job_scout_ai.App.Applications.{
  record_approval, approve_from, cancel_now, cancel_from, move_vacancy, submit_from,
  approved_at_time, requiring_action, cancelled_at_time, submitted_at_time, or_time, ids_of,
}

module _ {start : World} where
  pub build_application_view-Keeps :
      (h : Host) (profile : CandidateProfile) (a : Application)
      → Keeps (Good start) (build_application_view h profile a)
  unfolding build_application_view
  build_application_view-Keeps h profile a = search store_rules depth 12

  pub get_profile-Keeps : Keeps (Good start) get_profile
  unfolding get_profile
  get_profile-Keeps = search store_rules

module _ (app : App) {start : World} where
  record_approval-Keeps :
      (actor : String) (profile : CandidateProfile) (a : Application)
      → Keeps (Good start) (record_approval app actor profile a)
  unfolding record_approval
  record_approval-Keeps actor profile a = search (store_rules, build_application_view-Keeps)

  move_vacancy-Keeps :
      (vacancy_id : String) (status : VacancyStatus.VacancyStatus)
      → Keeps (Good start) (move_vacancy app vacancy_id status)
  unfolding move_vacancy
  move_vacancy-Keeps vacancy_id status = search store_rules

  pub log_and_view :
      (e : AuditEvent) (profile : CandidateProfile) (a : Application)
      → Keeps (Good start) (create_audit_event e >> build_application_view app.host profile a)
  log_and_view e profile a = search (store_rules, build_application_view-Keeps)

  pub move_and_log :
      (vacancy_id : String) (status : VacancyStatus.VacancyStatus) (e : AuditEvent)
      (profile : CandidateProfile) (a : Application)
      → Keeps (Good start) (
          move_vacancy app vacancy_id status
          >> (create_audit_event e >> build_application_view app.host profile a))
  move_and_log vacancy_id status e profile a =
      Keeps-bind _ _ (move_vacancy-Keeps vacancy_id status) λ _. log_and_view e profile a

  refuse :
      (a : Application) (s : ApplicationStatus)
      → Triple
          (At start a s)
          (raise {A = ApplicationView} invalid_application_transition)
          (λ _. Good start)
          (Good start)
  refuse a s = forget start a s _ (Keeps-raise invalid_application_transition)

  view :
      (profile : CandidateProfile) (a : Application) (s : ApplicationStatus)
      → Triple
          (At start a s)
          (build_application_view app.host profile a)
          (λ _. Good start)
          (Good start)
  view profile a s = forget start a s _ (build_application_view-Keeps app.host profile a)

  pub approve_from-Good :
      (s : ApplicationStatus) (actor : String) (profile : CandidateProfile) (a : Application)
      → Triple (At start a s) (approve_from app s actor profile a) (λ _. Good start) (Good start)
  unfolding approve_from ApplicationStatus.can_transition ApplicationStatus.valid
  approve_from-Good ApplicationStatus.waiting_approval actor profile a =
      Triple-bind (λ _. At start a ApplicationStatus.waiting_approval) now _ (now-At start a _)
        λ t.
          Triple-bind (λ b. At start b ApplicationStatus.approved) _ _
            (step-Triple start a (approved_at_time a t) _ _ refl refl refl refl)
            λ b.
              Triple-bind (λ c. At start c ApplicationStatus.manual_action_required) _ _
                (step-Triple start b (requiring_action b t) _ _ refl refl refl refl)
                λ c. forget start c _ _ (record_approval-Keeps actor profile c)
  approve_from-Good ApplicationStatus.approved actor profile a =
      Triple-bind (λ _. At start a ApplicationStatus.approved) now _ (now-At start a _)
        λ t.
          Triple-bind (λ c. At start c ApplicationStatus.manual_action_required) _ _
            (step-Triple start a
              (requiring_action (record a { approved_at = or_time a.approved_at t }) t) _ _ refl
              refl refl refl)
            λ c. forget start c _ _ (record_approval-Keeps actor profile c)
  approve_from-Good ApplicationStatus.manual_action_required actor profile a = view profile a _
  approve_from-Good s actor profile a = refuse a s

  cancel_now-Good :
      (s : ApplicationStatus) (actor : String) (profile : CandidateProfile) (a : Application)
      → ApplicationStatus.can_transition s ApplicationStatus.cancelled ≡ true
      → Triple (At start a s) (cancel_now app actor profile a) (λ _. Good start) (Good start)
  unfolding cancel_now ApplicationStatus.valid
  cancel_now-Good s actor profile a can =
      Triple-bind (λ _. At start a s) now _ (now-At start a s)
        λ t.
          Triple-bind (λ c. At start c ApplicationStatus.cancelled) _ _
            (step-Triple start a (cancelled_at_time a t) s _ refl refl refl can)
            λ c.
              forget start c _ _
                (log_and_view (event_for actor application_cancelled c (ids_of c) t) profile c)

  undeclared :
      {A : Type 0} (a : Application) (text : String) (m : Exec A)
      → Triple (At start a (ApplicationStatus.other text)) m (λ _. Good start) (Good start)
  unfolding ApplicationStatus.valid
  undeclared a text m = record { at = λ w (g, e, p). absurd (cc (g.sound.declared a.id a e)) }

  pub cancel_from-Good :
      (s : ApplicationStatus) (actor : String) (profile : CandidateProfile) (a : Application)
      → Triple (At start a s) (cancel_from app s actor profile a) (λ _. Good start) (Good start)
  unfolding cancel_from ApplicationStatus.can_transition
  cancel_from-Good ApplicationStatus.cancelled actor profile a = view profile a _
  cancel_from-Good ApplicationStatus.rejected actor profile a = refuse a _
  cancel_from-Good ApplicationStatus.submitted actor profile a = refuse a _
  cancel_from-Good ApplicationStatus.hr_contact actor profile a = refuse a _
  cancel_from-Good ApplicationStatus.interview actor profile a = refuse a _
  cancel_from-Good ApplicationStatus.offer actor profile a = refuse a _
  cancel_from-Good (ApplicationStatus.other text) actor profile a = undeclared a text _
  cancel_from-Good s actor profile a = cancel_now-Good s actor profile a refl

  pub submit_from-Good :
      (s : ApplicationStatus) (actor : String) (profile : CandidateProfile) (a : Application)
      → Triple (At start a s) (submit_from app s actor profile a) (λ _. Good start) (Good start)
  unfolding submit_from ApplicationStatus.can_transition ApplicationStatus.valid
  submit_from-Good ApplicationStatus.submitted actor profile a = view profile a _
  submit_from-Good ApplicationStatus.manual_action_required actor profile a =
      Triple-bind (λ _. At start a ApplicationStatus.manual_action_required) now _
        (now-At start a _)
        λ t.
          Triple-bind (λ c. At start c ApplicationStatus.submitted) _ _
            (step-Triple start a (submitted_at_time a t) _ _ refl refl refl refl)
            λ c. forget start c _ _ (
              move_and_log c.vacancy_id VacancyStatus.submitted
                (event_for actor application_marked_submitted c (ids_of c) t) profile c)
  submit_from-Good s actor profile a = refuse a s
