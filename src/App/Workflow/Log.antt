-- ===== src/App/Workflow/Log.antt =====
-- The audit log and the vacancies over a history of commands.
use mathlib.Core.List.{append-nil}
use job_scout_ai.Prelude.{
  arith, sym, some, lookup, true, false, not, invalid_application_transition, String, ◌≡◌, List, [],
  ◌∷◌, ◌++◌, Option, Result, ok, err, not_found,
}
use job_scout_ai.Host.{Host}
use job_scout_ai.Core.Types.{Application, CandidateProfile, AuditEvent, Vacancy, VacancyMatch}
use job_scout_ai.Core.VacancyStatus
use job_scout_ai.Core.ApplicationStatus.{ApplicationStatus}
use job_scout_ai.Store.{World}
use job_scout_ai.Store.Exec.{modify}
use job_scout_ai.Store.Exec.Ends.{
  Ends, Keeps, Triple, Triple-bind, Triple-finds, Triple-if, Triple-raise,
}
use job_scout_ai.Store.Memory.{get_vacancy, update_vacancy_status}
use job_scout_ai.Store.Vacancies.{Keyed, Moved, stay}
use job_scout_ai.Store.Log.{Logged, log_rules, move-Logged}
use job_scout_ai.App.{App, get_profile}
use job_scout_ai.App.View.{ApplicationView, build_application_view}
use job_scout_ai.App.Applications.{
  record_approval, approve_from, cancel_now, cancel_from, move_vacancy, submit_from,
}
use job_scout_ai.App.Outcome.{ApplicationOutcomeRequest, apply_outcome, outcome_from}
use job_scout_ai.App.Prepare.{create_application, reuse_or_create, prepare_application_with_store}
use job_scout_ai.App.Workflow.{Command, prepare, approve, cancel, submit, outcome, perform, history}

allowed_can :
    (a b : VacancyStatus.VacancyStatus)
    → not (VacancyStatus.can_transition a b) ≡ false
    → VacancyStatus.can_transition a b ≡ true
allowed_can a b h = ground arith

module _ {start : World} where
  get_profile-Logged : Keeps (Logged start) get_profile
  unfolding get_profile
  get_profile-Logged = search log_rules

  build_application_view-Logged :
      (h : Host) (profile : CandidateProfile) (a : Application)
      → Keeps (Logged start) (build_application_view h profile a)
  unfolding build_application_view
  build_application_view-Logged h profile a = search log_rules depth 12

module _ (app : App) (actor : String) {start : World} where
  record_approval-Logged :
      (profile : CandidateProfile) (a : Application)
      → Keeps (Logged start) (record_approval app actor profile a)
  unfolding record_approval
  record_approval-Logged profile a = search (log_rules, build_application_view-Logged)

  approve_from-Logged :
      (s : ApplicationStatus) (profile : CandidateProfile) (a : Application)
      → Keeps (Logged start) (approve_from app s actor profile a)
  unfolding approve_from
  approve_from-Logged ApplicationStatus.waiting_approval profile a =
      search (log_rules, record_approval-Logged)
  approve_from-Logged ApplicationStatus.approved profile a =
      search (log_rules, record_approval-Logged)
  approve_from-Logged ApplicationStatus.manual_action_required profile a =
      build_application_view-Logged app.host profile a
  approve_from-Logged s profile a = search log_rules

  cancel_now-Logged :
      (profile : CandidateProfile) (a : Application)
      → Keeps (Logged start) (cancel_now app actor profile a)
  unfolding cancel_now
  cancel_now-Logged profile a = search (log_rules, build_application_view-Logged)

  cancel_from-Logged :
      (s : ApplicationStatus) (profile : CandidateProfile) (a : Application)
      → Keeps (Logged start) (cancel_from app s actor profile a)
  unfolding cancel_from
  cancel_from-Logged ApplicationStatus.cancelled profile a =
      build_application_view-Logged app.host profile a
  cancel_from-Logged ApplicationStatus.rejected profile a = search log_rules
  cancel_from-Logged ApplicationStatus.submitted profile a = search log_rules
  cancel_from-Logged ApplicationStatus.hr_contact profile a = search log_rules
  cancel_from-Logged ApplicationStatus.interview profile a = search log_rules
  cancel_from-Logged ApplicationStatus.offer profile a = search log_rules
  cancel_from-Logged s profile a = search (log_rules, cancel_now-Logged)

  restored-Logged :
      (vacancy_id : String) (v : Vacancy) (status : VacancyStatus.VacancyStatus)
      → VacancyStatus.can_transition v.status status ≡ true
      → Triple
          (λ w. Logged start w × (lookup vacancy_id w.db.vacancies ≡ some v))
          (update_vacancy_status v.id status v.duplicate_of_vacancy_id v.dedup_reason)
          (λ _. Logged start)
          (Logged start)
  unfolding update_vacancy_status modify
  restored-Logged vacancy_id v status can =
      Triple-bind
        (λ u w.
          Logged start w
          × (lookup vacancy_id w.db.vacancies ≡ some v)
          × (lookup v.id w.db.vacancies ≡ some u))
        (get_vacancy v.id) _
        (Triple-finds not_found (λ db. lookup v.id db.vacancies)
          (λ u w again (l, found). (l, found, again)) (λ w (l, found). l))
        λ u. record {
          at = λ w (l, found, again).
              move-Logged vacancy_id v u status v.duplicate_of_vacancy_id v.dedup_reason can w l
                found again;
        }

  move_vacancy-Logged :
      (vacancy_id : String) (status : VacancyStatus.VacancyStatus)
      → Keeps (Logged start) (move_vacancy app vacancy_id status)
  unfolding move_vacancy
  move_vacancy-Logged vacancy_id status =
      Triple-bind (λ v w. Logged start w × (lookup vacancy_id w.db.vacancies ≡ some v))
        (get_vacancy vacancy_id) _
        (Triple-finds not_found (λ db. lookup vacancy_id db.vacancies) (λ v w found l. (l, found))
          (λ w l. l))
        λ v.
          Triple-if (not (VacancyStatus.can_transition v.status status)) _ _
            (λ refused. Triple-raise invalid_application_transition (λ w (l, found). l))
            (λ allowed. restored-Logged vacancy_id v status (allowed_can v.status status allowed))

  submit_from-Logged :
      (s : ApplicationStatus) (profile : CandidateProfile) (a : Application)
      → Keeps (Logged start) (submit_from app s actor profile a)
  unfolding submit_from
  submit_from-Logged ApplicationStatus.submitted profile a =
      build_application_view-Logged app.host profile a
  submit_from-Logged ApplicationStatus.manual_action_required profile a =
      search (log_rules, move_vacancy-Logged, build_application_view-Logged) depth 12
  submit_from-Logged s profile a = search log_rules

  outcome_from-Logged :
      (req : ApplicationOutcomeRequest) (s : ApplicationStatus) (profile : CandidateProfile)
      (a : Application)
      → Keeps (Logged start) (outcome_from app req s actor profile a)
  unfolding outcome_from apply_outcome
  outcome_from-Logged req s profile a =
      search (log_rules, move_vacancy-Logged, build_application_view-Logged) depth 14

  module _ (profile : CandidateProfile) (resume_id : Option String) where
    create_application-Logged :
        (vacancy : Vacancy) (match : VacancyMatch)
        → Keeps (Logged start) (create_application app profile resume_id actor vacancy match)
    unfolding create_application
    create_application-Logged vacancy match =
        search (log_rules, build_application_view-Logged) depth 16

    reuse_or_create-Logged :
        (vacancy : Vacancy) (match : VacancyMatch) (r : Result Application)
        → Keeps (Logged start) (reuse_or_create app profile resume_id actor vacancy match r)
    unfolding reuse_or_create
    reuse_or_create-Logged vacancy match (ok existing) =
        build_application_view-Logged app.host profile existing
    reuse_or_create-Logged vacancy match (err not_found) = create_application-Logged vacancy match
    reuse_or_create-Logged vacancy match (err e) = search log_rules

    prepare-Logged :
        (vacancy_id : String)
        → Keeps
            (Logged start)
            (prepare_application_with_store app profile resume_id actor vacancy_id)
    unfolding prepare_application_with_store
    prepare-Logged vacancy_id = search (log_rules, reuse_or_create-Logged) depth 12

  perform-Logged : (c : Command) → Keeps (Logged start) (perform app actor c)
  unfolding perform
  perform-Logged (prepare vacancy_id resume_id) =
      search (log_rules, get_profile-Logged, prepare-Logged) depth 12
  perform-Logged (approve id) = search (log_rules, get_profile-Logged, approve_from-Logged) depth 12
  perform-Logged (cancel id) = search (log_rules, get_profile-Logged, cancel_from-Logged) depth 12
  perform-Logged (submit id) = search (log_rules, get_profile-Logged, submit_from-Logged) depth 12
  perform-Logged (outcome id req) =
      search (log_rules, get_profile-Logged, outcome_from-Logged) depth 12

either_way :
    (start : World) (r : Result ApplicationView) (w : World)
    → Ends (Logged start) (λ _. Logged start) (r, w)
    → Logged start w
either_way start (ok v) w l = l
either_way start (err e) w l = l

history-Logged :
    (app : App) (start : World) (cs : List (String × Command)) (w : World)
    → Logged start w
    → Logged start (history app cs w)
unfolding history
history-Logged app start [] w l = l
history-Logged app start ((actor, c) ∷ cs) w l =
    let (r, w') = perform app actor c w in
    history-Logged app start cs w' (either_way start r w' ((perform-Logged app actor c).at w l))

unmoved : (w : World) → Logged w w
unmoved w = record {
  later = [];
  log = sym (append-nil w.db.audit_events);
  moved = λ keyed. (keyed, λ i v found. (v, found, stay));
}

-- No history of commands loses a vacancy, each vacancy stays stored under its own identifier, and its
-- status is where moves that vacancyTransitions permits lead from the status it had at the beginning,
-- provided every vacancy was stored under its own identifier then.
pub history-Moved :
    (app : App) (cs : List (String × Command)) (w : World)
    → Keyed w.db.vacancies
    → Keyed (history app cs w).db.vacancies × Moved w.db.vacancies (history app cs w).db.vacancies
history-Moved app cs w keyed = (history-Logged app w cs w (unmoved w)).moved keyed

-- The audit log is append-only: after any history of commands, whether they succeed or fail and whether
-- the storage rolls back or not, it is the log of the beginning followed by later events.
pub history-append :
    (app : App) (cs : List (String × Command)) (w : World)
    → (later : List AuditEvent) × ((history app cs w).db.audit_events ≡ w.db.audit_events ++ later)
history-append app cs w = let l = history-Logged app w cs w (unmoved w) in (l.later, l.log)
