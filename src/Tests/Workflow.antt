-- ===== src/Tests/Workflow.antt =====
-- The workflow theorems at work in the small world.
use job_scout_ai.Prelude.{
  insert, Bool, false, Bool-cases, inl, inr, ap, sym, ◌∙◌, eq_iff, ◌==◌, ◌++◌, Option, none, some,
  lookup, invalid_application_transition,
}
use job_scout_ai.Store.{World}
use job_scout_ai.Core.Types.{Application, AuditEvent}
use job_scout_ai.App.Workflow.{perform}
use job_scout_ai.App.Workflow.Log.{history-append, history-Moved}
use job_scout_ai.Store.Vacancies.{Keyed, Moved}
use job_scout_ai.App.Vacancies.{change_vacancy_status}
use job_scout_ai.App.Vacancies.Change.{change_vacancy_status-moved}
use job_scout_ai.App.Workflow.Atomic.{perform_failed}
use job_scout_ai.Tests.Fixtures.{vacancy, application, db}
use job_scout_ai.Prelude.{String, ◌≡◌, refl, [], ◌∷◌, List, true}
use job_scout_ai.Core.VacancyStatus
use job_scout_ai.Core.ApplicationStatus
use job_scout_ai.Store.Applications.{Sound, Follows}
use job_scout_ai.App.View.{vacancy_status_for_outcome, is_outcome_status}
use job_scout_ai.App.Applications.Mirror.{Mirrors, sent, outcome-Mirrors}
use job_scout_ai.App.Workflow.{Command, approve, submit, outcome, history}
use job_scout_ai.App.Workflow.Sound.{history-Sound, history-Follows}
use job_scout_ai.Tests.Fixtures.{app, world, world-Sound, world-Fresh}

-- The owner approves and submits, and an employer invites.
abbrev commands : List (String × Command)
commands =
    ("owner", approve "application")
    ∷ ("owner", submit "application")
    ∷ (
      "owner",
      outcome "application"
          (record { status = "INTERVIEW"; rejection_reason = ""; notes = "on Monday" }),
    )
    ∷ []

history-Sound_example : Sound (history app commands world).db.applications
history-Sound_example = history-Sound app commands world world-Sound world-Fresh

history-Follows_example : Follows world.db.applications (history app commands world).db.applications
history-Follows_example = history-Follows app commands world world-Sound world-Fresh

outcome-Mirrors_example :
    (VacancyStatus.can_transition VacancyStatus.submitted
        (vacancy_status_for_outcome ApplicationStatus.interview)
      ≡ true)
    × Mirrors ApplicationStatus.interview (vacancy_status_for_outcome ApplicationStatus.interview)
unfolding is_outcome_status ApplicationStatus.can_transition
outcome-Mirrors_example =
    outcome-Mirrors ApplicationStatus.submitted ApplicationStatus.interview VacancyStatus.submitted
      sent refl refl

world-Keyed : Keyed world.db.vacancies
unfolding lookup
world-Keyed i v e = elim (Bool-cases ("vacancy" == i)) [
  | inl y ↦
      let p : vacancy ≡ v = cc (rw y at e) in ap (λ z. z.id) (sym p) ∙ (eq_iff "vacancy" i).0 y
  | inr n ↦ absurd (cc (rw n at e))
]

history-Moved_example :
    Keyed (history app commands world).db.vacancies
    × Moved world.db.vacancies (history app commands world).db.vacancies
history-Moved_example = history-Moved app commands world world-Keyed

-- The vacancy is archived by hand.
change_vacancy_status-moved_example :
    (change_vacancy_status "vacancy" VacancyStatus.archived world).1.db
    ≡ record db { vacancies = ("vacancy", record vacancy { status = VacancyStatus.archived }) ∷ [] }
unfolding lookup insert VacancyStatus.valid VacancyStatus.can_transition
change_vacancy_status-moved_example =
    change_vacancy_status-moved "vacancy" VacancyStatus.archived world

history-append_example :
    (later : List AuditEvent) × ((history app commands world).db.audit_events
      ≡ world.db.audit_events ++ later)
history-append_example = history-append app commands world

-- The application is ready to be submitted, and its vacancy was filtered out by a later import.
abbrev stuck : Bool → World
stuck rolls_back = record world {
  rolls_back = rolls_back;
  db = record db {
    vacancies = ("vacancy", record vacancy { status = VacancyStatus.filtered_out }) ∷ [];
    applications =
        ("application", record application { status = ApplicationStatus.manual_action_required })
        ∷ [];
  };
}

abbrev failed : Bool → World
unfolding perform app
failed rolls_back = (perform app "owner" (submit "application") (stuck rolls_back)).1

perform_failed_example : (failed true).db ≡ (stuck true).db
unfolding perform app
perform_failed_example =
    perform_failed app "owner" (submit "application") (stuck true) (failed true)
      invalid_application_transition refl refl

-- On the store in memory the failed call leaves the application submitted.
abbrev status_in : Option Application → ApplicationStatus.ApplicationStatus
status_in none = ApplicationStatus.other ""
status_in (some a) = a.status

partly_submitted :
    status_in (lookup "application" (failed false).db.applications) ≡ ApplicationStatus.submitted
unfolding perform lookup app
partly_submitted = refl
