-- ===== src/App/Workflow.antt =====
-- internal/app/applications.go: the five commands on applications as one data type, and histories of them.
pub mod Actions
pub mod Writes
pub mod Sound
pub mod Service
pub mod Atomic
pub mod Log
use job_scout_ai.Prelude.{String, List, [], ◌∷◌, Option, Result}
use job_scout_ai.Store.{World}
use job_scout_ai.Store.Exec.{Exec}
use job_scout_ai.App.{App}
use job_scout_ai.App.View.{ApplicationView}
use job_scout_ai.App.Applications.{
  approve_application, cancel_application, mark_application_submitted,
}
use job_scout_ai.App.Outcome.{ApplicationOutcomeRequest, update_application_outcome}
use job_scout_ai.App.Prepare.{prepare_application}

pub data Command : Type 0 where
  prepare : (vacancy_id : String) → (resume_id : Option String) → Command
  approve cancel submit : (id : String) → Command
  outcome : (id : String) → ApplicationOutcomeRequest → Command

unfoldable pub perform : App → String → Command → Exec ApplicationView
unfolding prepare_application approve_application cancel_application mark_application_submitted
    update_application_outcome
perform app actor (prepare vacancy_id resume_id) =
    prepare_application app vacancy_id resume_id actor
perform app actor (approve id) = approve_application app id actor
perform app actor (cancel id) = cancel_application app id actor
perform app actor (submit id) = mark_application_submitted app id actor
perform app actor (outcome id req) = update_application_outcome app req id actor

-- The world after a history of commands, each by its actor, whether they succeed or fail.
unfoldable pub history : App → List (String × Command) → World → World
unfolding perform
history app [] w = w
history app ((actor, c) ∷ cs) w = history app cs (perform app actor c w).1
