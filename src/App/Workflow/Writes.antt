-- ===== src/App/Workflow/Writes.antt =====
-- Answers of an employer and new applications keep the applications sound.
use job_scout_ai.Prelude.{
  String, ◌≡◌, refl, true, not, Option, Result, ok, err, not_found, invalid_application_transition,
  arith,
}
use job_scout_ai.Core.Types.{Application, CandidateProfile, Company, Vacancy, VacancyMatch, Time}
use job_scout_ai.Core.ApplicationStatus
use job_scout_ai.Core.ApplicationStatus.{ApplicationStatus}
use job_scout_ai.Core.Resume.{Resume}
use job_scout_ai.Core.CoverLetter.{generate}
use job_scout_ai.Store.{World}
use job_scout_ai.Store.Exec.{pure, now, new_id, ◌>>=◌, ◌>>◌}
use job_scout_ai.Store.Exec.Ends.{
  Triple, Keeps, Triple-bind, Triple-if, Triple-weaken, Keeps-bind, Keeps-raise, Keeps-lift,
}
use job_scout_ai.Store.Memory.{create_audit_event, upsert_application}
use job_scout_ai.Store.Applications.Rules.{
  Good, At, Unnamed, step-Triple, upsert-Triple, now-At, forget, new_id-Triple, Unnamed-Ready,
}
use job_scout_ai.Store.Applications.Elsewhere.{
  store_rules, now-Keeps, list_resumes-Keeps, get_company_by_id-Keeps,
}
use job_scout_ai.App.{App}
use job_scout_ai.App.View.{build_application_view, vacancy_status_for_outcome}
use job_scout_ai.App.Outcome.{
  ApplicationOutcomeRequest, with_outcome, outcome_event, apply_outcome, outcome_from,
}
use job_scout_ai.App.Prepare.{
  fresh_application, letter_input, chosen_resume, prepared_event, prepared_view, create_application,
  reuse_or_create, prepare_application_with_store,
}
use job_scout_ai.App.Workflow.Actions.{build_application_view-Keeps, move_and_log}

module _ (app : App) {start : World} where
  apply_outcome-Good :
      (req : ApplicationOutcomeRequest) (s status : ApplicationStatus) (actor : String)
      (profile : CandidateProfile) (a : Application)
      → ApplicationStatus.valid status ≡ true
      → ApplicationStatus.can_transition s status ≡ true
      → Triple
          (At start a s)
          (apply_outcome app req status actor profile a)
          (λ _. Good start)
          (Good start)
  unfolding apply_outcome with_outcome
  apply_outcome-Good req s status actor profile a valid can =
      Triple-bind (λ _. At start a s) now _ (now-At start a s)
        λ t.
          Triple-bind (λ c. At start c status) _ _
            (step-Triple start a (with_outcome req status t a) s status refl refl valid can)
            λ c. forget start c status _ (
              move_and_log app c.vacancy_id (vacancy_status_for_outcome status)
                (outcome_event actor status c t) profile c)

  pub outcome_from-Good :
      (req : ApplicationOutcomeRequest) (status : ApplicationStatus) (actor : String)
      (profile : CandidateProfile) (a : Application)
      → ApplicationStatus.valid status ≡ true
      → Triple
          (At start a a.status)
          (outcome_from app req status actor profile a)
          (λ _. Good start)
          (Good start)
  unfolding outcome_from
  outcome_from-Good req status actor profile a valid =
      Triple-if (ApplicationStatus.same a.status status) _ _
        (λ _. forget start a _ _ (build_application_view-Keeps app.host profile a))
        (λ _.
          Triple-if (not (ApplicationStatus.can_transition a.status status)) _ _
            (λ _. forget start a _ _ (Keeps-raise invalid_application_transition))
            (λ e. apply_outcome-Good req a.status status actor profile a valid (ground arith)))

  module _ (profile : CandidateProfile) (resume_id : Option String) (actor : String) where
    log_prepared :
        (vacancy : Vacancy) (match : VacancyMatch) (selected : Resume) (company : Company)
        (a : Application) (t : Time)
        → Keeps (Good start) (do
          create_audit_event (prepared_event app profile resume_id actor selected match a t)
          view ← build_application_view app.host profile a
          pure (prepared_view app profile resume_id actor vacancy match selected company view))
    log_prepared vacancy match selected company a t =
        search (store_rules, build_application_view-Keeps)

    write_fresh :
        (vacancy : Vacancy) (match : VacancyMatch) (selected : Resume) (company : Company)
        (letter id : String) (t : Time)
        → Triple
            (Unnamed start id)
            (upsert_application (fresh_application id profile vacancy selected letter t))
            (λ _. Good start)
            (Good start)
    unfolding fresh_application ApplicationStatus.valid
    write_fresh vacancy match selected company letter id t =
        Triple-weaken _
          (upsert-Triple start (fresh_application id profile vacancy selected letter t))
          (λ w u.
            Unnamed-Ready start (fresh_application id profile vacancy selected letter t) w refl u)
          (λ a w (g, e, p). g) (λ w g. g)

    create_application-Good :
        (vacancy : Vacancy) (match : VacancyMatch)
        → Keeps (Good start) (create_application app profile resume_id actor vacancy match)
    unfolding create_application
    create_application-Good vacancy match =
        Keeps-bind _ _ (list_resumes-Keeps profile.id) λ resumes.
          Keeps-bind _ _
            (Keeps-lift (chosen_resume app profile resume_id actor vacancy match resumes))
            λ selected. Keeps-bind _ _ (get_company_by_id-Keeps vacancy.company_id) λ company.
              Keeps-bind _ _ now-Keeps λ t.
                Triple-bind (Unnamed start) new_id _ (new_id-Triple start) λ id.
                  Triple-bind (λ _. Good start) _ _
                    (write_fresh vacancy match selected company
                      (generate app.host
                        (letter_input app profile resume_id actor vacancy match selected company))
                      id t)
                    λ a. log_prepared vacancy match selected company a t

    reuse_or_create-Good :
        (vacancy : Vacancy) (match : VacancyMatch) (r : Result Application)
        → Keeps (Good start) (reuse_or_create app profile resume_id actor vacancy match r)
    unfolding reuse_or_create
    reuse_or_create-Good vacancy match (ok existing) =
        build_application_view-Keeps app.host profile existing
    reuse_or_create-Good vacancy match (err not_found) = create_application-Good vacancy match
    reuse_or_create-Good vacancy match (err e) = Keeps-raise e

    pub prepare-Good :
        (vacancy_id : String)
        → Keeps (Good start) (prepare_application_with_store app profile resume_id actor vacancy_id)
    unfolding prepare_application_with_store
    prepare-Good vacancy_id = search (store_rules, reuse_or_create-Good) depth 12
