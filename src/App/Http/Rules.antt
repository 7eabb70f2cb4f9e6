-- ===== src/App/Http/Rules.antt =====
-- internal/app/http.go: the steps of a handler, and what the methods behind it keep.
use job_scout_ai.Prelude.{String, refl, sym, Option, Result, ok, err, Error, panicked}
use job_scout_ai.Store.{World}
use job_scout_ai.Store.Exec.{Exec}
use job_scout_ai.Store.Exec.Ends.{Ends, Keeps, keeps_rules}
use job_scout_ai.Store.Applications.Rules.{Good}
use job_scout_ai.App.{App, get_profile}
use job_scout_ai.App.Vacancies.{vacancies_page, recommended_page, get_vacancy_with_match}
use job_scout_ai.App.Resumes.{profile_resumes}
use job_scout_ai.Store.Memory.{get_resume}
use job_scout_ai.App.Applications.{list_application_views, get_application_view}
use job_scout_ai.App.Applications.{
  approve_application, cancel_application, mark_application_submitted,
}
use job_scout_ai.App.Outcome.{ApplicationOutcomeRequest, update_application_outcome}
use job_scout_ai.App.Prepare.{prepare_application}
use job_scout_ai.App.Workflow.{prepare, approve, cancel, submit, outcome, perform}
use job_scout_ai.App.Workflow.Sound.{perform-Good}
use job_scout_ai.App.Workflow.Service.{
  run_search-Keeps, import_manual-Keeps, save_profile-Keeps, create_resume-Keeps,
  update_resume-Keeps, change_status-Keeps,
}
use job_scout_ai.App.Http.{
  Response, Read, decoded, empty_body, refused, with_body, with_body_or, answer, respond,
}
use job_scout_ai.App.Http.Reads.{
  Same, get_profile-Same, get_vacancy-Same, vacancies_page-Same, recommended_page-Same,
  profile_resumes-Same, get_resume-Same, list_views-Same, get_view-Same,
}
use mathlib.Core.Path.{subst}

module _ {A : Type 0} (P : World → Type 0) where
  same_end :
      (w : World) (r : Result A) (w' : World)
      → Ends (Same w) (λ _. Same w) (r, w')
      → P w
      → Ends P (λ _. P) (r, w')
  same_end w (ok a) w' h p = subst P (sym h.is) p
  same_end w (err e) w' h p = subst P (sym h.is) p

  -- What changes nothing keeps everything.
  read_only : (m : Exec A) → ((s : World) → Keeps (Same s) m) → Keeps P m
  read_only m k = record {
    at = λ w p. let (r, w') = m w in same_end w r w' ((k w).at w (record { is = refl })) p;
  }

  answer_end :
      (good : A → Response) (bad : Error → Response) (r : Result A) (w : World)
      → Ends P (λ _. P) (r, w)
      → Ends P (λ _. P) (answer good bad r, w)
  answer_end good bad (ok a) w p = p
  answer_end good bad (err (panicked t)) w p = p
  answer_end good bad (err e) w p = p

  pub respond_keeps :
      (m : Exec A) (good : A → Response) (bad : Error → Response)
      → Keeps P m
      → Keeps P (respond m good bad)
  unfolding respond
  respond_keeps m good bad k = record {
    at = λ w p. let (r, w') = m w in answer_end good bad r w' (k.at w p);
  }

  pub with_body_keeps :
      (read : Read A) (f : A → Exec Response)
      → ((a : A) → Keeps P (f a))
      → Keeps P (with_body read f)
  unfolding with_body
  with_body_keeps (decoded a) f k = k a
  with_body_keeps empty_body f k = search keeps_rules
  with_body_keeps (refused e) f k = search keeps_rules

  pub with_body_or_keeps :
      (default : A) (read : Read A) (f : A → Exec Response)
      → ((a : A) → Keeps P (f a))
      → Keeps P (with_body_or default read f)
  unfolding with_body_or
  with_body_or_keeps default (decoded a) f k = k a
  with_body_or_keeps default empty_body f k = k default
  with_body_or_keeps default (refused e) f k = search keeps_rules

-- The commands on applications.
module _ (app : App) {start : World} where
  pub prepare-Good :
      (id : String) (resume_id : Option String) (actor : String)
      → Keeps (Good start) (prepare_application app id resume_id actor)
  unfolding perform
  prepare-Good id resume_id actor = perform-Good app actor start (prepare id resume_id)

  pub approve-Good : (id actor : String) → Keeps (Good start) (approve_application app id actor)
  unfolding perform
  approve-Good id actor = perform-Good app actor start (approve id)

  pub cancel-Good : (id actor : String) → Keeps (Good start) (cancel_application app id actor)
  unfolding perform
  cancel-Good id actor = perform-Good app actor start (cancel id)

  pub submit-Good :
      (id actor : String) → Keeps (Good start) (mark_application_submitted app id actor)
  unfolding perform
  submit-Good id actor = perform-Good app actor start (submit id)

  pub outcome-Good :
      (req : ApplicationOutcomeRequest) (id actor : String)
      → Keeps (Good start) (update_application_outcome app req id actor)
  unfolding perform
  outcome-Good req id actor = perform-Good app actor start (outcome id req)

  pub ruleset command_rules = (
    prepare-Good, approve-Good, cancel-Good, submit-Good, outcome-Good, run_search-Keeps,
    import_manual-Keeps, save_profile-Keeps, create_resume-Keeps, update_resume-Keeps,
    change_status-Keeps,
  )

-- The reads of the service.
module _ {P : World → Type 0} where
  pub get_profile-Reads : Keeps P get_profile
  get_profile-Reads = read_only P get_profile λ s. get_profile-Same

  pub get_vacancy-Reads : (id : String) → Keeps P (get_vacancy_with_match id)
  get_vacancy-Reads id = read_only P (get_vacancy_with_match id) λ s. get_vacancy-Same id

  pub vacancies_page-Reads :
      (page per_page : _) (status : _) → Keeps P (vacancies_page page per_page status)
  vacancies_page-Reads page per_page status =
      read_only P (vacancies_page page per_page status)
        λ s. vacancies_page-Same page per_page status

  pub recommended_page-Reads :
      (app : App) (page per_page : _) → Keeps P (recommended_page app page per_page)
  recommended_page-Reads app page per_page =
      read_only P (recommended_page app page per_page) λ s. recommended_page-Same app page per_page

  pub profile_resumes-Reads : Keeps P profile_resumes
  profile_resumes-Reads = read_only P profile_resumes λ s. profile_resumes-Same

  pub get_resume-Reads : (id : String) → Keeps P (get_resume id)
  get_resume-Reads id = read_only P (get_resume id) λ s. get_resume-Same id

  pub list_views-Reads : (app : App) → Keeps P (list_application_views app)
  list_views-Reads app = read_only P (list_application_views app) λ s. list_views-Same app

  pub get_view-Reads : (app : App) (id : String) → Keeps P (get_application_view app id)
  get_view-Reads app id = read_only P (get_application_view app id) λ s. get_view-Same app id

pub ruleset read_rules = (
  keeps_rules, get_profile-Reads, get_vacancy-Reads, vacancies_page-Reads, recommended_page-Reads,
  profile_resumes-Reads, get_resume-Reads, list_views-Reads, get_view-Reads,
)
