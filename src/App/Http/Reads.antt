-- ===== src/App/Http/Reads.antt =====
-- internal/app/http.go and http_resumes_applications.go: a GET request reads, and every request is answered.
use job_scout_ai.Prelude.{
  String, ◌≡◌, refl, ap, ◌∙◌, false, not, List, Option, Result, ok, err, Error, panicked, ◌==◌,
  if◌then◌else◌, [], ◌∷◌,
}
use job_scout_ai.Core.Types.{CandidateProfile, Application}
use job_scout_ai.Core.VacancyStatus.{VacancyStatus}
use job_scout_ai.Store.{World}
use job_scout_ai.Store.Exec.{Exec, pure}
use job_scout_ai.Store.Exec.Ends.{Ends, Keeps, Keeps-if, Keeps-pure, Keeps-bind, keeps_rules}
use job_scout_ai.Store.Memory.{
  get_candidate_profile, get_vacancy, get_company_by_id, get_vacancy_match, get_resume,
  get_application,
}
use job_scout_ai.Store.Lists.{
  list_vacancies, list_recommended_vacancies, list_resumes, list_applications,
}
use job_scout_ai.Host.{Host}
use job_scout_ai.App.{App, get_profile}
use job_scout_ai.App.View.{build_application_view}
use job_scout_ai.App.Vacancies.{get_vacancy_with_match, vacancies_page, recommended_page}
use job_scout_ai.App.Resumes.{profile_resumes}
use job_scout_ai.App.Applications.{views_of, list_application_views, get_application_view}
use job_scout_ai.App.Http.{Request, Decoders, Response, respond, answer}
use job_scout_ai.App.Http.Vacancies.{
  handle_health, handle_profile, handle_search, handle_recommended_vacancies, handle_vacancies,
  handle_import_vacancy, handle_get_vacancy, handle_vacancy_status, listed,
}
use job_scout_ai.App.Http.Applications.{
  handle_resumes, handle_resume, handle_resume_by_id, handle_applications, handle_application,
  handle_application_by_id, handle_prepare_application, handle_command, handle_approve_application,
  handle_cancel_application, handle_mark_application_submitted, handle_update_application_outcome,
  handle_get_application,
}
use job_scout_ai.App.Http.Router.{handle_vacancy, handle_vacancy_by_id, routed, serve}

-- The world is this one.
pub record Same (start w : World) : Type 0 where
  pub is : w ≡ start

answer-Same :
    {A : Type 0} (start : World) (good : A → Response) (bad : Error → Response) (r : Result A)
    (w : World)
    → Ends (Same start) (λ _. Same start) (r, w)
    → Ends (Same start) (λ _. Same start) (answer good bad r, w)
answer-Same start good bad (ok a) w s = s
answer-Same start good bad (err (panicked t)) w s = s
answer-Same start good bad (err e) w s = s

-- The methods of the service that a GET request calls.
module _ {start : World} where
  pub get_profile-Same : Keeps (Same start) get_profile
  unfolding get_profile get_candidate_profile
  get_profile-Same = search keeps_rules depth 10

  pub get_vacancy-Same : (id : String) → Keeps (Same start) (get_vacancy_with_match id)
  unfolding get_vacancy_with_match get_vacancy get_company_by_id get_vacancy_match
  get_vacancy-Same id = search keeps_rules depth 12

  pub vacancies_page-Same :
      (page per_page : _) (status : _) → Keeps (Same start) (vacancies_page page per_page status)
  unfolding vacancies_page list_vacancies
  vacancies_page-Same page per_page status = search keeps_rules depth 10

  pub recommended_page-Same :
      (app : App) (page per_page : _) → Keeps (Same start) (recommended_page app page per_page)
  unfolding recommended_page list_recommended_vacancies list_vacancies
  recommended_page-Same app page per_page = search keeps_rules depth 10

  pub profile_resumes-Same : Keeps (Same start) profile_resumes
  unfolding profile_resumes list_resumes
  profile_resumes-Same = search (keeps_rules, get_profile-Same) depth 10

  pub get_resume-Same : (id : String) → Keeps (Same start) (get_resume id)
  unfolding get_resume
  get_resume-Same id = search keeps_rules

  view-Same :
      (h : Host) (profile : CandidateProfile) (a : Application)
      → Keeps (Same start) (build_application_view h profile a)
  unfolding build_application_view get_vacancy get_company_by_id get_vacancy_match
  view-Same h profile a = search keeps_rules depth 12

  views_of-Same :
      (h : Host) (profile : CandidateProfile) (items : List Application)
      → Keeps (Same start) (views_of h profile items)
  unfolding views_of
  views_of-Same h profile [] = search keeps_rules
  views_of-Same h profile (a ∷ items) =
      Keeps-bind _ _ (view-Same h profile a)
        λ v. Keeps-bind _ _ (views_of-Same h profile items) λ vs. Keeps-pure _

  pub list_views-Same : (app : App) → Keeps (Same start) (list_application_views app)
  unfolding list_application_views list_applications
  list_views-Same app = search (keeps_rules, get_profile-Same, views_of-Same) depth 10

  pub get_view-Same : (app : App) (id : String) → Keeps (Same start) (get_application_view app id)
  unfolding get_application_view get_application
  get_view-Same app id = search (keeps_rules, get_profile-Same, view-Same) depth 10

  ruleset reads = (
    keeps_rules, get_profile-Same, get_vacancy-Same, vacancies_page-Same, recommended_page-Same,
    profile_resumes-Same, get_resume-Same, list_views-Same, get_view-Same,
  )

  respond-Same :
      {A : Type 0} (m : Exec A) (good : A → Response) (bad : Error → Response)
      → Keeps (Same start) m
      → Keeps (Same start) (respond m good bad)
  unfolding respond
  respond-Same m good bad k = record {
    at = λ w s. let (r, w') = m w in answer-Same start good bad r w' (k.at w s);
  }

module _ (app : App) (json : Decoders) (r : Request) (start : World) (get : r.method ≡ "GET") where
  differs : (s : String) → "GET" == s ≡ false → r.method == s ≡ false
  differs s h = ap (λ m. m == s) get ∙ h

  -- A handler for another method answers 405.
  other_method :
      (s : String) (refusal : Response) (m : Exec Response)
      → "GET" == s ≡ false
      → Keeps (Same start) (if not (r.method == s) then pure refusal else m)
  other_method s refusal m h = rw (differs s h) (Keeps-pure refusal)

  post_only :
      (refusal : Response) (m : Exec Response)
      → Keeps (Same start) (if not (r.method == "POST") then pure refusal else m)
  post_only refusal m = other_method "POST" refusal m refl

  patch_only :
      (refusal : Response) (m : Exec Response)
      → Keeps (Same start) (if not (r.method == "PATCH") then pure refusal else m)
  patch_only refusal m = other_method "PATCH" refusal m refl

  -- A handler that tells the methods apart takes the branch for GET.
  get_first :
      (m n : Exec Response)
      → Keeps (Same start) m
      → Keeps (Same start) (if r.method == "GET" then m else n)
  get_first m n k = rw (ap (λ s. s == "GET") get) k

  profile-Same : Keeps (Same start) (handle_profile app json r)
  unfolding handle_profile
  profile-Same = search (get_first, respond-Same, reads)

  search-Same : Keeps (Same start) (handle_search app json r)
  unfolding handle_search
  search-Same = search post_only

  recommended-Same : Keeps (Same start) (handle_recommended_vacancies app json r)
  unfolding handle_recommended_vacancies
  recommended-Same = search (respond-Same, reads)

  listed-Same : (s : Result (Option VacancyStatus)) → Keeps (Same start) (listed app json r s)
  unfolding listed
  listed-Same (ok s) = search (respond-Same, reads)
  listed-Same (err e) = search reads

  vacancies-Same : Keeps (Same start) (handle_vacancies app json r)
  unfolding handle_vacancies
  vacancies-Same = search (reads, listed-Same)

  import-Same : Keeps (Same start) (handle_import_vacancy app json r)
  unfolding handle_import_vacancy
  import-Same = search post_only

  vacancy-Same : (path : String) → Keeps (Same start) (handle_vacancy app json r path)
  unfolding handle_vacancy handle_prepare_application handle_vacancy_status handle_get_vacancy
  vacancy-Same path = search (post_only, patch_only, respond-Same, reads) depth 12

  resumes-Same : Keeps (Same start) (handle_resumes app json r)
  unfolding handle_resumes
  resumes-Same = search (get_first, respond-Same, reads)

  resume-Same : (id : String) → Keeps (Same start) (handle_resume app json r id)
  unfolding handle_resume
  resume-Same id = search (get_first, respond-Same, reads) depth 10

  applications-Same : Keeps (Same start) (handle_applications app json r)
  unfolding handle_applications
  applications-Same = search (respond-Same, reads)

  application-Same : (path : String) → Keeps (Same start) (handle_application app json r path)
  unfolding handle_application handle_approve_application handle_cancel_application
      handle_mark_application_submitted handle_command handle_update_application_outcome
      handle_get_application
  application-Same path = search (post_only, patch_only, respond-Same, reads) depth 16

  serve-Same : Keeps (Same start) (serve app json r)
  unfolding serve routed handle_health handle_vacancy_by_id handle_resume_by_id
      handle_application_by_id
  serve-Same =
      search
        (
          Keeps-if, Keeps-pure, profile-Same, search-Same, recommended-Same, vacancies-Same,
          import-Same, vacancy-Same, resumes-Same, resume-Same, applications-Same, application-Same,
        )
        depth 16

either-Same :
    {A : Type 0} (start : World) (r : Result A) (w : World)
    → Ends (Same start) (λ _. Same start) (r, w)
    → w ≡ start
either-Same start (ok a) w h = h.is
either-Same start (err e) w h = h.is

-- A GET request, to whatever path, changes nothing of the world: neither the database nor what was drawn,
-- asked or sent.
pub serve_get :
    (app : App) (json : Decoders) (r : Request) (w : World)
    → r.method ≡ "GET"
    → (serve app json r w).1 ≡ w
serve_get app json r w get =
    let (a, w') = serve app json r w in
    either-Same w a w' ((serve-Same app json r w get).at w (record { is = refl }))
