-- ===== src/App/Prepare.antt =====
-- PrepareApplication and prepareApplicationWithStore of internal/app/applications.go.
use Prim.Native.String.{[]}
use job_scout_ai.Prelude.{
  String, [], ◌∷◌, true, List, Option, none, some, if◌then◌else◌, Result, ok, err, not_found,
  vacancy_archived, length, pos,
}
use job_scout_ai.Strings.{trim_space}
use job_scout_ai.Core.Types.{
  CandidateProfile, Vacancy, Company, VacancyMatch, Application, ApplicationMethod, AuditEvent,
  Time, text, number, application_prepared,
}
use job_scout_ai.Core.VacancyStatus
use job_scout_ai.Core.ApplicationStatus.{ApplicationStatus}
use job_scout_ai.Core.Resume.{Resume, role_text, is_blank}
use job_scout_ai.Core.Resume.Select.{select}
use job_scout_ai.Core.CoverLetter.{
  CoverLetterInput, generate, build_application_warnings, extract_project_experience,
}
use job_scout_ai.Store.Exec.{
  Exec, pure, raise, lift, attempt, new_id, now, within_import_transaction, ◌>>=◌, ◌>>◌,
}
use job_scout_ai.Store.Memory.{
  get_vacancy, get_vacancy_match, find_active_application_by_vacancy_profile, get_company_by_id,
  upsert_application, create_audit_event,
}
use job_scout_ai.Store.Lists.{list_resumes}
use job_scout_ai.App.{App, get_profile}
use job_scout_ai.App.View.{
  ApplicationView, build_application_view, candidate_name_from_actor, deref_string, event_for,
}

-- The application that is written, in the state that waits for the owner.
unfoldable pub fresh_application :
    String → CandidateProfile → Vacancy → Resume → String → Time → Application
fresh_application id profile vacancy selected cover_letter time = record {
  id = id;
  vacancy_id = vacancy.id;
  candidate_profile_id = profile.id;
  resume_id = selected.id;
  status = ApplicationStatus.waiting_approval;
  application_method = ApplicationMethod.manual_link;
  cover_letter = cover_letter;
  prepared_at = time;
  approved_at = none;
  submitted_at = none;
  response_received_at = none;
  rejection_reason = "";
  notes = "";
  created_at = time;
  updated_at = time;
}

module _ (app : App) (profile : CandidateProfile) (resume_id : Option String) (actor : String) where
  unfoldable pub letter_input : Vacancy → VacancyMatch → Resume → Company → CoverLetterInput
  unfolding candidate_name_from_actor extract_project_experience
  letter_input vacancy match selected company = record {
    candidate_name = candidate_name_from_actor app.host actor;
    target_role = selected.target_role;
    commercial_experience_years = profile.years_of_commercial_experience;
    project_experience = extract_project_experience app.host selected.text_content;
    resume_skills = selected.skills;
    vacancy = vacancy;
    match = some match;
    positive_reasons = match.positive_reasons;
    missing_skills = match.missing_skills;
    company_name = company.display_name;
  }

  -- The view with what PrepareApplication sets on it.
  abbrev pub prepared_view :
      Vacancy → VacancyMatch → Resume → Company → ApplicationView → ApplicationView
  prepared_view vacancy match selected company view = record view {
    company = some company;
    resume = some selected;
    created = true;
    vacancy_url =
        if is_blank view.vacancy_url
        then (if is_blank vacancy.canonical_url then vacancy.source_url else vacancy.canonical_url)
        else view.vacancy_url;
    warnings =
        build_application_warnings app.host profile selected vacancy (some match)
          (extract_project_experience app.host selected.text_content);
  }

  abbrev pub chosen_resume : Vacancy → VacancyMatch → List Resume → Result Resume
  chosen_resume vacancy match resumes = select app.host (record {
    manual_resume_id = trim_space (deref_string resume_id);
    vacancy = vacancy;
    match = some match;
    resumes = resumes;
  })

  -- Its vacancy is the application's, and its resume the selected one.
  abbrev pub prepared_event : Resume → VacancyMatch → Application → Time → AuditEvent
  prepared_event selected match a time =
      event_for actor application_prepared a
        (("vacancyId", text a.vacancy_id)
          ∷ ("resumeId", text selected.id)
          ∷ ("targetRole", text (role_text selected.target_role))
          ∷ ("applicationMethod", text "MANUAL_LINK")
          ∷ ("manualResumeId", text (trim_space (deref_string resume_id)))
          ∷ ("positiveReasonsCount", number (pos (length match.positive_reasons)))
          ∷ ("missingSkillsCount", number (pos (length match.missing_skills)))
          ∷ [])
        time

  -- No active application stands in the way: one is written.
  unfoldable pub create_application : Vacancy → VacancyMatch → Exec ApplicationView
  unfolding ◌>>=◌ list_resumes trim_space deref_string select get_company_by_id letter_input
      generate new_id now fresh_application upsert_application create_audit_event
      build_application_view role_text
  create_application vacancy match = do
    resumes ← list_resumes profile.id
    selected ← lift (chosen_resume vacancy match resumes)
    company ← get_company_by_id vacancy.company_id
    let cover_letter = generate app.host (letter_input vacancy match selected company)
    time ← now
    id ← new_id
    a ← upsert_application (fresh_application id profile vacancy selected cover_letter time)
    create_audit_event (prepared_event selected match a time)
    view ← build_application_view app.host profile a
    pure (prepared_view vacancy match selected company view)

  -- An active application is returned as it is.
  unfoldable pub reuse_or_create :
      Vacancy → VacancyMatch → Result Application → Exec ApplicationView
  unfolding build_application_view create_application raise
  reuse_or_create vacancy match (ok existing) = build_application_view app.host profile existing
  reuse_or_create vacancy match (err not_found) = create_application vacancy match
  reuse_or_create vacancy match (err e) = raise e

  unfoldable pub prepare_application_with_store : String → Exec ApplicationView
  unfolding ◌>>=◌ get_vacancy VacancyStatus.same get_vacancy_match attempt
      find_active_application_by_vacancy_profile reuse_or_create
  prepare_application_with_store vacancy_id = do
    vacancy ← get_vacancy vacancy_id
    if VacancyStatus.same vacancy.status VacancyStatus.archived then raise vacancy_archived else do
      match ← get_vacancy_match vacancy.id
      existing ← attempt (find_active_application_by_vacancy_profile vacancy.id profile.id)
      reuse_or_create vacancy match existing

unfoldable pub prepare_application : App → String → Option String → String → Exec ApplicationView
unfolding ◌>>=◌ get_profile within_import_transaction prepare_application_with_store
prepare_application app vacancy_id resume_id actor = do
  profile ← get_profile
  within_import_transaction (prepare_application_with_store app profile resume_id actor vacancy_id)
