-- ===== src/Store/Applications/Elsewhere.antt =====
-- The actions that write no application keep what holds of the applications.
use job_scout_ai.Prelude.{String, ◌≡◌, Option}
use job_scout_ai.Core.Types.{AuditEvent}
use job_scout_ai.Core.VacancyStatus.{VacancyStatus}
use job_scout_ai.Store.{Db, World}
use job_scout_ai.Store.Exec.{modify, new_id, now}
use job_scout_ai.Store.Exec.Ends.{
  Keeps, Keeps-modify, Keeps-new_id, Keeps-now, Keeps-bind, keeps_rules,
}
use job_scout_ai.Store.Memory.{
  id_or_new, create_audit_event, get_vacancy, update_vacancy_status, get_resume, get_company_by_id,
  get_vacancy_match, get_candidate_profile, find_active_application_by_vacancy_profile,
}
use job_scout_ai.Store.Lists.{list_resumes}
use job_scout_ai.Store.Applications.Rules.{Good, Good-new_id, Good-now, Good-elsewhere}

module _ {start : World} where
  pub new_id-Keeps : Keeps (Good start) new_id
  new_id-Keeps = Keeps-new_id (Good-new_id start)

  pub now-Keeps : Keeps (Good start) now
  now-Keeps = Keeps-now (Good-now start)

  pub modify-Keeps :
      (f : Db → Db)
      → ((db : Db) → (f db).applications ≡ db.applications)
      → Keeps (Good start) (modify f)
  modify-Keeps f h = Keeps-modify f λ w g. Good-elsewhere start w (f w.db) (h w.db) g

  pub id_or_new-Keeps : (id : String) → Keeps (Good start) (id_or_new id)
  unfolding id_or_new
  id_or_new-Keeps id = search (keeps_rules, new_id-Keeps)

  pub create_audit_event-Keeps : (e : AuditEvent) → Keeps (Good start) (create_audit_event e)
  unfolding create_audit_event
  create_audit_event-Keeps e = search (keeps_rules, id_or_new-Keeps, now-Keeps, modify-Keeps)

  pub get_vacancy-Keeps : (id : String) → Keeps (Good start) (get_vacancy id)
  unfolding get_vacancy
  get_vacancy-Keeps id = search keeps_rules

  pub update_vacancy_status-Keeps :
      (id : String) (status : VacancyStatus) (duplicate_of reason : Option String)
      → Keeps (Good start) (update_vacancy_status id status duplicate_of reason)
  unfolding update_vacancy_status
  update_vacancy_status-Keeps id status duplicate_of reason = search (keeps_rules, modify-Keeps)

  pub get_vacancy_match-Keeps : (id : String) → Keeps (Good start) (get_vacancy_match id)
  unfolding get_vacancy_match
  get_vacancy_match-Keeps id = search keeps_rules

  pub get_company_by_id-Keeps : (id : String) → Keeps (Good start) (get_company_by_id id)
  unfolding get_company_by_id
  get_company_by_id-Keeps id = search keeps_rules

  pub get_resume-Keeps : (id : String) → Keeps (Good start) (get_resume id)
  unfolding get_resume
  get_resume-Keeps id = search keeps_rules

  pub find_active-Keeps :
      (vacancy_id profile_id : String)
      → Keeps (Good start) (find_active_application_by_vacancy_profile vacancy_id profile_id)
  unfolding find_active_application_by_vacancy_profile
  find_active-Keeps vacancy_id profile_id = search keeps_rules

  pub list_resumes-Keeps : (profile_id : String) → Keeps (Good start) (list_resumes profile_id)
  unfolding list_resumes
  list_resumes-Keeps profile_id = search keeps_rules

  pub get_candidate_profile-Keeps : Keeps (Good start) get_candidate_profile
  unfolding get_candidate_profile
  get_candidate_profile-Keeps = search keeps_rules

pub ruleset store_rules = (
  keeps_rules, new_id-Keeps, now-Keeps, create_audit_event-Keeps, update_vacancy_status-Keeps,
  get_vacancy-Keeps, get_vacancy_match-Keeps, get_company_by_id-Keeps, get_resume-Keeps,
  find_active-Keeps, list_resumes-Keeps, get_candidate_profile-Keeps,
)
