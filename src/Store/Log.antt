-- ===== src/Store/Log.antt =====
-- The audit log only grows and the vacancies move as permitted: the rules of the store's actions.
use mathlib.Core.List.{append_assoc}
use job_scout_ai.Prelude.{
  String, ◌≡◌, ◌∙◌, sym, ap, List, [], ◌∷◌, ◌++◌, Option, some, lookup, insert, true,
}
use job_scout_ai.Core.Types.{Application, AuditEvent, Vacancy}
use job_scout_ai.Core.VacancyStatus
use job_scout_ai.Core.VacancyStatus.{VacancyStatus}
use mathlib.Core.Path.{subst}
use job_scout_ai.Store.{Db, World}
use job_scout_ai.Store.Vacancies.{Keyed, Moved, insert-Keyed, insert-Moved}
use job_scout_ai.Store.Exec.{Exec, modify, new_id, now, within_import_transaction}
use job_scout_ai.Store.Exec.Ends.{
  Keeps, Keeps-modify, Keeps-new_id, Keeps-now, Keeps-bind, keeps_rules, Triple-transaction,
}
use job_scout_ai.Store.Memory.{
  id_or_new, create_audit_event, get_vacancy, get_resume, get_company_by_id, get_vacancy_match,
  get_candidate_profile, find_active_application_by_vacancy_profile, get_application,
  save_application, upsert_application,
}
use job_scout_ai.Store.Lists.{list_resumes}

-- The log of the start is a prefix of the log, and the vacancies have moved as permitted.
pub record Logged (start w : World) : Type 0 where
  pub later : List AuditEvent
  pub log : w.db.audit_events ≡ start.db.audit_events ++ later
  pub moved :
      Keyed start.db.vacancies → Keyed w.db.vacancies × Moved start.db.vacancies w.db.vacancies

module _ {start : World} where
  pub new_id-Logged : Keeps (Logged start) new_id
  new_id-Logged = Keeps-new_id (λ w l. record { later = l.later; log = l.log; moved = l.moved })

  pub now-Logged : Keeps (Logged start) now
  now-Logged = Keeps-now (λ w l. record { later = l.later; log = l.log; moved = l.moved })

  pub modify-Logged :
      (f : Db → Db)
      → ((db : Db) → (f db).audit_events ≡ db.audit_events)
      → ((db : Db) → (f db).vacancies ≡ db.vacancies)
      → Keeps (Logged start) (modify f)
  modify-Logged f h same = Keeps-modify f λ w l. record {
    later = l.later;
    log = h w.db ∙ l.log;
    moved = λ keyed.
        subst (λ d. Keyed d × Moved start.db.vacancies d) (sym (same w.db)) (l.moved keyed);
  }

  pub append-Logged :
      (e : AuditEvent)
      → Keeps (Logged start) (modify λ db. record db { audit_events = db.audit_events ++ e ∷ [] })
  append-Logged e = Keeps-modify _ λ w l. record {
    later = l.later ++ e ∷ [];
    log = ap (λ es. es ++ e ∷ []) l.log ∙ append_assoc start.db.audit_events l.later (e ∷ []);
    moved = l.moved;
  }

  pub transaction-Logged :
      {A : Type 0} (m : Exec A)
      → Keeps (Logged start) m
      → Keeps (Logged start) (within_import_transaction m)
  transaction-Logged m k =
      Triple-transaction m k λ w w' l k. record { later = l.later; log = l.log; moved = l.moved }

  pub id_or_new-Logged : (id : String) → Keeps (Logged start) (id_or_new id)
  unfolding id_or_new
  id_or_new-Logged id = search (keeps_rules, new_id-Logged)

  pub create_audit_event-Logged : (e : AuditEvent) → Keeps (Logged start) (create_audit_event e)
  unfolding create_audit_event
  create_audit_event-Logged e = search (keeps_rules, id_or_new-Logged, now-Logged, append-Logged)

  pub get_vacancy-Logged : (id : String) → Keeps (Logged start) (get_vacancy id)
  unfolding get_vacancy
  get_vacancy-Logged id = search keeps_rules

  pub get_vacancy_match-Logged : (id : String) → Keeps (Logged start) (get_vacancy_match id)
  unfolding get_vacancy_match
  get_vacancy_match-Logged id = search keeps_rules

  pub get_company_by_id-Logged : (id : String) → Keeps (Logged start) (get_company_by_id id)
  unfolding get_company_by_id
  get_company_by_id-Logged id = search keeps_rules

  pub get_resume-Logged : (id : String) → Keeps (Logged start) (get_resume id)
  unfolding get_resume
  get_resume-Logged id = search keeps_rules

  pub get_candidate_profile-Logged : Keeps (Logged start) get_candidate_profile
  unfolding get_candidate_profile
  get_candidate_profile-Logged = search keeps_rules

  pub find_active-Logged :
      (vacancy_id profile_id : String)
      → Keeps (Logged start) (find_active_application_by_vacancy_profile vacancy_id profile_id)
  unfolding find_active_application_by_vacancy_profile
  find_active-Logged vacancy_id profile_id = search keeps_rules

  pub get_application-Logged : (id : String) → Keeps (Logged start) (get_application id)
  unfolding get_application
  get_application-Logged id = search keeps_rules

  pub list_resumes-Logged : (profile_id : String) → Keeps (Logged start) (list_resumes profile_id)
  unfolding list_resumes
  list_resumes-Logged profile_id = search keeps_rules

  pub save_application-Logged : (a : Application) → Keeps (Logged start) (save_application a)
  unfolding save_application
  save_application-Logged a = search (keeps_rules, modify-Logged)

  pub upsert_application-Logged : (a : Application) → Keeps (Logged start) (upsert_application a)
  unfolding upsert_application
  upsert_application-Logged a =
      search (keeps_rules, id_or_new-Logged, now-Logged, save_application-Logged)

  -- A vacancy that was found under an identifier is written under its own, with a permitted status.
  pub move-Logged :
      (vacancy_id : String) (v u : Vacancy) (status : VacancyStatus) (of reason : Option String)
      → VacancyStatus.can_transition v.status status ≡ true
      → (w : World) → Logged start w
      → lookup vacancy_id w.db.vacancies ≡ some v
      → lookup v.id w.db.vacancies ≡ some u
      → Logged start (record w {
        db = record w.db {
          vacancies =
              insert v.id
                (record u { status = status; duplicate_of_vacancy_id = of; dedup_reason = reason })
                w.db.vacancies;
        };
      })
  move-Logged vacancy_id v u status of reason can w l found again =
      let u' = record u { status = status; duplicate_of_vacancy_id = of; dedup_reason = reason } in
      record {
        later = l.later;
        log = l.log;
        moved = λ keyed.
            let (k, m) = l.moved keyed in
            let same_id : v.id ≡ vacancy_id = k vacancy_id v found in
            let here : lookup v.id w.db.vacancies ≡ some v =
              subst (λ i. lookup i w.db.vacancies ≡ some v) (sym same_id) found in
            let same : v ≡ u = cc in
            (
              insert-Keyed w.db.vacancies u u' v.id k (k v.id u again),
              insert-Moved w.db.vacancies u u' v.id start.db.vacancies m again
                  (subst (λ x. VacancyStatus.can_transition x.status status ≡ true) same can),
            );
      }

pub ruleset log_rules = (
  keeps_rules, new_id-Logged, now-Logged, transaction-Logged, create_audit_event-Logged,
  get_vacancy-Logged, get_vacancy_match-Logged, get_company_by_id-Logged, get_resume-Logged,
  get_candidate_profile-Logged, find_active-Logged, get_application-Logged, list_resumes-Logged,
  upsert_application-Logged,
)
