-- ===== src/Store/Postgres/Applications.antt =====
-- internal/store/postgres/postgres.go: the methods that write resumes, applications and audit events.
pub mod Agreement
use Prim.Native.String.{[], ◌∷◌}
use job_scout_ai.Prelude.{
  String, [], Bool, true, false, not, ◌&&◌, ◌||◌, List, ◌∷◌, ◌++◌, Option, none, some, any, is_some,
  if◌then◌else◌, ◌==◌, ok,
}
use job_scout_ai.Host.{Host}
use job_scout_ai.Strings.{is_nil, trim_space}
use job_scout_ai.Core.Types.{Application, AuditEvent, ApplicationMethod, manual_link, official_api}
use job_scout_ai.Core.ApplicationStatus
use job_scout_ai.Core.Normalize.{normalize_string_list}
use job_scout_ai.Core.Resume.{Resume, role_valid, language_valid}
use job_scout_ai.Store.Memory.{time_or, filled_application}
use job_scout_ai.Store.Postgres.Columns.{
  resume_row, application_row, event_row, is_indexed, is_checked,
}
use job_scout_ai.Store.Postgres.{
  Tables, Query, ◌>>=◌, id_or_new, now, Violation, unique_violation, foreign_key_violation,
  check_violation, check, upsert, execute, plain, conflict_or_plain, timestamps,
}
use job_scout_ai.Store.Postgres.Writes.{refers}

unfoldable pub resume_violation : Resume → Tables → Option Violation
unfolding role_valid language_valid refers
resume_violation new t =
    check
      (role_valid new.target_role
        && language_valid new.language
        && not (is_nil new.name)
        && not (is_nil new.text_content))
      check_violation
      (check (refers (λ p. p.id) t.candidate_profiles new.candidate_profile_id)
        foreign_key_violation none)

unfoldable pub upsert_resume : Host → Resume → Query Resume
unfolding resume_row upsert time_or trim_space normalize_string_list resume_violation
upsert_resume h resume = id_or_new resume.id >>= λ id. now >>= λ time. timestamps >>= λ ts.
    let new = record resume {
      id = id;
      name = trim_space resume.name;
      text_content = trim_space resume.text_content;
      skills = normalize_string_list h resume.skills;
      created_at = time_or resume.created_at time;
      updated_at = time;
    } in
    execute plain (resume_violation new) (λ t. record t {
      resumes =
          upsert (λ r. r.id == id) (λ r. record (resume_row ts new) { created_at = r.created_at })
            (resume_row ts new) t.resumes;
    })
    >>= λ u s. (ok new, s)

abbrev pub method_valid : ApplicationMethod → Bool
method_valid manual_link = true
method_valid official_api = true
method_valid m = false

abbrev pub is_row : Application → Application → Bool
is_row new a = a.id == new.id

-- ON CONFLICT (id): the row keeps its created_at.
abbrev pub updated_row : Application → Application → Application
updated_row new a = record new { created_at = a.created_at }

-- Another row of the index has its key, (vacancy_id, candidate_profile_id).
abbrev pub has_key : Application → Application → Bool
unfolding is_indexed
has_key new a =
    not (a.id == new.id)
    && (a.vacancy_id == new.vacancy_id
        && a.candidate_profile_id == new.candidate_profile_id
        && is_indexed a)

unfoldable pub application_violation : Application → Tables → Option Violation
unfolding is_checked any is_indexed refers
application_violation new t =
    check (is_checked new.status && method_valid new.application_method) check_violation (
      check (not (is_indexed new && any (has_key new) t.applications)) unique_violation (
        check (refers (λ v. v.id) t.vacancies new.vacancy_id) foreign_key_violation (
          check (refers (λ p. p.id) t.candidate_profiles new.candidate_profile_id)
            foreign_key_violation
            (check (refers (λ r. r.id) t.resumes new.resume_id) foreign_key_violation none))))

-- The statement, whose conflict is told apart.
unfoldable pub store_application : Application → Query Application
unfolding application_row upsert application_violation conflict_or_plain
store_application new = timestamps >>= λ ts.
    let row = application_row ts new in
    execute conflict_or_plain (application_violation new)
      (λ t. record t { applications = upsert (is_row new) (updated_row row) row t.applications })
    >>= λ u s. (ok new, s)

unfoldable pub upsert_application : Application → Query Application
unfolding filled_application store_application
upsert_application application = id_or_new application.id >>= λ id.
    now >>= λ time. store_application (filled_application application id time)

unfoldable pub create_audit_event : AuditEvent → Query AuditEvent
unfolding event_row time_or refers
create_audit_event event = id_or_new event.id >>= λ id. now >>= λ time. timestamps >>= λ ts.
    let new = record event { id = id; created_at = time_or event.created_at time } in
    execute plain (λ t. check (not (refers (λ e. e.id) t.audit_events id)) unique_violation none)
      (λ t. record t { audit_events = t.audit_events ++ event_row ts new ∷ [] })
    >>= λ u s. (ok new, s)
