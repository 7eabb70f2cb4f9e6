-- ===== src/Store/Postgres/Columns.antt =====
-- migrations/0001_init.sql and 0002_application_workflow.sql: the rows that the columns of the tables make of records.
use job_scout_ai.Prelude.{Option, none, some, Bool, not, ◌||◌, ◌==◌, [], ◌∷◌, elem}
use job_scout_ai.Core.Types.{
  CandidateProfile, JobSource, Company, Vacancy, VacancyMatch, Application, AuditEvent, Time,
}
use job_scout_ai.Core.ApplicationStatus
use job_scout_ai.Core.ApplicationStatus.{ApplicationStatus}
use job_scout_ai.Core.Resume.{Resume}

module _ (timestamp : Time → Time) where
  abbrev nullable : Option Time → Option Time
  nullable none = none
  nullable (some t) = some (timestamp t)

  unfoldable pub profile_row : CandidateProfile → CandidateProfile
  profile_row p = record p {
    created_at = timestamp p.created_at;
    updated_at = timestamp p.updated_at;
  }

  unfoldable pub source_row : JobSource → JobSource
  source_row s = record s {
    last_successful_sync_at = nullable s.last_successful_sync_at;
    last_error_at = nullable s.last_error_at;
    created_at = timestamp s.created_at;
    updated_at = timestamp s.updated_at;
  }

  unfoldable pub company_row : Company → Company
  company_row c = record c {
    created_at = timestamp c.created_at;
    updated_at = timestamp c.updated_at;
  }

  unfoldable pub vacancy_row : Vacancy → Vacancy
  vacancy_row v = record v {
    published_at = timestamp v.published_at;
    collected_at = timestamp v.collected_at;
    created_at = timestamp v.created_at;
    updated_at = timestamp v.updated_at;
  }

  unfoldable pub match_row : VacancyMatch → VacancyMatch
  match_row m = record m { calculated_at = timestamp m.calculated_at }

  unfoldable pub resume_row : Resume → Resume
  resume_row r = record r {
    created_at = timestamp r.created_at;
    updated_at = timestamp r.updated_at;
  }

  unfoldable pub application_row : Application → Application
  application_row a = record a {
    prepared_at = timestamp a.prepared_at;
    approved_at = nullable a.approved_at;
    submitted_at = nullable a.submitted_at;
    response_received_at = nullable a.response_received_at;
    created_at = timestamp a.created_at;
    updated_at = timestamp a.updated_at;
  }

  unfoldable pub event_row : AuditEvent → AuditEvent
  event_row e = record e { created_at = timestamp e.created_at }

-- The constraint applications_status_check.
unfoldable pub is_checked : ApplicationStatus → Bool
unfolding elem ApplicationStatus.to_text
is_checked status = elem (ApplicationStatus.to_text status) (
    "DRAFT" ∷ "WAITING_APPROVAL" ∷ "APPROVED" ∷ "MANUAL_ACTION_REQUIRED" ∷ "SUBMITTED" ∷ "CANCELLED"
    ∷ "HR_CONTACT" ∷ "INTERVIEW" ∷ "OFFER" ∷ "REJECTED" ∷ [])

-- The rows of the unique index applications_active_unique_idx: status NOT IN ('CANCELLED', 'REJECTED').
unfoldable pub is_indexed : Application → Bool
unfolding ApplicationStatus.to_text
is_indexed a =
    let status = ApplicationStatus.to_text a.status in
    not (status == "CANCELLED" || status == "REJECTED")
