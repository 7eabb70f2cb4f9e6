-- ===== src/Core/Types.antt =====
-- internal/core/types.go, application.go and audit.go: the records. A pointer field is an `Option`, Go's
-- `int` is `ℤ`, and an instant counts nanoseconds from Go's zero time, so that `IsZero` is a test for 0.
use job_scout_ai.Prelude.{ℕ, String, Bool, List, Option, ℤ, eqb}
use job_scout_ai.Core.SourceType.{SourceType}
use job_scout_ai.Core.VacancyStatus.{VacancyStatus}
use job_scout_ai.Core.ApplicationStatus.{ApplicationStatus}

abbrev pub Time : Type 0
Time = ℕ

-- time.Time.IsZero
abbrev pub is_zero : Time → Bool
is_zero t = eqb t 0

-- The `any` values that the program puts into configurations and metadata.
pub data Value : Type 0 where
  text : String → Value
  number : ℤ → Value
  instant : Time → Value

pub data Recommendation : Type 0 where
  apply review skip : Recommendation

pub record CandidateProfile : Type 0 where
  pub id : String
  pub desired_roles : List String
  pub desired_grades : List String
  pub primary_skills : List String
  pub secondary_skills : List String
  pub excluded_skills : List String
  pub desired_locations : List String
  pub remote_allowed : Bool
  pub relocation_allowed : Bool
  pub minimum_salary : Option ℤ
  pub currencies : List String
  pub employment_types : List String
  pub excluded_companies : List String
  pub stop_words : List String
  pub years_of_commercial_experience : ℤ
  pub languages : List String
  pub work_authorization : List String
  pub created_at : Time
  pub updated_at : Time

pub record JobSource : Type 0 where
  pub id : String
  pub type : SourceType
  pub name : String
  pub enabled : Bool
  pub configuration : List (String × Value)
  pub last_successful_sync_at : Option Time
  pub last_error_at : Option Time
  pub created_at : Time
  pub updated_at : Time

pub record Company : Type 0 where
  pub id : String
  pub normalized_name : String
  pub display_name : String
  pub website : String
  pub career_page : String
  pub blacklisted : Bool
  pub notes : String
  pub created_at : Time
  pub updated_at : Time

pub record Vacancy : Type 0 where
  pub id : String
  pub source_id : String
  pub external_id : String
  pub source_url : String
  pub canonical_url : String
  pub title : String
  pub normalized_title : String
  pub company_id : String
  pub description : String
  pub requirements : String
  pub responsibilities : String
  pub location : String
  pub remote_type : String
  pub employment_type : String
  pub grade : String
  pub salary_from : Option ℤ
  pub salary_to : Option ℤ
  pub currency : String
  pub skills : List String
  pub language_requirements : List String
  pub work_authorization_requirements : List String
  pub published_at : Time
  pub collected_at : Time
  pub content_hash : String
  pub status : VacancyStatus
  pub duplicate_of_vacancy_id : Option String
  pub dedup_reason : Option String
  pub created_at : Time
  pub updated_at : Time

pub record VacancyMatch : Type 0 where
  pub id : String
  pub vacancy_id : String
  pub candidate_profile_id : String
  pub total_score : ℤ
  pub skills_score : ℕ
  pub experience_score : ℕ
  pub location_score : ℕ
  pub salary_score : ℕ
  pub grade_score : ℕ
  pub role_score : ℕ
  pub positive_reasons : List String
  pub negative_reasons : List String
  pub missing_skills : List String
  pub hard_filter_passed : Bool
  pub calculated_at : Time
  pub scoring_version : String

pub record RawVacancy : Type 0 where
  pub source_type : SourceType
  pub source_id : String
  pub external_id : String
  pub source_url : String
  pub canonical_url : String
  pub title : String
  pub company_name : String
  pub description : String
  pub requirements : String
  pub responsibilities : String
  pub location : String
  pub remote_type : String
  pub employment_type : String
  pub grade : String
  pub salary_from : Option ℤ
  pub salary_to : Option ℤ
  pub currency : String
  pub skills : List String
  pub language_requirements : List String
  pub work_authorization_requirements : List String
  pub published_at : Time
  pub collected_at : Time

pub record NormalizedVacancy : Type 0 where
  pub raw_vacancy : RawVacancy
  pub normalized_title : String
  pub normalized_company_name : String
  pub content_hash : String
  pub stripped_description : String
  pub stripped_requirements : String
  pub stripped_responsibilities : String

pub record HardFilterResult : Type 0 where
  pub passed : Bool
  pub reasons : List String

pub record ScoringWeights : Type 0 where
  pub role_weight : ℤ
  pub skills_weight : ℤ
  pub experience_weight : ℤ
  pub grade_weight : ℤ
  pub location_weight : ℤ
  pub salary_weight : ℤ
  pub domain_weight : ℤ

pub record ScoringConfig : Type 0 where
  pub weights : ScoringWeights
  pub apply_threshold : ℤ
  pub review_threshold : ℤ
  pub version : String

pub record ScoringResult : Type 0 where
  pub total_score : ℤ
  pub role_score : ℕ
  pub skills_score : ℕ
  pub experience_score : ℕ
  pub location_score : ℕ
  pub salary_score : ℕ
  pub grade_score : ℕ
  pub domain_score : ℕ
  pub positive_reasons : List String
  pub negative_reasons : List String
  pub missing_skills : List String
  pub warnings : List String
  pub recommendation : Recommendation
  pub hard_filter_passed : Bool
  pub version : String

pub data ApplicationMethod : Type 0 where
  manual_link official_api : ApplicationMethod
  other : String → ApplicationMethod

pub record Application : Type 0 where
  pub id : String
  pub vacancy_id : String
  pub candidate_profile_id : String
  pub resume_id : String
  pub status : ApplicationStatus
  pub application_method : ApplicationMethod
  pub cover_letter : String
  pub prepared_at : Time
  pub approved_at : Option Time
  pub submitted_at : Option Time
  pub response_received_at : Option Time
  pub rejection_reason : String
  pub notes : String
  pub created_at : Time
  pub updated_at : Time

pub data AuditAction : Type 0 where
  application_prepared application_approved application_cancelled : AuditAction
  application_marked_submitted application_hr_contact application_interview : AuditAction
  application_offer application_rejected : AuditAction

pub record AuditEvent : Type 0 where
  pub id : String
  pub actor : String
  pub action : AuditAction
  pub entity_type : String
  pub entity_id : String
  pub metadata : List (String × Value)
  pub created_at : Time
