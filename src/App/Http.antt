-- ===== src/App/Http.antt =====
-- internal/app/http.go: requests, answers, and what the handlers share. The decoder of JSON is the library of
-- Go, which the handlers take as a parameter; an answer holds the value that is encoded. A path is one
-- that ServeMux serves, so it is clean.
pub mod Errors
pub mod Vacancies
pub mod Applications
pub mod Router
pub mod Reads
pub mod Codes
pub mod Answers
pub mod Rules
pub mod Sound
use Prim.Native.String.{[], ◌∷◌}
use job_scout_ai.Prelude.{
  ℕ, String, [], ◌∷◌, Bool, true, false, List, Option, none, some, if◌then◌else◌, Result, ok, err,
  Error, panicked, ℤ, ◌==◌,
}
use job_scout_ai.Strings.{is_nil, trim_space, join}
use job_scout_ai.Strings.Numbers.{atoi}
use job_scout_ai.Core.Types.{CandidateProfile, Application, Vacancy}
use job_scout_ai.Core.Resume.{Resume, is_blank}
use job_scout_ai.Store.Exec.{Exec, pure}
use job_scout_ai.Store.Lists.{VacancyWithMatch}
use job_scout_ai.App.View.{ApplicationView}
use job_scout_ai.App.Outcome.{ApplicationOutcomeRequest}
use job_scout_ai.App.Resumes.{ResumeCreateRequest, ResumePatchRequest}
use job_scout_ai.App.Search.{SearchSummary}
use job_scout_ai.App.ManualImport.{ManualImportRequest}
use job_scout_ai.App.Vacancies.{normalize_pagination}
use job_scout_ai.App.Http.Errors.{error_text}

-- The body: none, one whose reading fails, or the first 2^20 bytes of it.
pub data Body : Type 0 where
  no_body : Body
  unreadable : Error → Body
  content : String → Body

pub record Request : Type 0 where
  pub method : String
  pub path : String
  pub query : String → String
  pub x_actor : String
  pub body : Body

-- The decoders of the requests; each refuses unknown fields.
pub record Decoders : Type 0 where
  pub profile : String → Result CandidateProfile
  pub search_query : String → Result String
  pub manual_import : String → Result ManualImportRequest
  pub status : String → Result String
  pub resume_create : String → Result ResumeCreateRequest
  pub resume_patch : String → Result ResumePatchRequest
  pub resume_id : String → Result (Option String)
  pub application_outcome : String → Result ApplicationOutcomeRequest

pub data Payload : Type 0 where
  healthy : Payload
  failure : String → Payload
  profile : CandidateProfile → Payload
  summary : SearchSummary → Payload
  vacancies : List VacancyWithMatch → Payload
  vacancy : VacancyWithMatch → Payload
  resumes : List Resume → Payload
  resume : Resume → Payload
  applications : List ApplicationView → Payload
  application : ApplicationView → Payload
  moved : (location : String) → Payload

pub record Response : Type 0 where
  pub status : ℕ
  pub allow : String
  pub payload : Payload

unfoldable pub write_json : ℕ → Payload → Response
write_json status payload = record { status = status; allow = ""; payload = payload }

unfoldable pub write_error : ℕ → String → Response
unfolding write_json
write_error status text = write_json status (failure text)

unfoldable pub method_not_allowed : List String → Response
unfolding join
method_not_allowed allowed = record {
  status = 405;
  allow = join allowed ", ";
  payload = failure "method not allowed";
}

-- What readJSON answers. errEmptyBody is told apart from the other errors.
pub data Read (A : Type 0) : Type 0 where
  decoded : A → Read A
  empty_body : Read A
  refused : Error → Read A

module _ {A : Type 0} where
  abbrev pub read_result : Result A → Read A
  read_result (ok a) = decoded a
  read_result (err e) = refused e

  unfoldable pub read_json : (String → Result A) → Body → Read A
  read_json decode no_body = empty_body
  read_json decode (unreadable e) = refused e
  read_json decode (content s) = if is_blank s then empty_body else read_result (decode s)

  -- Where an empty body is an error too.
  unfoldable pub with_body : Read A → (A → Exec Response) → Exec Response
  unfolding pure write_error error_text
  with_body (decoded a) f = f a
  with_body empty_body f = pure (write_error 400 "empty body")
  with_body (refused e) f = pure (write_error 400 (error_text e))

  -- Where an empty body stands for the zero value.
  unfoldable pub with_body_or : A → Read A → (A → Exec Response) → Exec Response
  unfolding pure write_error error_text
  with_body_or default (decoded a) f = f a
  with_body_or default empty_body f = f default
  with_body_or default (refused e) f = pure (write_error 400 (error_text e))

  abbrev pub answer : (A → Response) → (Error → Response) → Result A → Result Response
  answer good bad (ok a) = ok (good a)
  answer good bad (err (panicked s)) = err (panicked s)
  answer good bad (err e) = ok (bad e)

  -- A method of the service, and the answer to its result or its error. A panic is not answered.
  unfoldable pub respond : Exec A → (A → Response) → (Error → Response) → Exec Response
  respond m good bad w = let (r, w') = m w in (answer good bad r, w')

-- Every error is the request's fault.
unfoldable pub bad_request : Error → Response
unfolding write_error error_text
bad_request e = write_error 400 (error_text e)

unfoldable pub pagination_from_query : Request → ℕ × ℕ
unfolding atoi normalize_pagination
pagination_from_query r =
    normalize_pagination (atoi (r.query "page")).0 (atoi (r.query "per_page")).0

unfoldable pub request_actor : Request → String
unfolding trim_space
request_actor r = let actor = trim_space r.x_actor in if is_nil actor then "http" else actor
