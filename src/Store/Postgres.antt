-- ===== src/Store/Postgres.antt =====
-- internal/store/postgres/postgres.go: the tables and the methods on them. A statement acts on the rows at once, in
-- the way of its SQL: the constraints of migrations/0001_init.sql and 0002_application_workflow.sql are checked
-- where it writes. Rows are the records, with the times as a column of type TIMESTAMPTZ gives them back, which keeps less
-- than Go's nanoseconds; the other columns are encoded and scanned without loss.
pub mod Columns
pub mod Queries
pub mod Writes
pub mod Applications
use Prim.Native.String.{[], ◌∷◌}
use job_scout_ai.Prelude.{
  ℕ, suc, String, [], Bool, true, false, not, ◌&&◌, ◌||◌, List, [], ◌∷◌, ◌++◌, Option, none, some,
  any, find, if◌then◌else◌, ◌==◌, Result, ok, err, Error, not_found, conflict, message,
}
use job_scout_ai.Strings.{is_nil}
use job_scout_ai.Core.Types.{
  CandidateProfile, JobSource, Company, Vacancy, VacancyMatch, Application, AuditEvent, Time,
  is_zero,
}
use job_scout_ai.Core.Resume.{Resume}

pub record Tables : Type 0 where
  pub candidate_profiles : List CandidateProfile
  pub job_sources : List JobSource
  pub companies : List Company
  pub vacancies : List Vacancy
  pub vacancy_matches : List VacancyMatch
  pub resumes : List Resume
  pub applications : List Application
  pub audit_events : List AuditEvent

-- `timestamp` is what such a column makes of a time.
pub record Session : Type 0 where
  pub tables : Tables
  pub timestamp : Time → Time
  pub ids : ℕ → String
  pub drawn : ℕ
  pub clock : ℕ → Time
  pub read : ℕ

abbrev pub Query : Type 0 → Type 0
Query A = Session → Result A × Session

module _ {A B : Type 0} where
  abbrev pub continue : (A → Query B) → Result A × Session → Result B × Session
  continue f (ok a, s) = f a s
  continue f (err e, s) = (err e, s)

  infixl 10 ◌>>=◌
  abbrev pub ◌>>=◌ : Query A → (A → Query B) → Query B
  m >>= f = λ s. continue f (m s)

abbrev pub new_id : Query String
new_id s = (ok (s.ids s.drawn), record s { drawn = suc s.drawn })

-- if x.ID == "" { x.ID = core.NewID() }
abbrev pub id_or_new : String → Query String
id_or_new id = if is_nil id then new_id else λ s. (ok id, s)

-- time.Now().UTC(), and the NOW() of the server
abbrev pub now : Query Time
now s = (ok (s.clock s.read), record s { read = suc s.read })

abbrev pub timestamps : Query (Time → Time)
timestamps s = (ok s.timestamp, s)

-- What a statement breaks: a unique key, whose code is 23505, a reference, or a check.
pub data Violation : Type 0 where
  unique_violation foreign_key_violation check_violation : Violation

abbrev pub violation_text : Violation → String
violation_text unique_violation = "duplicate key value violates unique constraint"
violation_text foreign_key_violation = "insert or update violates foreign key constraint"
violation_text check_violation = "new row violates check constraint"

-- isConflictError
unfoldable pub is_conflict_error : Violation → Bool
is_conflict_error unique_violation = true
is_conflict_error v = false

-- The first constraint that does not hold.
abbrev pub check : Bool → Violation → Option Violation → Option Violation
check true v rest = rest
check false v rest = some v

module _ {A : Type 0} where
  -- INSERT ... ON CONFLICT ... DO UPDATE: the row that matches is updated, or the new one is added.
  unfoldable pub upsert : (matches : A → Bool) (update : A → A) (new : A) → List A → List A
  upsert matches update new [] = new ∷ []
  upsert matches update new (a ∷ rows) =
      let rest = upsert matches update new rows in if matches a then update a ∷ rows else a ∷ rest

  -- The row that such a statement writes.
  abbrev pub written : (update : A → A) (new : A) → Option A → A
  written update new none = new
  written update new (some a) = update a

  -- sql.ErrNoRows becomes store.ErrNotFound.
  abbrev pub or_not_found : Option A → Result A
  or_not_found none = err not_found
  or_not_found (some a) = ok a

  abbrev pub selects : (Tables → A) → Query A
  selects f s = (ok (f s.tables), s)

  abbrev pub select_one : (Tables → Option A) → Query A
  select_one f s = (or_not_found (f s.tables), s)

-- The statement's write, or its error.
abbrev pub ran : (Violation → Error) → (Tables → Tables) → Option Violation → Query (Unit {0})
ran failure write none s = (ok tt, record s { tables = write s.tables })
ran failure write (some v) s = (err (failure v), s)

abbrev pub execute :
    (Violation → Error) → (Tables → Option Violation) → (Tables → Tables) → Query (Unit {0})
execute failure broken write s = ran failure write (broken s.tables) s

abbrev pub plain : Violation → Error
plain v = message (violation_text v)

-- UpsertApplication tells a conflict apart.
unfoldable pub conflict_or_plain : Violation → Error
unfolding is_conflict_error
conflict_or_plain v = if is_conflict_error v then conflict else plain v

-- WithinImportTransaction, whose commit succeeds.
abbrev rolled_back : {A : Type 0} → Session → Result A × Session → Result A × Session
rolled_back s (ok a, t) = (ok a, t)
rolled_back s (err e, t) = (err e, record t { tables = s.tables })

unfoldable pub within_import_transaction : {A : Type 0} → Query A → Query A
within_import_transaction f s = rolled_back s (f s)
