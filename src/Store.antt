-- ===== src/Store.antt =====
-- internal/store: the world that the application acts on, and its actions. `Db` is the Store of
-- internal/store/memory/memory.go, whose maps are dictionaries; the lock of every method makes a call
-- one step. What Go reads from outside, fresh identifiers and the clock, is drawn from two sequences. `requests` counts the calls to the
-- services outside, and `outbox` has what was sent to Telegram.
pub mod Exec
pub mod Memory
pub mod Lists
pub mod Applications
pub mod Vacancies
pub mod Log
pub mod Postgres
use job_scout_ai.Prelude.{ℕ, String, Bool, List, Option, Dict}
use job_scout_ai.Core.Types.{
  CandidateProfile, JobSource, Company, Vacancy, VacancyMatch, Application, AuditEvent, Time,
}
use job_scout_ai.Core.Resume.{Resume}
use job_scout_ai.Telegram.{Call}

pub record Db : Type 0 where
  pub profile : Option CandidateProfile
  pub sources : Dict JobSource
  pub companies : Dict Company
  pub vacancies : Dict Vacancy
  pub matches : Dict VacancyMatch
  pub resumes : Dict Resume
  pub applications : Dict Application
  pub audit_events : List AuditEvent

-- `rolls_back` tells which storage runs: Postgres undoes what a failed transaction wrote, and the
-- store in memory does not.
pub record World : Type 0 where
  pub db : Db
  pub rolls_back : Bool
  pub ids : ℕ → String
  pub drawn : ℕ
  pub clock : ℕ → Time
  pub read : ℕ
  pub requests : ℕ
  pub outbox : List Call
