-- ===== src/App.antt =====
-- internal/app: the service, over a store. `App` holds what its methods read of the struct: the settings,
-- and the tables of the host.
pub mod View
pub mod Applications
pub mod Outcome
pub mod Prepare
pub mod Decision
pub mod Import
pub mod Links
pub mod Search
pub mod ManualImport
pub mod Vacancies
pub mod Profile
pub mod Resumes
pub mod Workflow
pub mod Http
pub mod Bot
pub mod Events
use job_scout_ai.Prelude.{
  String, Option, none, some, Result, ok, err, Error, not_found, profile_not_configured,
}
use job_scout_ai.Host.{Host}
use job_scout_ai.Config.{Config}
use job_scout_ai.Hh
use job_scout_ai.Telegram
use job_scout_ai.Core.Types.{CandidateProfile}
use job_scout_ai.Store.Exec.{Exec, raise, lift, attempt, ◌>>=◌}
use job_scout_ai.Store.Memory.{get_candidate_profile}

pub record App : Type 0 where
  pub cfg : Config
  pub host : Host
  pub hh_client : Option Hh.Client
  pub tg_client : Option Telegram.Client

abbrev configured : Result CandidateProfile → Result CandidateProfile
configured (ok profile) = ok profile
configured (err not_found) = err profile_not_configured
configured (err e) = err e

unfoldable pub get_profile : Exec CandidateProfile
unfolding ◌>>=◌ attempt get_candidate_profile
get_profile = do found ← attempt get_candidate_profile; lift (configured found)
