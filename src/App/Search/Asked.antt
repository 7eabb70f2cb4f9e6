-- ===== src/App/Search/Asked.antt =====
-- internal/app/app.go: importing one vacancy asks no service outside.
use job_scout_ai.Prelude.{ℕ, String, ◌≡◌, Option, none, some, Result}
use job_scout_ai.Core.Types.{
  CandidateProfile, JobSource, RawVacancy, NormalizedVacancy, Company, Vacancy, Time,
}
use job_scout_ai.Store.{Db, World}
use job_scout_ai.Store.Exec.{Exec, modify, new_id, now, within_import_transaction}
use job_scout_ai.Store.Exec.Ends.{
  Ends, Triple, Keeps, Triple-bind, Triple-pure, Triple-if, Triple-ask, Triple-attempt,
  Triple-weaken, Keeps-modify, Keeps-new_id, Keeps-now, Triple-transaction, keeps_rules,
}
use job_scout_ai.Store.Memory.{
  get_or_create_company, save_company, find_vacancy_by_source_external_id, upsert_vacancy,
  id_or_new, upsert_vacancy_match, time_or_now, find_vacancy_by_content_hash,
}
use job_scout_ai.App.{App}
use job_scout_ai.App.Decision.{detect_dedup, DedupDecision}
use job_scout_ai.App.Import.{
  import_vacancy_from_raw, import_vacancy_from_raw_with_storage, go_on, store_vacancy,
}

-- Nothing was asked of a service outside.
pub record Asked (n : ℕ) (w : World) : Type 0 where
  pub count : w.requests ≡ n

module _ {n : ℕ} where
  pub new_id-Asked : Keeps (Asked n) new_id
  new_id-Asked = Keeps-new_id (λ w h. record { count = h.count })

  pub now-Asked : Keeps (Asked n) now
  now-Asked = Keeps-now (λ w h. record { count = h.count })

  pub modify-Asked : (f : Db → Db) → Keeps (Asked n) (modify f)
  modify-Asked f = Keeps-modify f (λ w h. record { count = h.count })

  pub transaction-Asked :
      {A : Type 0} (m : Exec A) → Keeps (Asked n) m → Keeps (Asked n) (within_import_transaction m)
  transaction-Asked m k = Triple-transaction m k (λ w w' h k. record { count = k.count })

  pub ruleset asked_rules = (keeps_rules, new_id-Asked, now-Asked, modify-Asked, transaction-Asked)

  module _ (app : App) (source : JobSource) (raw : RawVacancy) (profile : CandidateProfile) where
    pub store_vacancy-Asked :
        (time : Time) (company : Company) (existing : Option Vacancy) (dedup : DedupDecision)
        (draft : Vacancy)
        → Keeps (Asked n) (store_vacancy app source raw profile time company existing dedup draft)
    unfolding store_vacancy upsert_vacancy id_or_new upsert_vacancy_match time_or_now
    store_vacancy-Asked time company existing dedup draft = search asked_rules depth 16

    pub detect_dedup-Asked :
        (content_hash : String) (existing : Option Vacancy)
        → Keeps (Asked n) (detect_dedup content_hash existing)
    unfolding detect_dedup find_vacancy_by_content_hash
    detect_dedup-Asked content_hash (some existing) = search asked_rules
    detect_dedup-Asked content_hash none = search asked_rules depth 10

    pub go_on-Asked :
        (time : Time) (normalized : NormalizedVacancy) (company : Company) (found : Result Vacancy)
        → Keeps (Asked n) (go_on app source raw profile time normalized company found)
    unfolding go_on
    go_on-Asked time normalized company found =
        search (asked_rules, detect_dedup-Asked, store_vacancy-Asked) depth 10

    pub get_or_create_company-Asked :
        (company : Company) → Keeps (Asked n) (get_or_create_company company)
    unfolding get_or_create_company save_company
    get_or_create_company-Asked company = search asked_rules depth 10

    pub import-Asked : Keeps (Asked n) (import_vacancy_from_raw app source raw profile)
    unfolding import_vacancy_from_raw import_vacancy_from_raw_with_storage
        find_vacancy_by_source_external_id
    import-Asked = search (asked_rules, get_or_create_company-Asked, go_on-Asked) depth 14
