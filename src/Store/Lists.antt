-- ===== src/Store/Lists.antt =====
-- internal/store/memory/memory.go: the methods that return lists. sort.Slice leaves entries that compare
-- equal in an order of its own; here they keep the order in which the map was visited.
pub mod Pages
use Prim.Native.String.{[], compare}
use Prim.Native.Nat.{Ordering}
use job_scout_ai.Prelude.{
  ℕ, ◌+◌, ◌*◌, ◌^◌, ◌%◌, String, [], ◌∷◌, Bool, true, false, not, ◌&&◌, ◌||◌, List, Option, none,
  some, map, keep, Dict, lookup, values, length, take, drop, if◌then◌else◌, ◌==◌, ltb, leb, eqb, ℤ,
  leb_ℤ, Result, ok, err, panicked,
}
use job_scout_ai.Strings.{is_nil}
use job_scout_ai.Core.Types.{
  JobSource, Company, Vacancy, VacancyMatch, Application, AuditEvent, Time,
}
use job_scout_ai.Core.VacancyStatus
use job_scout_ai.Core.VacancyStatus.{VacancyStatus, recommended}
use job_scout_ai.Core.Resume.{Resume}
use job_scout_ai.Store.{Db}
use job_scout_ai.Store.Exec.{Exec, gets, lift, pure, ◌>>=◌}

module _ {A : Type 0} (less : A → A → Bool) where
  unfoldable pub insert_by : A → List A → List A
  insert_by a [] = a ∷ []
  insert_by a (b ∷ r) = let rest = insert_by a r in if less b a then b ∷ rest else a ∷ b ∷ r

  unfoldable pub sort_by : List A → List A
  unfolding insert_by
  sort_by [] = []
  sort_by (a ∷ r) = insert_by a (sort_by r)

abbrev pub below : String → String → Bool
below s t = elim (compare s t) [ Ordering.lt ↦ true | _ ↦ false ]

-- By time and, at one time, by identifier.
abbrev pub earlier : Time → Time → String → String → Bool
earlier t u s r = if eqb t u then below s r else ltb t u

unfoldable pub list_job_sources : Bool → Exec (List JobSource)
unfolding gets keep values sort_by
list_job_sources enabled_only = gets λ db.
    sort_by (λ s t. ltb s.created_at t.created_at)
      (keep (λ s. not (enabled_only && not s.enabled)) (values db.sources))

abbrev belongs_to : String → String → Bool
belongs_to profile_id owner = is_nil profile_id || owner == profile_id

unfoldable pub list_resumes : String → Exec (List Resume)
unfolding gets keep values sort_by
list_resumes profile_id = gets λ db.
    sort_by (λ r s. earlier r.created_at s.created_at r.id s.id)
      (keep (λ r. belongs_to profile_id r.candidate_profile_id) (values db.resumes))

unfoldable pub list_applications : String → Exec (List Application)
unfolding gets keep values sort_by
list_applications profile_id = gets λ db.
    sort_by (λ a b. earlier b.created_at a.created_at b.id a.id)
      (keep (λ a. belongs_to profile_id a.candidate_profile_id) (values db.applications))

unfoldable pub list_audit_events : Exec (List AuditEvent)
unfolding gets sort_by
list_audit_events =
    gets λ db. sort_by (λ e f. earlier e.created_at f.created_at e.id f.id) db.audit_events

pub record ListVacanciesFilter : Type 0 where
  pub page : ℕ
  pub per_page : ℕ
  pub status : Option VacancyStatus
  pub recommended_only : Bool

pub record VacancyWithMatch : Type 0 where
  pub vacancy : Vacancy
  pub company : Option Company
  pub match : Option VacancyMatch

abbrev pub wanted_status : Option VacancyStatus → VacancyStatus → Bool
wanted_status none s = true
wanted_status (some t) s = VacancyStatus.same s t

abbrev passed_filter : Option VacancyMatch → Bool
passed_filter none = false
passed_filter (some m) = m.hard_filter_passed

unfoldable pub is_listed : ListVacanciesFilter → VacancyWithMatch → Bool
unfolding VacancyStatus.same
is_listed filter item =
    wanted_status filter.status item.vacancy.status
    && (not filter.recommended_only
        || (VacancyStatus.same item.vacancy.status recommended && passed_filter item.match))

-- The slice of the sorted items. The product is an int64: where it wraps to a negative number the
-- slice expression panics, and where it is large the answer is empty.
unfoldable pub page_of {ℓ} : {A : Type ℓ} → ℕ → ℕ → List A → Result (List A)
page_of page per_page items =
    let start = (page * per_page) % 2 ^ 64 in
    if leb (2 ^ 63) start
    then err (panicked "slice bounds out of range")
    else if ltb (length items) start
    then ok []
    else ok (take per_page (drop start items))

unfoldable pub vacancy_items : Db → ListVacanciesFilter → List VacancyWithMatch
unfolding is_listed keep values lookup sort_by
vacancy_items db filter =
    sort_by (λ i j. ltb j.vacancy.collected_at i.vacancy.collected_at)
      (keep (is_listed filter) (
        map (λ v. record { vacancy = v; company = none; match = lookup v.id db.matches })
          (values db.vacancies)))

unfoldable pub list_vacancies : ListVacanciesFilter → Exec (List VacancyWithMatch)
unfolding ◌>>=◌ vacancy_items page_of
list_vacancies filter = do
  items ← gets λ db. vacancy_items db filter
  lift (page_of filter.page filter.per_page items)

abbrev scores_at_least : ℤ → Option VacancyMatch → Bool
scores_at_least min_score none = false
scores_at_least min_score (some m) = leb_ℤ min_score m.total_score

unfoldable pub list_recommended_vacancies : ListVacanciesFilter → ℤ → Exec (List VacancyWithMatch)
unfolding ◌>>=◌ list_vacancies keep
list_recommended_vacancies filter min_score = do
  items ← list_vacancies (record filter { recommended_only = true })
  pure (keep (λ i. scores_at_least min_score i.match) items)
