-- ===== src/App/Decision.antt =====
-- internal/app/app.go: what the import of a vacancy decides: the names it falls back to, whether the vacancy is
-- a duplicate, and the state that is stored. detectDedup reads `a.storage`, which is the store and not
-- the transaction's: at that moment the transaction has written a company and no vacancy, so the two
-- answer alike.
use Prim.Native.String.{[], ◌∷◌}
use job_scout_ai.Prelude.{
  String, [], ◌∷◌, Bool, true, false, not, ◌&&◌, ◌||◌, List, ◌++◌, Option, none, some,
  if◌then◌else◌, Result, ok, err, not_found,
}
use job_scout_ai.Host.{Host}
use job_scout_ai.Strings.{is_nil, trim_space}
use job_scout_ai.Core.Types.{
  CandidateProfile, JobSource, Company, Vacancy, VacancyMatch, RawVacancy, NormalizedVacancy,
  HardFilterResult, ScoringResult, Recommendation, apply, review, Time,
}
use job_scout_ai.Core.VacancyStatus
use job_scout_ai.Core.VacancyStatus.{VacancyStatus}
use job_scout_ai.Core.Normalize.{normalize_string_list}
use job_scout_ai.Core.Resume.{is_blank}
use job_scout_ai.Store.Exec.{Exec, pure, lift, attempt, ◌>>=◌}
use job_scout_ai.Store.Memory.{find_vacancy_by_content_hash}

-- firstNonEmpty
unfoldable pub first_non_empty : List String → String
unfolding trim_space
first_non_empty [] = ""
first_non_empty (value ∷ values) =
    let rest = first_non_empty values in if is_blank value then rest else trim_space value

unfoldable pub hostname_from_url : Host → String → String
hostname_from_url h raw = elim (h.parse_url raw) [ none ↦ "" | some parsed ↦ h.hostname parsed ]

-- shouldPreserveStatus. The state of no existing vacancy is the zero value, `other ""`.
abbrev pub is_later : VacancyStatus → Bool
is_later VacancyStatus.archived = true
is_later VacancyStatus.rejected = true
is_later VacancyStatus.offer = true
is_later VacancyStatus.interview = true
is_later VacancyStatus.hr_contact = true
is_later VacancyStatus.submitted = true
is_later VacancyStatus.waiting_approval = true
is_later VacancyStatus.application_prepared = true
is_later VacancyStatus.viewed = true
is_later _ = false

unfoldable pub should_preserve_status : VacancyStatus → VacancyStatus → Bool
unfolding VacancyStatus.same VacancyStatus.to_text
should_preserve_status existing computed =
    not (is_nil (VacancyStatus.to_text existing) || VacancyStatus.same existing computed)
    && is_later existing

-- The answer of detectDedup: the primary vacancy and the reason, where there is one.
pub record DedupDecision : Type 0 where
  pub duplicate_of : Option String
  pub dedup_reason : Option String
  pub is_duplicate : Bool

abbrev pub no_duplicate : DedupDecision
no_duplicate = record { duplicate_of = none; dedup_reason = none; is_duplicate = false }

unfoldable pub dedup_of : Result Vacancy → Result DedupDecision
dedup_of (ok primary) = ok (record {
  duplicate_of = some primary.id;
  dedup_reason = some "CONTENT_HASH";
  is_duplicate = true;
})
dedup_of (err not_found) = ok no_duplicate
dedup_of (err e) = err e

unfoldable pub detect_dedup : String → Option Vacancy → Exec DedupDecision
unfolding ◌>>=◌ attempt find_vacancy_by_content_hash dedup_of
detect_dedup content_hash (some existing) = pure no_duplicate
detect_dedup content_hash none = do
  primary ← attempt (find_vacancy_by_content_hash content_hash)
  lift (dedup_of primary)

-- The vacancy as it is before it has a state.
unfoldable pub draft_vacancy :
    Host → JobSource → RawVacancy → NormalizedVacancy → Company → DedupDecision → Vacancy
unfolding normalize_string_list
draft_vacancy h source raw normalized company dedup = record {
  id = "";
  source_id = source.id;
  external_id = raw.external_id;
  source_url = raw.source_url;
  canonical_url = raw.canonical_url;
  title = raw.title;
  normalized_title = normalized.normalized_title;
  company_id = company.id;
  description = normalized.stripped_description;
  requirements = normalized.stripped_requirements;
  responsibilities = normalized.stripped_responsibilities;
  location = raw.location;
  remote_type = raw.remote_type;
  employment_type = raw.employment_type;
  grade = raw.grade;
  salary_from = raw.salary_from;
  salary_to = raw.salary_to;
  currency = raw.currency;
  skills = normalize_string_list h raw.skills;
  language_requirements = normalize_string_list h raw.language_requirements;
  work_authorization_requirements = normalize_string_list h raw.work_authorization_requirements;
  published_at = raw.published_at;
  collected_at = raw.collected_at;
  content_hash = normalized.content_hash;
  status = VacancyStatus.discovered;
  duplicate_of_vacancy_id = dedup.duplicate_of;
  dedup_reason = dedup.dedup_reason;
  created_at = 0;
  updated_at = 0;
}

abbrev pub is_recommended : Recommendation → Bool
is_recommended apply = true
is_recommended review = true
is_recommended _ = false

-- The state that the filters and the score give.
unfoldable pub computed_status : Bool → Bool → Recommendation → VacancyStatus
computed_status is_duplicate passed recommendation =
    if is_duplicate
    then VacancyStatus.duplicate
    else if not passed
    then VacancyStatus.filtered_out
    else if is_recommended recommendation
    then VacancyStatus.recommended
    else VacancyStatus.normalized

abbrev pub status_of : Option Vacancy → VacancyStatus
status_of none = VacancyStatus.other ""
status_of (some v) = v.status

-- The state that is stored: a later state of the existing vacancy is kept.
unfoldable pub stored_status : Option Vacancy → VacancyStatus → VacancyStatus
unfolding should_preserve_status
stored_status existing computed =
    if should_preserve_status (status_of existing) computed then status_of existing else computed

abbrev pub id_of : Option Vacancy → String
id_of none = ""
id_of (some v) = v.id

abbrev pub created_of : Option Vacancy → Time
created_of none = 0
created_of (some v) = v.created_at

unfoldable pub match_of :
    CandidateProfile → Vacancy → ScoringResult → HardFilterResult → Time → VacancyMatch
match_of profile vacancy score hard_filter time = record {
  id = "";
  vacancy_id = vacancy.id;
  candidate_profile_id = profile.id;
  total_score = score.total_score;
  skills_score = score.skills_score;
  experience_score = score.experience_score;
  location_score = score.location_score;
  salary_score = score.salary_score;
  grade_score = score.grade_score;
  role_score = score.role_score;
  positive_reasons = score.positive_reasons;
  negative_reasons = score.negative_reasons ++ hard_filter.reasons;
  missing_skills = score.missing_skills;
  hard_filter_passed = hard_filter.passed;
  calculated_at = time;
  scoring_version = score.version;
}

-- The existing vacancy, if the error of the search is ErrNotFound or none.
unfoldable pub existing_of : Result Vacancy → Result (Option Vacancy)
existing_of (ok v) = ok (some v)
existing_of (err not_found) = ok none
existing_of (err e) = err e
