-- ===== src/Tests/Core.antt =====
-- The theorems on internal/core and on the lists of the store, at concrete inputs.
use Prim.Native.String.{count}
use job_scout_ai.Prelude.{◌^◌, panicked, elem, map, length, err, negsuc, none}
use job_scout_ai.Core.Types.{ScoringConfig}
use job_scout_ai.Strings.{is_nil}
use job_scout_ai.Core.Scoring.{weighted_average}
use job_scout_ai.Core.Lists.{dedupe_and_trim}
use job_scout_ai.Core.Lists.Distinct.{Distinct, dedupe_and_trim-Distinct}
use job_scout_ai.Store.Lists.{VacancyWithMatch, page_of}
use job_scout_ai.App.Vacancies.{vacancies_page}
use job_scout_ai.App.Vacancies.Paging.{vacancies_page_total}
use job_scout_ai.Tests.Fixtures.{world}
use job_scout_ai.Prelude.{
  ◌*◌, ◌+◌, ◌≤◌, ◌<◌, String, ◌≡◌, ◌≢◌, refl, ◌↔◌, ◌⊎◌, [], ◌∷◌, List, true, false, some, pos, ◌≤ℤ◌,
  ◌<ℤ◌, ok, arith,
}
use job_scout_ai.Strings.{trim_space}
use job_scout_ai.Core.Resume.{Resume}
use job_scout_ai.Core.Types.{apply, skip}
use job_scout_ai.Core.VacancyStatus
use job_scout_ai.Core.VacancyStatus.Text as VacancyText
use job_scout_ai.Core.VacancyStatus.Text.{vacancy_parse_iff}
use job_scout_ai.Core.VacancyStatus.Transitions.{vacancy_Moves_bound, can_transition-archived}
use job_scout_ai.Core.VacancyStatus.Transitions as VacancySteps
use job_scout_ai.Core.ApplicationStatus
use job_scout_ai.Core.ApplicationStatus.Text.{application_parse_iff, spelling}
use job_scout_ai.Core.ApplicationStatus.Transitions.{application_Moves_bound, Leaves}
use job_scout_ai.Core.ApplicationStatus.Transitions as Steps
use job_scout_ai.Core.Normalize.{normalize_string_list}
use job_scout_ai.Core.Filters.{is_before_cutoff, day, apply_hard_filters}
use job_scout_ai.Core.Filters.Conditions.{Admissible}
use job_scout_ai.Core.Filters.Verdict.{apply_hard_filters-Admissible}
use job_scout_ai.Core.Filters.Age.{is_before_cutoff-exact, is_before_cutoff-wrapped}
use job_scout_ai.Core.Scoring.{default_scoring_config, validate, score_vacancy}
use job_scout_ai.Core.Scoring.Total.{Weighted, score_vacancy_bounds}
use job_scout_ai.Core.Scoring.Recommend.{score_vacancy-recommendation}
use job_scout_ai.Core.Resume.{general_backend}
use job_scout_ai.Core.Resume.Select.{
  ResumeSelectionInput, select, overlap_count, infer_resume_target_role,
}
use job_scout_ai.Core.Resume.Select.Best.{Eligible, select-Eligible}
use job_scout_ai.Core.CoverLetter.{CoverLetterInput, generate}
use job_scout_ai.Core.CoverLetter.Length.{count-generate}
use job_scout_ai.Tests.Fixtures.{ascii_host, profile, vacancy, company, vacancy_match, resume}

is_before_cutoff-exact_example : (is_before_cutoff 500 1000 30 ≡ true) ↔ (500 + 30 * day < 1000)
is_before_cutoff-exact_example = is_before_cutoff-exact 500 1000 30 (omega arith)

is_before_cutoff-wrapped_example : is_before_cutoff 999 1000 200000 ≡ true
is_before_cutoff-wrapped_example =
    is_before_cutoff-wrapped 999 1000 200000 (omega arith) (omega arith) (omega arith)

application_parse_iff_example :
    (ApplicationStatus.parse "OFFER" ≡ ok ApplicationStatus.offer)
    ↔ (spelling ApplicationStatus.offer ≡ some "OFFER")
application_parse_iff_example = application_parse_iff "OFFER" ApplicationStatus.offer

vacancy_parse_iff_example :
    (VacancyStatus.parse "VIEWED" ≡ ok VacancyStatus.viewed)
    ↔ (VacancyText.spelling VacancyStatus.viewed ≡ some "VIEWED")
vacancy_parse_iff_example = vacancy_parse_iff "VIEWED" VacancyStatus.viewed

can_transition-archived_example :
    (VacancyStatus.can_transition VacancyStatus.viewed VacancyStatus.archived ≡ true)
    × (VacancyStatus.can_transition VacancyStatus.archived VacancyStatus.viewed ≡ true
        → VacancyStatus.viewed ≡ VacancyStatus.archived)
unfolding VacancyStatus.valid
can_transition-archived_example = can_transition-archived VacancyStatus.viewed refl

moved : Steps.Moves ApplicationStatus.submitted ApplicationStatus.offer 2
unfolding ApplicationStatus.valid ApplicationStatus.can_transition ApplicationStatus.same
moved =
    Steps.next (Steps.next Steps.here ApplicationStatus.interview refl refl refl)
      ApplicationStatus.offer refl refl refl

application_Moves_bound_example :
    (2 ≤ 7) × (0 < 2 → ApplicationStatus.submitted ≢ ApplicationStatus.offer)
application_Moves_bound_example = application_Moves_bound moved

vacancy_moved : VacancySteps.Moves VacancyStatus.discovered VacancyStatus.submitted 2
unfolding VacancyStatus.valid VacancyStatus.can_transition VacancyStatus.same
vacancy_moved =
    VacancySteps.next (VacancySteps.next VacancySteps.here VacancyStatus.recommended refl refl refl)
      VacancyStatus.submitted refl refl refl

vacancy_Moves_bound_example :
    (2 ≤ 10) × (0 < 2 → VacancyStatus.discovered ≢ VacancyStatus.submitted)
vacancy_Moves_bound_example = vacancy_Moves_bound vacancy_moved

default_is_valid : validate default_scoring_config ≡ ok tt
unfolding validate default_scoring_config
default_is_valid = refl

default-Weighted : Weighted default_scoring_config.weights
unfolding default_scoring_config
default-Weighted = record {
  role = omega arith;
  skills = omega arith;
  experience = omega arith;
  grade = omega arith;
  location = omega arith;
  salary = omega arith;
  domain = omega arith;
}

score_vacancy_bounds_example :
    let result = score_vacancy ascii_host profile vacancy company default_scoring_config true in
    (pos 0 ≤ℤ result.total_score)
    × (result.total_score ≤ℤ pos 100)
    × (result.role_score ≤ 100)
    × (result.skills_score ≤ 100)
    × (result.experience_score ≤ 100)
    × (result.grade_score ≤ 100)
    × (result.location_score ≤ 100)
    × (result.salary_score ≤ 100)
    × (result.domain_score ≤ 100)
score_vacancy_bounds_example =
    score_vacancy_bounds ascii_host profile vacancy company default_scoring_config true
      default_is_valid default-Weighted

score_vacancy-recommendation_example :
    let result = score_vacancy ascii_host profile vacancy company default_scoring_config true in
    ((result.recommendation ≡ apply)
      ↔ ((true ≡ true) × (default_scoring_config.apply_threshold ≤ℤ result.total_score)))
    × ((result.recommendation ≡ skip)
        ↔ ((true ≡ false) ⊎ (result.total_score <ℤ default_scoring_config.review_threshold)))
score_vacancy-recommendation_example =
    score_vacancy-recommendation ascii_host profile vacancy company default_scoring_config true
      default_is_valid

abbrev selection : String → ResumeSelectionInput
selection manual = record {
  manual_resume_id = manual;
  vacancy = vacancy;
  match = some vacancy_match;
  resumes = record resume { id = "other"; skills = [] } ∷ resume ∷ [];
}

selected : select ascii_host (selection " resume ") ≡ ok resume
unfolding select
selected = refl

selected_best : select ascii_host (selection "") ≡ ok resume
unfolding select
selected_best = refl

select-Eligible_example :
    let input = selection "" in
    let skills = normalize_string_list ascii_host vacancy.skills in
    let role = infer_resume_target_role ascii_host vacancy (some vacancy_match) in
    Eligible input.resumes role resume
    × ((c : Resume)
        → Eligible input.resumes role c
        → overlap_count ascii_host c.skills skills ≤ overlap_count ascii_host resume.skills skills)
unfolding trim_space
select-Eligible_example = select-Eligible ascii_host (selection "") resume refl selected_best

abbrev letter : CoverLetterInput
letter = record {
  candidate_name = "Ann";
  target_role = general_backend;
  commercial_experience_years = pos 3;
  project_experience = "";
  resume_skills = "sql" ∷ [];
  vacancy = vacancy;
  match = some vacancy_match;
  positive_reasons = "role matches backend" ∷ [];
  missing_skills = "docker" ∷ [];
  company_name = "globex";
}

count-generate_example : count (generate ascii_host letter) ≤ 1200
count-generate_example = count-generate ascii_host letter

apply_hard_filters-Admissible_example :
    ((apply_hard_filters ascii_host profile vacancy company 1000
        (record { max_vacancy_age_days = pos 30 })).passed
      ≡ true)
    ↔ Admissible ascii_host profile vacancy company 1000 (record { max_vacancy_age_days = pos 30 })
apply_hard_filters-Admissible_example =
    apply_hard_filters-Admissible ascii_host profile vacancy company 1000
      (record { max_vacancy_age_days = pos 30 }) (omega arith)

-- The vacancy passes indeed.
passes :
    (apply_hard_filters ascii_host profile vacancy company 1000
      (record { max_vacancy_age_days = pos 30 })).passed
    ≡ true
unfolding apply_hard_filters
passes = refl

abbrev reasons : List String
reasons = " a " ∷ "" ∷ "a" ∷ []

dedupe_and_trim-Distinct_example :
    Distinct (dedupe_and_trim reasons)
    × ((s : String)
        → (elem s (dedupe_and_trim reasons) ≡ true)
          ↔ ((is_nil s ≡ false) × (elem s (map trim_space reasons) ≡ true)))
dedupe_and_trim-Distinct_example = dedupe_and_trim-Distinct reasons

vacancies_page_total_example :
    ((items : List VacancyWithMatch) × (vacancies_page (pos 0) (pos 1000) none world
        ≡ (ok items, world))
      × (length items ≤ 100))
    × (vacancies_page (pos 92233720368547759) (pos 100) none world
        ≡ (err (panicked "slice bounds out of range"), world))
vacancies_page_total_example = vacancies_page_total (pos 0) (pos 1000) none world (omega arith)

-- A page number that the address may hold makes the product negative, and the slice panics.
page_overflows : page_of 92233720368547759 100 reasons ≡ err (panicked "slice bounds out of range")
unfolding page_of
page_overflows = refl

-- Validate accepts weights that are negative, and the total leaves the range of a percentage.
abbrev skewed : ScoringConfig
skewed = record default_scoring_config {
  weights = record default_scoring_config.weights {
    role_weight = negsuc 79;
    skills_weight = pos 130;
  };
}

skewed_total :
    (validate skewed ≡ ok tt) × (weighted_average skewed 0 100 100 100 100 100 100 ≡ pos 180)
unfolding validate weighted_average default_scoring_config
skewed_total = (refl, refl)

-- The sum of such weights wraps to 100, and so does the total leave its range.
abbrev huge : ScoringConfig
huge = record default_scoring_config {
  weights = record {
    role_weight = pos (2 ^ 62);
    skills_weight = pos (2 ^ 62);
    experience_weight = pos (2 ^ 62);
    grade_weight = pos (2 ^ 62);
    location_weight = pos 100;
    salary_weight = pos 0;
    domain_weight = pos 0;
  };
}

huge_total :
    (validate huge ≡ ok tt) × (weighted_average huge 50 0 0 0 0 0 0 ≡ negsuc 92233720368547759)
unfolding validate weighted_average default_scoring_config
huge_total = (refl, refl)
