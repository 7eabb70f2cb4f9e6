-- ===== src/Core/Scoring/Factors.antt =====
-- The factors of internal/core/scoring.go that look at one field: role, experience, grade, location and
-- salary. Each returns its score with the reasons for and against.
use Prim.Native.String.{[], ◌∷◌}
use job_scout_ai.Prelude.{
  ℕ, ◌+◌, String, [], ◌∷◌, Bool, not, ◌&&◌, ◌||◌, List, Option, none, some, is_empty, is_some, any,
  find, if◌then◌else◌, ◌==◌, leb, eqb, ℤ, pos, ltb_ℤ, leb_ℤ,
}
use job_scout_ai.Host.{Host}
use job_scout_ai.Strings.{◌+++◌, contains, is_nil, trim_space}
use job_scout_ai.Core.Decimal.{itoa}
use job_scout_ai.Core.Types.{CandidateProfile, Vacancy}
use job_scout_ai.Core.Normalize.{
  normalize_text, normalize_skill, normalize_string_list, normalize_location,
}
use job_scout_ai.Core.Lists.{is_remote}

pub record Factor : Type 0 where
  pub score : ℕ
  pub positives : List String
  pub negatives : List String

abbrev pub good : ℕ → String → Factor
good score reason = record { score = score; positives = reason ∷ []; negatives = [] }

abbrev pub bad : ℕ → String → Factor
bad score reason = record { score = score; positives = []; negatives = reason ∷ [] }

abbrev quiet : ℕ → Factor
quiet score = record { score = score; positives = []; negatives = [] }

unfoldable pub experience_rank : ℤ → ℕ
experience_rank years =
    if leb_ℤ years (pos 1)
    then 1
    else if leb_ℤ years (pos 4)
    then 2
    else if leb_ℤ years (pos 7)
    then 3
    else 4

-- The first entry of a preference list that fits decides.
abbrev pub first_fit : Option String → (String → Factor) → Factor → Factor
first_fit (some x) hit miss = hit x
first_fit none hit miss = miss

module _ (h : Host) where
  unfoldable pub grade_rank : String → ℕ
  unfolding normalize_text contains
  grade_rank grade =
      let grade = normalize_text h grade in
      if contains grade "trainee"
        || contains grade "intern"
        || contains grade "junior"
        || contains grade "jun"
      then 1
      else if contains grade "middle" || contains grade "mid"
      then 2
      else if contains grade "senior" || contains grade "sr"
      then 3
      else if contains grade "lead" || contains grade "principal" || contains grade "staff"
      then 4
      else 0

  module _ (profile : CandidateProfile) (vacancy : Vacancy) where
    unfoldable pub score_role : Factor
    unfolding normalize_string_list normalize_text find contains
    score_role =
        let desired = normalize_string_list h profile.desired_roles in
        let joined = vacancy.normalized_title +++ " " +++ normalize_text h vacancy.title in
        if is_empty desired
        then good 100 "profile has no role restriction"
        else first_fit
            (find (λ role. role == vacancy.normalized_title || contains joined role) desired)
            (λ role. good 100 ("role matches " +++ role))
            (bad 0 "role does not match desired roles")

    unfoldable pub score_experience : Factor
    unfolding grade_rank experience_rank
    score_experience =
        let required = grade_rank vacancy.grade in
        let candidate = experience_rank profile.years_of_commercial_experience in
        if eqb required 0
        then good 70 "vacancy grade is not explicit"
        else if leb required candidate
        then good 100 ("experience fits grade " +++ vacancy.grade)
        else if eqb (candidate + 1) required
        then bad 60 ("experience is slightly below grade " +++ vacancy.grade)
        else bad 0 ("experience is too low for grade " +++ vacancy.grade)

    unfoldable pub score_grade : Factor
    unfolding normalize_string_list normalize_skill find contains
    score_grade =
        let desired = normalize_string_list h profile.desired_grades in
        let vacancy_grade = normalize_skill h vacancy.grade in
        if is_empty desired
        then good 100 "profile has no grade restriction"
        else first_fit
            (find (λ grade. grade == vacancy_grade || contains vacancy_grade grade) desired)
            (λ grade. good 100 ("grade matches " +++ grade))
            (bad 30 "grade is outside the preferred range")

    unfoldable pub score_location : Factor
    unfolding is_remote normalize_location find contains
    score_location =
        let remote = is_remote h vacancy.remote_type vacancy.location in
        let location = normalize_location h vacancy.location in
        if remote && profile.remote_allowed
        then good 100 "remote format matches"
        else if is_empty profile.desired_locations
        then (if remote && not profile.remote_allowed
            then bad 0 "remote work is not allowed"
            else good 80 "location is not restricted")
        else first_fit
            (find
              (λ desired. not (is_nil location) && contains location (normalize_location h desired))
              profile.desired_locations)
            (λ desired. good 100 ("location matches " +++ desired))
            (if profile.relocation_allowed
              then good 60 "relocation is allowed by profile"
              else bad 0 "location does not match desired cities or regions")

    -- The bounds of the offer against a minimum that is set and positive.
    unfoldable pub salary_in_range : ℤ → Option ℤ → Option ℤ → Factor
    salary_in_range minimum (some from) none =
        if leb_ℤ minimum from
        then good 100 ("salary from " +++ itoa from +++ " meets minimum " +++ itoa minimum)
        else quiet 40
    salary_in_range minimum none (some to) =
        if ltb_ℤ to minimum then bad 0 ("salary is below minimum " +++ itoa minimum) else quiet 40
    salary_in_range minimum (some from) (some to) =
        if leb_ℤ minimum from
        then good 100 ("salary from " +++ itoa from +++ " meets minimum " +++ itoa minimum)
        else if ltb_ℤ to minimum
        then bad 0 ("salary is below minimum " +++ itoa minimum)
        else good 70 "salary range overlaps minimum"
    salary_in_range minimum none none = quiet 40

    unfoldable pub is_other_currency : Bool
    unfolding any trim_space
    is_other_currency =
        not (is_nil vacancy.currency)
        && not (is_empty profile.currencies)
        && not (
            any (λ currency. h.equal_fold (trim_space currency) (trim_space vacancy.currency))
              profile.currencies)

    unfoldable pub salary_for : Option ℤ → Factor × List String
    unfolding salary_in_range is_other_currency
    salary_for none = (good 100 "salary not constrained by profile", [])
    salary_for (some minimum) =
        if leb_ℤ minimum (pos 0)
        then (good 100 "salary not constrained by profile", [])
        else if not (is_some vacancy.salary_from) && not (is_some vacancy.salary_to)
        then (quiet 50, "salary is not specified" ∷ [])
        else if is_other_currency
        then (bad 20 "salary currency does not match profile", [])
        else (salary_in_range minimum vacancy.salary_from vacancy.salary_to, [])

    -- The score, and the warnings behind it.
    unfoldable pub score_salary : Factor × List String
    unfolding salary_for
    score_salary = salary_for profile.minimum_salary
