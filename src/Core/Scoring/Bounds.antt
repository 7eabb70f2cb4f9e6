-- ===== src/Core/Scoring/Bounds.antt =====
-- The scores of internal/core/scoring.go are percentages.
use native.Mathlib.Nat.{div-lt_iff_lt-mul}
use job_scout_ai.Prelude.{
  ℕ, ◌+◌, ◌*◌, ◌/◌, ◌≤◌, String, [], ◌∷◌, ◌≡◌, refl, Bool, true, false, List, Option, none, some,
  if◌then◌else◌, arith, ℤ, Dict, map, leb, ◌<◌,
}
use job_scout_ai.Host.{Host}
use job_scout_ai.Core.Types.{CandidateProfile, Vacancy, Company}
use job_scout_ai.Core.Normalize.{normalize_skill}
use job_scout_ai.Core.Scoring.Factors.{
  Factor, first_fit, score_role, score_experience, score_grade, score_location, salary_in_range,
  salary_for, score_salary,
}
use job_scout_ai.Core.Scoring.Skills.{
  Tally, tally, percentage, score_tally, score_skills, required_skills,
}
use job_scout_ai.Core.Scoring.Domain.{
  lower_by, with_employment, score_employment, score_blacklist, score_languages,
  score_authorization, or_neutral, score_domain,
}

pub record IsPercentage (f : Factor) : Type 0 where
  pub bound : f.score ≤ 100

if-IsPercentage :
    (b : Bool) (f g : Factor) → IsPercentage f → IsPercentage g → IsPercentage (if b then f else g)
if-IsPercentage true f g h k = h
if-IsPercentage false f g h k = k

first_fit-IsPercentage :
    (o : Option String) (hit : String → Factor) (miss : Factor)
    → ((s : String) → IsPercentage (hit s))
    → IsPercentage miss
    → IsPercentage (first_fit o hit miss)
first_fit-IsPercentage none hit miss h k = k
first_fit-IsPercentage (some s) hit miss h k = h s

fits :
    (n : ℕ) (p q : List String)
    → leb n 100 ≡ true
    → IsPercentage (record { score = n; positives = p; negatives = q })
fits n p q le = record { bound = ground arith }

ruleset percentage_rules = (if-IsPercentage, first_fit-IsPercentage, fits)

module _ (h : Host) (profile : CandidateProfile) (vacancy : Vacancy) where
  pub score_role_bound : IsPercentage (score_role h profile vacancy)
  unfolding score_role
  score_role_bound = search percentage_rules

  pub score_experience_bound : IsPercentage (score_experience h profile vacancy)
  unfolding score_experience
  score_experience_bound = search percentage_rules

  pub score_grade_bound : IsPercentage (score_grade h profile vacancy)
  unfolding score_grade
  score_grade_bound = search percentage_rules

  pub score_location_bound : IsPercentage (score_location h profile vacancy)
  unfolding score_location
  score_location_bound = search percentage_rules

  salary_in_range_bound :
      (minimum : ℤ) (from to : Option ℤ)
      → IsPercentage (salary_in_range h profile vacancy minimum from to)
  unfolding salary_in_range
  salary_in_range_bound minimum none none = search percentage_rules
  salary_in_range_bound minimum none (some to) = search percentage_rules
  salary_in_range_bound minimum (some from) none = search percentage_rules
  salary_in_range_bound minimum (some from) (some to) = search percentage_rules

  salary_for_bound : (o : Option ℤ) → IsPercentage (salary_for h profile vacancy o).0
  unfolding salary_for
  salary_for_bound none = search percentage_rules
  salary_for_bound (some minimum) = record {
    bound =
        ground (arith, (salary_in_range_bound minimum vacancy.salary_from vacancy.salary_to).bound);
  }

  pub score_salary_bound : IsPercentage (score_salary h profile vacancy).0
  unfolding score_salary
  score_salary_bound = salary_for_bound profile.minimum_salary

  lower_by_bound :
      (k : ℕ) (b : Bool) (reason : String) (f : Factor)
      → IsPercentage f
      → IsPercentage (lower_by k b reason f)
  unfolding lower_by
  lower_by_bound k b reason f p = record { bound = ground (arith, p.bound) }

  with_employment_bound :
      (o : Option String) (f : Factor) → IsPercentage f → IsPercentage (with_employment o f)
  with_employment_bound none f p = record { bound = omega (arith, p.bound) }
  with_employment_bound (some s) f p = record { bound = p.bound }

  module _ (company : Company) where
    or_neutral_bound :
        (f : Factor) → IsPercentage f → IsPercentage (or_neutral h profile vacancy company f)
    or_neutral_bound f p = if-IsPercentage _ _ _ (record { bound = p.bound }) p

    score_employment_bound :
        (f : Factor) → IsPercentage f → IsPercentage (score_employment h profile vacancy company f)
    unfolding score_employment
    score_employment_bound f p = if-IsPercentage _ _ _ p (with_employment_bound _ f p)

    score_blacklist_bound :
        (f : Factor) → IsPercentage f → IsPercentage (score_blacklist h profile vacancy company f)
    unfolding score_blacklist
    score_blacklist_bound f p = search percentage_rules

    pub score_domain_bound : IsPercentage (score_domain h profile vacancy company)
    unfolding score_domain score_languages score_authorization
    score_domain_bound = if-IsPercentage _ _ _ (fits 100 _ _ refl) (
        or_neutral_bound _ (
          lower_by_bound 30 _ _ _ (
            lower_by_bound 20 _ _ _
              (score_blacklist_bound _ (score_employment_bound _ (fits 100 [] [] refl))))))

tally_bound :
    (excluded offered : List String) (required : Dict ℕ)
    → let t = tally excluded offered required in t.matched_weight ≤ t.total_weight
unfolding tally
tally_bound excluded offered [] = omega arith
tally_bound excluded offered ((skill, weight) ∷ required) =
    ground (arith, tally_bound excluded offered required)

percentage_bound : (m t : ℕ) → m ≤ t → 1 ≤ t → percentage m t ≤ 100
unfolding percentage
percentage_bound m t le p =
    let lt : (200 * m + t) / (2 * t) < 101 =
      (div-lt_iff_lt-mul {k = 2 * t} {x = 200 * m + t} {y = 101} (omega arith)).1 (omega arith) in
    omega (arith, lt)

score_tally_bound : (t : Tally) → t.matched_weight ≤ t.total_weight → (score_tally t).score ≤ 100
unfolding score_tally
score_tally_bound t le = ground (arith, percentage_bound t.matched_weight t.total_weight le)

pub score_skills_bound :
    (h : Host) (profile : CandidateProfile) (vacancy : Vacancy)
    → (score_skills h profile vacancy).score ≤ 100
unfolding score_skills
score_skills_bound h profile vacancy = ground (
  arith,
  score_tally_bound
      (tally (map (normalize_skill h) profile.excluded_skills)
        (map (normalize_skill h) vacancy.skills) (required_skills h profile))
      (tally_bound (map (normalize_skill h) profile.excluded_skills)
        (map (normalize_skill h) vacancy.skills) (required_skills h profile)),
)
