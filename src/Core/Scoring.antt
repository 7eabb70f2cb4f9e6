-- ===== src/Core/Scoring.antt =====
-- internal/core/scoring.go: the configuration, the total and the recommendation. The sums over the weights, which
-- are settings, wrap at 64 bits.
pub mod Factors
pub mod Skills
pub mod Domain
pub mod Bounds
pub mod Total
pub mod Recommend
use job_scout_ai.Prelude.{
  ℕ, zero, suc, ◌+◌, ◌-◌, ◌*◌, ◌/◌, ◌%◌, ◌^◌, leb, ltb, wrap64, String, [], ◌∷◌, Bool, true, false,
  List, ◌++◌, if◌then◌else◌, not, ltb_ℤ, leb_ℤ, eqb_ℤ, ℤ, pos, negsuc, pos_part, neg_part, ◌+ℤ◌,
  ◌*ℤ◌, sub_ℕ, Result, ok, err, message,
}
use job_scout_ai.Host.{Host}
use job_scout_ai.Strings.{◌+++◌}
use job_scout_ai.Core.Decimal.{itoa}
use job_scout_ai.Core.Types.{
  CandidateProfile, Vacancy, Company, ScoringConfig, ScoringWeights, ScoringResult, Recommendation,
  apply, review, skip,
}
use job_scout_ai.Core.Lists.{dedupe_and_trim}
use Factors.{score_role, score_experience, score_grade, score_location, score_salary}
use Skills.{score_skills}
use Domain.{score_domain}

unfoldable pub default_scoring_config : ScoringConfig
default_scoring_config = record {
  weights = record {
    role_weight = pos 20;
    skills_weight = pos 30;
    experience_weight = pos 10;
    grade_weight = pos 10;
    location_weight = pos 10;
    salary_weight = pos 10;
    domain_weight = pos 10;
  };
  apply_threshold = pos 80;
  review_threshold = pos 55;
  version = "v1";
}

unfoldable pub weight_sum : ScoringWeights → ℤ
unfolding wrap64 ◌+ℤ◌
weight_sum w = wrap64 (
    w.role_weight +ℤ w.skills_weight +ℤ w.experience_weight +ℤ w.grade_weight +ℤ w.location_weight
    +ℤ w.salary_weight +ℤ w.domain_weight)

unfoldable pub validate : ScoringConfig → Result (Unit {0})
unfolding weight_sum ◌+ℤ◌
validate cfg =
    let sum = weight_sum cfg.weights in
    if not (eqb_ℤ sum (pos 100))
    then err (message ("scoring weights must sum to 100, got " +++ itoa sum))
    else if ltb_ℤ cfg.apply_threshold cfg.review_threshold
    then err (message "apply threshold must be >= review threshold")
    else ok tt

-- A number is a float64 as it is up to 2^53. Beyond, both the conversion and the quotient are rounded to 53 bits,
-- ties to even, and the quotient is then rounded to an integer, halves away from zero.
unfoldable pub bits : (fuel n : ℕ) → ℕ
bits zero n = 0
bits (suc fuel) n = let rest = bits fuel (n / 2) in if leb n 1 then 0 else suc rest

-- a / b to the nearest integer, ties to even.
unfoldable pub nearest_even : ℕ → ℕ → ℕ
nearest_even a b =
    let q = a / b in
    let r = a % b in if ltb (2 * r) b then q else if ltb b (2 * r) then q + 1 else q + q % 2

-- The float64 of a number of 54 to 64 bits.
unfoldable pub to_float : ℕ → ℕ
unfolding bits nearest_even
to_float n = let unit = 2 ^ (bits 64 n - 52) in nearest_even n unit * unit

-- A hundredth of such a float64, as a float64 rounded to an integer: below 2^52 it has binary places.
unfoldable pub float_hundredth : ℕ → ℕ
unfolding bits nearest_even
float_hundredth f =
    let size = bits 64 (f / 100) in
    let unit = 2 ^ (size - 52) in
    let places = 2 ^ (52 - size) in
    if leb 52 size
    then nearest_even f (100 * unit) * unit
    else (nearest_even (f * places) 100 + places / 2) / places

unfoldable pub hundredth : ℕ → ℕ
unfolding to_float float_hundredth
hundredth n = if leb n (2 ^ 53) then (n + 50) / 100 else float_hundredth (to_float n)

-- int(math.Round(float64(n) / 100))
unfoldable pub round_hundredth : ℤ → ℤ
unfolding hundredth
round_hundredth (pos n) = pos (hundredth n)
round_hundredth (negsuc n) = sub_ℕ 0 (hundredth (suc n))

unfoldable pub weighted_sum :
    ScoringWeights → (role skills experience grade location salary domain : ℕ) → ℤ
unfolding wrap64 ◌+ℤ◌ ◌*ℤ◌
weighted_sum w role skills experience grade location salary domain = wrap64 (
    pos role *ℤ w.role_weight
    +ℤ pos skills *ℤ w.skills_weight
    +ℤ pos experience *ℤ w.experience_weight
    +ℤ pos grade *ℤ w.grade_weight
    +ℤ pos location *ℤ w.location_weight
    +ℤ pos salary *ℤ w.salary_weight
    +ℤ pos domain *ℤ w.domain_weight)

unfoldable pub weighted_average :
    ScoringConfig → (role skills experience grade location salary domain : ℕ) → ℤ
unfolding round_hundredth weighted_sum ◌+ℤ◌ ◌*ℤ◌
weighted_average cfg role skills experience grade location salary domain =
    round_hundredth (weighted_sum cfg.weights role skills experience grade location salary domain)

-- The switch of ScoreVacancy.
unfoldable pub recommend : ScoringConfig → Bool → ℤ → Recommendation
recommend cfg hard_filter_passed total =
    if not hard_filter_passed
    then skip
    else if leb_ℤ cfg.apply_threshold total
    then apply
    else if leb_ℤ cfg.review_threshold total
    then review
    else skip

unfoldable pub score_vacancy :
    Host → CandidateProfile → Vacancy → Company → ScoringConfig → Bool → ScoringResult
unfolding weighted_average recommend
score_vacancy h profile vacancy company cfg hard_filter_passed =
    let role = score_role h profile vacancy in
    let skills = score_skills h profile vacancy in
    let experience = score_experience h profile vacancy in
    let grade = score_grade h profile vacancy in
    let location = score_location h profile vacancy in
    let (salary, warnings) = score_salary h profile vacancy in
    let domain = score_domain h profile vacancy company in
    let total =
      weighted_average cfg role.score skills.score experience.score grade.score location.score
        salary.score domain.score in
    record {
      total_score = total;
      role_score = role.score;
      skills_score = skills.score;
      experience_score = experience.score;
      location_score = location.score;
      salary_score = salary.score;
      grade_score = grade.score;
      domain_score = domain.score;
      positive_reasons = dedupe_and_trim (
          role.positives
          ++ (skills.positives
              ++ (experience.positives
                  ++ (grade.positives
                      ++ (location.positives ++ (salary.positives ++ domain.positives))))));
      negative_reasons = dedupe_and_trim (
          role.negatives
          ++ (skills.negatives
              ++ (experience.negatives
                  ++ (grade.negatives
                      ++ (location.negatives ++ (salary.negatives ++ domain.negatives))))));
      missing_skills = dedupe_and_trim skills.missing;
      warnings = dedupe_and_trim warnings;
      recommendation = recommend cfg hard_filter_passed total;
      hard_filter_passed = hard_filter_passed;
      version = cfg.version;
    }
