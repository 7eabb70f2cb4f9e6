-- ===== src/Core/Scoring/Total.antt =====
-- The total of internal/core/scoring.go stays within 0 and 100.
use native.Mathlib.Nat.{mul-le-mul_right}
use job_scout_ai.Prelude.{
  ℕ, ◌+◌, ◌*◌, ◌≤◌, ◌<◌, ◌^◌, true, leb, wrap64, ◌≡◌, refl, sym, ap, ◌∙◌, Bool, arith, ℤ, pos,
  negsuc, pos_part, ◌+ℤ◌, ◌*ℤ◌, ◌≤ℤ◌, ok, eq_of_parts,
}
use job_scout_ai.Host.{Host}
use job_scout_ai.Core.Types.{CandidateProfile, Vacancy, Company, ScoringConfig, ScoringWeights}
use job_scout_ai.Core.Scoring.{
  weight_sum, validate, round_hundredth, hundredth, weighted_sum, weighted_average, score_vacancy,
}
use job_scout_ai.Core.Scoring.Bounds.{
  score_role_bound, score_experience_bound, score_grade_bound, score_location_bound,
  score_salary_bound, score_skills_bound, score_domain_bound,
}

-- No weight is negative, and none is above 2^60, so that the sum of the seven stays within 64 bits.
pub record Weighted (w : ScoringWeights) : Type 0 where
  pub role : (pos 0 ≤ℤ w.role_weight) × (w.role_weight ≤ℤ pos (2 ^ 60))
  pub skills : (pos 0 ≤ℤ w.skills_weight) × (w.skills_weight ≤ℤ pos (2 ^ 60))
  pub experience : (pos 0 ≤ℤ w.experience_weight) × (w.experience_weight ≤ℤ pos (2 ^ 60))
  pub grade : (pos 0 ≤ℤ w.grade_weight) × (w.grade_weight ≤ℤ pos (2 ^ 60))
  pub location : (pos 0 ≤ℤ w.location_weight) × (w.location_weight ≤ℤ pos (2 ^ 60))
  pub salary : (pos 0 ≤ℤ w.salary_weight) × (w.salary_weight ≤ℤ pos (2 ^ 60))
  pub domain : (pos 0 ≤ℤ w.domain_weight) × (w.domain_weight ≤ℤ pos (2 ^ 60))

round_hundredth_bound :
    (n : ℕ) → n ≤ 10000 → (pos 0 ≤ℤ round_hundredth (pos n)) × (round_hundredth (pos n) ≤ℤ pos 100)
unfolding round_hundredth hundredth
round_hundredth_bound n le =
    let small : leb n (2 ^ 53) ≡ true = ground (arith, le) in rw small (omega arith)

add_pos : (x y : ℤ) (a b : ℕ) → x ≡ pos a → y ≡ pos b → x +ℤ y ≡ pos (a + b)
unfolding ◌+ℤ◌
add_pos x y a b e f = rw (e, f) (ground arith)

wrap64-small : (n : ℕ) → n < 2 ^ 63 → wrap64 (pos n) ≡ pos n
unfolding wrap64
wrap64-small n lt = ground (arith, lt)

-- The integer is a number, of at most 100 times the weight `b`.
Share : ℤ → ℕ → Type 0
Share x b = (a : ℕ) × (x ≡ pos a) × (a ≤ 100 * b)

weighs : (score : ℕ) (w : ℤ) → score ≤ 100 → pos 0 ≤ℤ w → Share (pos score *ℤ w) (pos_part w)
unfolding ◌*ℤ◌ Share
weighs score (pos n) le p = (score * n, ground arith, mul-le-mul_right n le)
weighs score (negsuc n) le p = absurd (omega arith)

add-Share : (x y : ℤ) (b c : ℕ) → Share x b → Share y c → Share (x +ℤ y) (b + c)
unfolding Share
add-Share x y b c (m, e, le) (n, f, le') = (m + n, add_pos x y m n e f, omega arith)

is_pos : (w : ℤ) → pos 0 ≤ℤ w → w ≡ pos (pos_part w)
is_pos (pos n) p = refl
is_pos (negsuc n) p = absurd (omega arith)

part_bound : (x : ℤ) → pos 0 ≤ℤ x → x ≤ℤ pos (2 ^ 60) → pos_part x ≤ 2 ^ 60
part_bound (pos n) p le = omega (arith, le)
part_bound (negsuc n) p le = absurd (omega arith)

module _ (w : ScoringWeights) (weighted : Weighted w) where
  weight_total : ℕ
  weight_total =
      pos_part w.role_weight
      + pos_part w.skills_weight
      + pos_part w.experience_weight
      + pos_part w.grade_weight
      + pos_part w.location_weight
      + pos_part w.salary_weight
      + pos_part w.domain_weight

  plain_sum-total :
      w.role_weight +ℤ w.skills_weight +ℤ w.experience_weight +ℤ w.grade_weight +ℤ w.location_weight
        +ℤ w.salary_weight +ℤ w.domain_weight
      ≡ pos weight_total
  unfolding weight_total
  plain_sum-total =
      add_pos _ _ _ _
        (add_pos _ _ _ _
          (add_pos _ _ _ _
            (add_pos _ _ _ _
              (add_pos _ _ _ _
                (add_pos _ _ _ _ (is_pos _ weighted.role.0) (is_pos _ weighted.skills.0))
                (is_pos _ weighted.experience.0))
              (is_pos _ weighted.grade.0))
            (is_pos _ weighted.location.0))
          (is_pos _ weighted.salary.0))
        (is_pos _ weighted.domain.0)

  weight_total_bound : weight_total < 2 ^ 63
  unfolding weight_total
  weight_total_bound =
      let few = λ (x : ℤ) (b : (pos 0 ≤ℤ x) × (x ≤ℤ pos (2 ^ 60))). part_bound x b.0 b.1 in
      omega (
        arith,
        few _ weighted.role,
        few _ weighted.skills,
        few _ weighted.experience,
        few _ weighted.grade,
        few _ weighted.location,
        few _ weighted.salary,
        few _ weighted.domain,
      )

  weight_sum-total : weight_sum w ≡ pos weight_total
  unfolding weight_sum
  weight_sum-total = rw plain_sum-total (wrap64-small weight_total weight_total_bound)

  plain_sum-Share :
      (role skills experience grade location salary domain : ℕ)
      → role ≤ 100
      → skills ≤ 100
      → experience ≤ 100
      → grade ≤ 100
      → location ≤ 100
      → salary ≤ 100
      → domain ≤ 100
      → Share
          (pos role *ℤ w.role_weight
            +ℤ pos skills *ℤ w.skills_weight
            +ℤ pos experience *ℤ w.experience_weight
            +ℤ pos grade *ℤ w.grade_weight
            +ℤ pos location *ℤ w.location_weight
            +ℤ pos salary *ℤ w.salary_weight
            +ℤ pos domain *ℤ w.domain_weight)
          weight_total
  unfolding weight_total
  plain_sum-Share role skills experience grade location salary domain r s e g l p d =
      add-Share _ _ _ _
        (add-Share _ _ _ _
          (add-Share _ _ _ _
            (add-Share _ _ _ _
              (add-Share _ _ _ _
                (add-Share _ _ _ _ (weighs role _ r weighted.role.0)
                  (weighs skills _ s weighted.skills.0))
                (weighs experience _ e weighted.experience.0))
              (weighs grade _ g weighted.grade.0))
            (weighs location _ l weighted.location.0))
          (weighs salary _ p weighted.salary.0))
        (weighs domain _ d weighted.domain.0)

wrap-Share : (x : ℤ) (b : ℕ) → Share x b → b ≡ 100 → Share (wrap64 x) b
unfolding Share
wrap-Share x b (a, e, le) full = (a, rw e (wrap64-small a (omega (arith, le, full))), le)

sums_to_hundred : (cfg : ScoringConfig) → validate cfg ≡ ok tt → weight_sum cfg.weights ≡ pos 100
unfolding validate
sums_to_hundred cfg v = eq_of_parts _ _ (ground arith)

round-Share :
    (x : ℤ) (b : ℕ)
    → Share x b
    → b ≡ 100
    → (pos 0 ≤ℤ round_hundredth x) × (round_hundredth x ≤ℤ pos 100)
unfolding Share
round-Share x b (a, e, le) full = rw e (round_hundredth_bound a (omega (arith, le, full)))

-- The total score lies between 0 and 100, for every profile, vacancy and company, under a configuration
-- that Validate accepts and whose weights are between 0 and 2^60; the other scores are percentages always.
pub score_vacancy_bounds :
    (h : Host) (profile : CandidateProfile) (vacancy : Vacancy) (company : Company)
    (cfg : ScoringConfig) (passed : Bool)
    → validate cfg ≡ ok tt
    → Weighted cfg.weights
    → let result = score_vacancy h profile vacancy company cfg passed in
      (pos 0 ≤ℤ result.total_score)
      × (result.total_score ≤ℤ pos 100)
      × (result.role_score ≤ 100)
      × (result.skills_score ≤ 100)
      × (result.experience_score ≤ 100)
      × (result.grade_score ≤ 100)
      × (result.location_score ≤ 100)
      × (result.salary_score ≤ 100)
      × (result.domain_score ≤ 100)
unfolding score_vacancy weighted_average weighted_sum
score_vacancy_bounds h profile vacancy company cfg passed v weighted =
    let role = (score_role_bound h profile vacancy).bound in
    let skills = score_skills_bound h profile vacancy in
    let experience = (score_experience_bound h profile vacancy).bound in
    let grade = (score_grade_bound h profile vacancy).bound in
    let location = (score_location_bound h profile vacancy).bound in
    let salary = (score_salary_bound h profile vacancy).bound in
    let domain = (score_domain_bound h profile vacancy company).bound in
    let full = ap pos_part (sym (weight_sum-total cfg.weights weighted) ∙ sums_to_hundred cfg v) in
    let total =
      round-Share _ _
        (wrap-Share _ _
          (plain_sum-Share cfg.weights weighted _ _ _ _ _ _ _ role skills experience grade location
            salary domain)
          full)
        full in
    (total.0, total.1, role, skills, experience, grade, location, salary, domain)
