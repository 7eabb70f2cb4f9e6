-- ===== src/Core/Scoring/Recommend.antt =====
-- What the recommendation of ScoreVacancy says of the filter and the thresholds.
use job_scout_ai.Prelude.{
  ◌≡◌, ◌↔◌, ◌⊎◌, inl, inr, Bool, true, false, ℤ, ◌≤ℤ◌, ◌<ℤ◌, ok, arith, Bool-cases,
}
use job_scout_ai.Host.{Host}
use job_scout_ai.Core.Types.{CandidateProfile, Vacancy, Company, ScoringConfig, apply, skip}
use job_scout_ai.Core.Scoring.{validate, recommend, score_vacancy}

-- The second check of Validate.
ordered : (cfg : ScoringConfig) → validate cfg ≡ ok tt → cfg.review_threshold ≤ℤ cfg.apply_threshold
unfolding validate
ordered cfg v = ground arith

module _ (cfg : ScoringConfig) (passed : Bool) (total : ℤ) where
  recommend-apply :
      (recommend cfg passed total ≡ apply) ↔ ((passed ≡ true) × (cfg.apply_threshold ≤ℤ total))
  unfolding recommend
  recommend-apply = (λ e. ground arith, λ h. ground arith)

  recommend-skip :
      cfg.review_threshold ≤ℤ cfg.apply_threshold
      → (recommend cfg passed total ≡ skip) ↔ ((passed ≡ false) ⊎ (total <ℤ cfg.review_threshold))
  unfolding recommend
  recommend-skip le = (
    λ e. elim (Bool-cases passed) [ inl y ↦ inr (ground arith) | inr n ↦ inl n ],
    λ h. ground arith,
  )

-- Under a configuration that Validate accepts, ScoreVacancy recommends to apply exactly where the hard
-- filter passed and the total reaches the apply threshold, and to skip exactly where the filter failed
-- or the total is below the review threshold.
pub score_vacancy-recommendation :
    (h : Host) (profile : CandidateProfile) (vacancy : Vacancy) (company : Company)
    (cfg : ScoringConfig) (passed : Bool)
    → validate cfg ≡ ok tt
    → let result = score_vacancy h profile vacancy company cfg passed in
      ((result.recommendation ≡ apply)
        ↔ ((passed ≡ true) × (cfg.apply_threshold ≤ℤ result.total_score)))
      × ((result.recommendation ≡ skip)
          ↔ ((passed ≡ false) ⊎ (result.total_score <ℤ cfg.review_threshold)))
unfolding score_vacancy
score_vacancy-recommendation h profile vacancy company cfg passed v =
    (recommend-apply cfg passed _, recommend-skip cfg passed _ (ordered cfg v))
