-- ===== src/Core/Scoring/Domain.antt =====
-- scoreDomain of internal/core/scoring.go: employment type, blacklist, languages and work authorization.
use Prim.Native.String.{[], ◌∷◌}
use job_scout_ai.Prelude.{
  ℕ, String, [], ◌∷◌, Bool, not, ◌&&◌, ◌++◌, Option, none, some, is_empty, find, if◌then◌else◌,
  ◌==◌, ◌-◌,
}
use job_scout_ai.Host.{Host}
use job_scout_ai.Strings.{◌+++◌}
use job_scout_ai.Core.Types.{CandidateProfile, Vacancy, Company}
use job_scout_ai.Core.Normalize.{normalize_skill}
use job_scout_ai.Core.Lists.{meets_one}
use job_scout_ai.Core.Scoring.Factors.{Factor, good}

-- One block of the function: from a factor to the next. A score below 0 is put to 0 at the end, and no
-- block adds to it, so a difference that stops at 0 gives the same.
unfoldable pub lower_by : ℕ → Bool → String → Factor → Factor
lower_by k holds reason f =
    if holds then record f { score = f.score - k; negatives = f.negatives ++ reason ∷ [] } else f

abbrev pub with_employment : Option String → Factor → Factor
with_employment (some desired) f = record f {
  positives = f.positives ++ ("employment type matches " +++ desired) ∷ [];
}
with_employment none f = record f {
  score = f.score - 30;
  negatives = f.negatives ++ "employment type differs from profile" ∷ [];
}

module _ (h : Host) (profile : CandidateProfile) (vacancy : Vacancy) (company : Company) where
  unfoldable pub score_employment : Factor → Factor
  unfolding normalize_skill find
  score_employment f =
      let employment = normalize_skill h vacancy.employment_type in
      if is_empty profile.employment_types
      then f
      else with_employment
          (find (λ desired. normalize_skill h desired == employment) profile.employment_types) f

  unfoldable pub score_blacklist : Factor → Factor
  score_blacklist f =
      if company.blacklisted
      then record f { score = 0; negatives = f.negatives ++ "company is blacklisted" ∷ [] }
      else f

  unfoldable pub score_languages : Factor → Factor
  unfolding meets_one lower_by
  score_languages =
      lower_by 20
        (not (is_empty vacancy.language_requirements)
          && not (is_empty profile.languages)
          && not (meets_one h profile.languages vacancy.language_requirements))
        "language requirements are not satisfied"

  unfoldable pub score_authorization : Factor → Factor
  unfolding meets_one lower_by
  score_authorization =
      lower_by 30
        (not (is_empty profile.work_authorization)
          && not (is_empty vacancy.work_authorization_requirements)
          && not (meets_one h profile.work_authorization vacancy.work_authorization_requirements))
        "work authorization requirement is not satisfied"

  abbrev pub or_neutral : Factor → Factor
  or_neutral f =
      if is_empty f.positives && is_empty f.negatives
      then record f { positives = "domain constraints are neutral" ∷ [] }
      else f

  unfoldable pub score_domain : Factor
  unfolding score_employment score_blacklist score_languages score_authorization
  score_domain =
      if is_empty profile.employment_types
        && is_empty profile.languages
        && is_empty profile.work_authorization
      then good 100 "no extra domain constraints"
      else or_neutral (
          score_authorization (
            score_languages (
              score_blacklist
                (score_employment (record { score = 100; positives = []; negatives = [] })))))
