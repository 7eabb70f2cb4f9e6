-- ===== src/Core/Filters/Verdict.antt =====
-- When the hard filters let a vacancy pass.
use job_scout_ai.Prelude.{
  String, ◌≡◌, refl, ◌↔◌, Bool, true, false, List, ◌++◌, is_empty, pos, ◌≤ℤ◌,
}
use job_scout_ai.Host.{Host}
use job_scout_ai.Core.Types.{CandidateProfile, Vacancy, Company, Time}
use job_scout_ai.Core.Filters.{
  FilterConfig, reason_if, is_too_old, filter_reasons, apply_hard_filters,
}
use job_scout_ai.Core.Filters.Conditions.{
  Admissible, employer_iff, role_iff, words_iff, remote_iff, place_iff, salary_iff,
  authorization_iff, age_iff,
}

-- Every reason must be missing.
no_reason :
    (b : Bool) (reason : String) (rest : List String)
    → (is_empty (reason_if b reason ++ rest) ≡ true) ↔ ((b ≡ false) × (is_empty rest ≡ true))
no_reason true reason rest = (λ e. absurd (cc), λ h. absurd (cc (h.0)))
no_reason false reason rest = (λ e. (refl, e), λ h. h.1)

last_reason : (b : Bool) (reason : String) → (is_empty (reason_if b reason) ≡ true) ↔ (b ≡ false)
last_reason true reason = (λ e. absurd (cc), λ h. absurd (cc))
last_reason false reason = (λ e. refl, λ h. refl)

module _ (h : Host) (profile : CandidateProfile) (vacancy : Vacancy) (company : Company)
    (now : Time) (cfg : FilterConfig) where
  no_reasons-Admissible :
      cfg.max_vacancy_age_days ≤ℤ pos 106751
      → is_empty (filter_reasons h profile vacancy company now cfg) ≡ true
      → Admissible h profile vacancy company now cfg
  unfolding filter_reasons is_too_old
  no_reasons-Admissible small e =
      let (listed, e₁) = (no_reason _ _ _).0 e in
      let (employer, e₂) = (no_reason _ _ _).0 e₁ in
      let (role, e₃) = (no_reason _ _ _).0 e₂ in
      let (remote, e₄) = (no_reason _ _ _).0 e₃ in
      let (place, e₅) = (no_reason _ _ _).0 e₄ in
      let (salary, e₆) = (no_reason _ _ _).0 e₅ in
      let (authorization, e₇) = (no_reason _ _ _).0 e₆ in
      let (words, e₈) = (no_reason _ _ _).0 e₇ in
      record {
        listed = listed;
        employer = (employer_iff h profile vacancy company now cfg).0 employer;
        role = (role_iff h profile vacancy company now cfg).0 role;
        remote = (remote_iff h profile vacancy company now cfg).0 remote;
        place = (place_iff h profile vacancy company now cfg).0 place;
        salary = (salary_iff h profile vacancy company now cfg _ _).0 salary;
        authorization = (authorization_iff h profile vacancy company now cfg).0 authorization;
        words = (words_iff h profile vacancy company now cfg).0 words;
        age = (age_iff h profile vacancy company now cfg _ small).0 ((last_reason _ _).0 e₈);
      }

  Admissible-no_reasons :
      cfg.max_vacancy_age_days ≤ℤ pos 106751
      → Admissible h profile vacancy company now cfg
      → is_empty (filter_reasons h profile vacancy company now cfg) ≡ true
  unfolding filter_reasons is_too_old
  Admissible-no_reasons small a = (no_reason _ _ _).1 (
    a.listed,
    (no_reason _ _ _).1 (
      (employer_iff h profile vacancy company now cfg).1 a.employer,
      (no_reason _ _ _).1 (
        (role_iff h profile vacancy company now cfg).1 a.role,
        (no_reason _ _ _).1 (
          (remote_iff h profile vacancy company now cfg).1 a.remote,
          (no_reason _ _ _).1 (
            (place_iff h profile vacancy company now cfg).1 a.place,
            (no_reason _ _ _).1 (
              (salary_iff h profile vacancy company now cfg _ _).1 a.salary,
              (no_reason _ _ _).1 (
                (authorization_iff h profile vacancy company now cfg).1 a.authorization,
                (no_reason _ _ _).1 (
                  (words_iff h profile vacancy company now cfg).1 a.words,
                  (last_reason _ _).1 ((age_iff h profile vacancy company now cfg _ small).1 a.age),
                ),
              ),
            ),
          ),
        ),
      ),
    ),
  )

  -- For an age limit of at most 106751 days, a vacancy passes the hard filters exactly where it meets all nine
  -- conditions of Admissible: the company is neither blacklisted nor excluded by name, and the role, the
  -- remote work, the place, the salary, the work authorization, the words and the age fit the profile.
  pub apply_hard_filters-Admissible :
      cfg.max_vacancy_age_days ≤ℤ pos 106751
      → ((apply_hard_filters h profile vacancy company now cfg).passed ≡ true)
        ↔ Admissible h profile vacancy company now cfg
  unfolding apply_hard_filters
  apply_hard_filters-Admissible small = (no_reasons-Admissible small, Admissible-no_reasons small)
