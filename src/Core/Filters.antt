-- ===== src/Core/Filters.antt =====
-- internal/core/filters.go: the conditions that a vacancy must meet whatever its score.
pub mod Age
pub mod Conditions
pub mod Verdict
use Prim.Native.String.{[], ◌∷◌}
use job_scout_ai.Prelude.{
  ℕ, ◌+◌, ◌-◌, ◌*◌, ◌%◌, ◌^◌, String, [], ◌∷◌, Bool, true, false, not, ◌&&◌, ◌||◌, List, ◌++◌,
  Option, none, some, is_empty, any, if◌then◌else◌, ltb, leb, ℤ, pos, negsuc, pos_part, ltb_ℤ,
}
use job_scout_ai.Host.{Host}
use job_scout_ai.Strings.{contains, join, is_nil}
use job_scout_ai.Core.Types.{CandidateProfile, Vacancy, Company, HardFilterResult, Time, is_zero}
use job_scout_ai.Core.Normalize.{normalize_text, normalize_location}
use job_scout_ai.Core.Lists.{dedupe_and_trim, meets_one, is_remote}

pub record FilterConfig : Type 0 where
  pub max_vacancy_age_days : ℤ

abbrev pub day : ℕ
day = 86400000000000

-- published.Before(now.Add(-time.Duration(days) * 24 * time.Hour)). The product is an int64 and wraps:
-- as a signed number it is -d for d up to 2^63, and 2^64 - d beyond.
unfoldable pub is_before_cutoff : Time → Time → ℕ → Bool
is_before_cutoff published now days =
    let d = (days * day) % 2 ^ 64 in
    if leb d (2 ^ 63) then ltb (published + d) now else ltb published (now + (2 ^ 64 - d))

abbrev pub reason_if : Bool → String → List String
reason_if b reason = if b then reason ∷ [] else []

module _ (h : Host) (profile : CandidateProfile) (vacancy : Vacancy) (company : Company) where
  unfoldable pub is_excluded_company : Bool
  unfolding any normalize_text contains
  is_excluded_company =
      let company_name = normalize_text h company.display_name in
      let normalized_company = normalize_text h company.normalized_name in
      any
        (λ excluded.
          let excluded = normalize_text h excluded in
          not (is_nil excluded)
          && (contains company_name excluded || contains normalized_company excluded))
        profile.excluded_companies

  unfoldable pub is_role_ok : Bool
  unfolding any normalize_text contains
  is_role_ok =
      any
        (λ role.
          let role = normalize_text h role in
          not (is_nil role)
          && (contains vacancy.normalized_title role
              || contains (normalize_text h vacancy.title) role))
        profile.desired_roles

  unfoldable pub is_location_ok : Bool
  unfolding any normalize_location contains
  is_location_ok =
      let location = normalize_location h vacancy.location in
      any
        (λ desired.
          let desired = normalize_location h desired in
          not (is_nil desired) && contains location desired)
        profile.desired_locations

  abbrev pub below_minimum : Option ℤ → Option ℤ → Bool
  below_minimum (some minimum) (some salary_to) = ltb_ℤ (pos 0) minimum && ltb_ℤ salary_to minimum
  below_minimum _ _ = false

  unfoldable pub has_stop_word : Bool
  unfolding any normalize_text contains join
  has_stop_word =
      let blob =
        join
          (normalize_text h vacancy.title
            ∷ normalize_text h vacancy.description
            ∷ normalize_text h vacancy.requirements
            ∷ normalize_text h vacancy.responsibilities
            ∷ normalize_text h company.display_name
            ∷ [])
          " " in
      any
        (λ stop_word.
          let stop = normalize_text h stop_word in not (is_nil stop) && contains blob stop)
        profile.stop_words

  unfoldable pub is_too_old : Time → FilterConfig → Bool
  unfolding is_before_cutoff
  is_too_old now cfg =
      ltb_ℤ (pos 0) cfg.max_vacancy_age_days
      && not (is_zero vacancy.published_at)
      && is_before_cutoff vacancy.published_at now (pos_part cfg.max_vacancy_age_days)

  -- The nine blocks, each with its reason.
  unfoldable pub filter_reasons : Time → FilterConfig → List String
  unfolding is_excluded_company is_role_ok is_remote is_location_ok meets_one has_stop_word
      is_too_old
  filter_reasons now cfg =
      reason_if company.blacklisted "company is blacklisted"
      ++ (reason_if is_excluded_company "company is in excluded list"
          ++ (reason_if (not (is_empty profile.desired_roles) && not is_role_ok)
                "role does not match allowed roles"
              ++ (reason_if
                    (not profile.remote_allowed && is_remote h vacancy.remote_type vacancy.location)
                    "remote work is not allowed by profile"
                  ++ (reason_if
                        (not (is_empty profile.desired_locations)
                          && not profile.relocation_allowed
                          && not is_location_ok
                          && not (is_nil vacancy.location))
                        "location is outside the allowed set"
                      ++ (reason_if (below_minimum profile.minimum_salary vacancy.salary_to)
                            "salary is below the minimum"
                          ++ (reason_if
                                (not (is_empty profile.work_authorization)
                                  && not (is_empty vacancy.work_authorization_requirements)
                                  && not (
                                      meets_one h profile.work_authorization
                                        vacancy.work_authorization_requirements))
                                "work authorization is not available"
                              ++ (reason_if has_stop_word "vacancy contains stop words"
                                  ++ reason_if (is_too_old now cfg) "vacancy is too old")))))))

  unfoldable pub apply_hard_filters : Time → FilterConfig → HardFilterResult
  unfolding filter_reasons dedupe_and_trim
  apply_hard_filters now cfg = record {
    passed = is_empty (filter_reasons now cfg);
    reasons = dedupe_and_trim (filter_reasons now cfg);
  }
