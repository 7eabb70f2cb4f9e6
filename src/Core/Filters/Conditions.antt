-- ===== src/Core/Filters/Conditions.antt =====
-- What a vacancy needs to pass the hard filters, and the test for each need.
use mathlib.Core.Path.{subst}
use job_scout_ai.Prelude.{
  ℕ, ◌+◌, ◌*◌, ◌≤◌, String, ◌≡◌, refl, ◌↔◌, ◌⊎◌, inl, inr, Bool, true, false, not, ◌&&◌, ◌||◌, [],
  ◌∷◌, Option, none, some, is_empty, List, elem, map, any, ◌==◌, eq_iff, All, Some, any-Some,
  any-All_not, is_empty-nil, arith, ℤ, pos, negsuc, ◌≤ℤ◌, ◌<ℤ◌, pos_part, ltb_ℤ,
}
use job_scout_ai.Host.{Host}
use job_scout_ai.Strings.{contains, join, is_nil}
use job_scout_ai.Core.Types.{CandidateProfile, Vacancy, Company, Time, is_zero}
use job_scout_ai.Core.Normalize.{normalize_text, normalize_location, normalize_skill}
use job_scout_ai.Core.Lists.{meets_one, is_remote}
use job_scout_ai.Core.Filters.{
  FilterConfig, day, below_minimum, is_excluded_company, is_role_ok, is_location_ok, has_stop_word,
  is_before_cutoff,
}
use job_scout_ai.Core.Filters.Age.{is_before_cutoff-exact}

through : {A B C : Type 0} → A ↔ B → B ↔ C → A ↔ C
through f g = (λ a. g.0 (f.0 a), λ c. f.1 (g.1 c))

-- A reason is given where every guard fails.
module _ {C X : Type 0} where
  either_way : (x c : Bool) → (x ≡ false) ↔ X → (c ≡ true) ↔ C → (x && not c ≡ false) ↔ (X ⊎ C)
  either_way true true f d = (λ e. inr (d.0 refl), λ s. refl)
  either_way true false f d =
      (λ e. absurd (cc), λ s. elim s [ inl y ↦ absurd (cc (f.1 y)) | inr y ↦ absurd (cc (d.1 y)) ])
  either_way false c f d = (λ e. inl (f.0 refl), λ s. refl)

last_way : (b : Bool) → (not b ≡ false) ↔ (b ≡ true)
last_way b = (λ e. ground arith, λ e. ground arith)

or_same : (a b c : Bool) → (b ≡ true → c ≡ true) → (a || b) ≡ true → (a || c) ≡ true
or_same true b c f e = refl
or_same false b c f e = f e

itself : (b : Bool) → (b ≡ true) ↔ (b ≡ true)
itself b = (λ e. e, λ e. e)

module _ (h : Host) (profile : CandidateProfile) (vacancy : Vacancy) (company : Company)
    (now : Time) (cfg : FilterConfig) where
  -- A word of the profile that is not blank once it is normalized stands in the text.
  abbrev pub Stands : String → String → Type 0
  Stands word text = (is_nil word ≡ false) × (contains text word ≡ true)

  abbrev pub blob : String
  blob =
      join
        (normalize_text h vacancy.title
          ∷ normalize_text h vacancy.description
          ∷ normalize_text h vacancy.requirements
          ∷ normalize_text h vacancy.responsibilities
          ∷ normalize_text h company.display_name
          ∷ [])
        " "

  -- What a vacancy needs, clause by clause.
  pub record Admissible : Type 0 where
    pub listed : company.blacklisted ≡ false
    pub employer :
        All
          (λ e. ¬ (
            Stands (normalize_text h e) (normalize_text h company.display_name)
            ⊎ Stands (normalize_text h e) (normalize_text h company.normalized_name)))
          profile.excluded_companies
    pub role :
        (profile.desired_roles ≡ [])
        ⊎ Some
            (λ r.
              Stands (normalize_text h r) vacancy.normalized_title
              ⊎ Stands (normalize_text h r) (normalize_text h vacancy.title))
            profile.desired_roles
    pub remote :
        (contains (normalize_text h vacancy.remote_type) "remote" ≡ true)
          ⊎ (contains (normalize_text h vacancy.location) "remote" ≡ true)
        → profile.remote_allowed ≡ true
    pub place :
        (((profile.desired_locations ≡ []) ⊎ (profile.relocation_allowed ≡ true))
          ⊎ Some
              (λ l. Stands (normalize_location h l) (normalize_location h vacancy.location))
              profile.desired_locations)
        ⊎ (is_nil vacancy.location ≡ true)
    pub salary :
        (minimum offer : ℤ)
        → profile.minimum_salary ≡ some minimum
        → vacancy.salary_to ≡ some offer
        → pos 0 <ℤ minimum
        → minimum ≤ℤ offer
    pub authorization :
        ((profile.work_authorization ≡ []) ⊎ (vacancy.work_authorization_requirements ≡ []))
        ⊎ Some
            (λ own.
              Some
                (λ asked. normalize_skill h asked ≡ normalize_skill h own)
                vacancy.work_authorization_requirements)
            profile.work_authorization
    pub words : All (λ w. ¬ Stands (normalize_text h w) blob) profile.stop_words
    pub age :
        (days : ℕ)
        → cfg.max_vacancy_age_days ≡ pos days
        → 1 ≤ days
        → 1 ≤ vacancy.published_at
        → now ≤ vacancy.published_at + days * day

  names :
      (w a b : String)
      → (not (is_nil w) && (contains a w || contains b w) ≡ true) ↔ (Stands w a ⊎ Stands w b)
  names w a b = (λ e. ground arith, λ e. ground arith)

  stands : (w a : String) → (not (is_nil w) && contains a w ≡ true) ↔ Stands w a
  stands w a = (λ e. ground arith, λ e. ground arith)

  pub employer_iff :
      (is_excluded_company h profile vacancy company ≡ false)
      ↔ All
          (λ e. ¬ (
            Stands (normalize_text h e) (normalize_text h company.display_name)
            ⊎ Stands (normalize_text h e) (normalize_text h company.normalized_name)))
          profile.excluded_companies
  unfolding is_excluded_company
  employer_iff = any-All_not _ _ (λ e. names _ _ _) profile.excluded_companies

  pub role_iff :
      (not (is_empty profile.desired_roles) && not (is_role_ok h profile vacancy company) ≡ false)
      ↔ ((profile.desired_roles ≡ [])
          ⊎ Some
              (λ r.
                Stands (normalize_text h r) vacancy.normalized_title
                ⊎ Stands (normalize_text h r) (normalize_text h vacancy.title))
              profile.desired_roles)
  unfolding is_role_ok
  role_iff =
      either_way _ _ (through (last_way _) (is_empty-nil profile.desired_roles))
        (any-Some _ _ (λ r. names _ _ _) profile.desired_roles)

  pub words_iff :
      (has_stop_word h profile vacancy company ≡ false)
      ↔ All (λ w. ¬ Stands (normalize_text h w) blob) profile.stop_words
  unfolding has_stop_word
  words_iff = any-All_not _ _ (λ w. stands _ _) profile.stop_words

  remote_refused :
      (allowed type place : Bool)
      → ((type ≡ true) ⊎ (place ≡ true) → allowed ≡ true)
      → not allowed && (type || place) ≡ false
  remote_refused true type place f = refl
  remote_refused false true place f = absurd (cc (f (inl refl)))
  remote_refused false false true f = absurd (cc (f (inr refl)))
  remote_refused false false false f = refl

  pub remote_iff :
      (not profile.remote_allowed && is_remote h vacancy.remote_type vacancy.location ≡ false) ↔ (
        (contains (normalize_text h vacancy.remote_type) "remote" ≡ true)
          ⊎ (contains (normalize_text h vacancy.location) "remote" ≡ true)
        → profile.remote_allowed ≡ true)
  unfolding is_remote
  remote_iff =
      (λ e r. elim r [ inl y ↦ ground arith | inr y ↦ ground arith ], λ f. remote_refused _ _ _ f)

  pub place_iff :
      (not (is_empty profile.desired_locations)
          && not profile.relocation_allowed
          && not (is_location_ok h profile vacancy company)
          && not (is_nil vacancy.location)
        ≡ false)
      ↔ ((((profile.desired_locations ≡ []) ⊎ (profile.relocation_allowed ≡ true))
            ⊎ Some
                (λ l. Stands (normalize_location h l) (normalize_location h vacancy.location))
                profile.desired_locations)
          ⊎ (is_nil vacancy.location ≡ true))
  unfolding is_location_ok
  place_iff =
      either_way _ _
        (either_way _ _
          (either_way _ _ (through (last_way _) (is_empty-nil profile.desired_locations))
            (itself _))
          (any-Some _ _ (λ l. stands _ _) profile.desired_locations))
        (itself _)

  pub salary_iff :
      (m o : Option ℤ)
      → (below_minimum h profile vacancy company m o ≡ false) ↔ (
          (minimum offer : ℤ)
          → m ≡ some minimum
          → o ≡ some offer
          → pos 0 <ℤ minimum
          → minimum ≤ℤ offer)
  salary_iff none o = (λ e minimum offer a b l. absurd (cc), λ f. refl)
  salary_iff (some m) none = (λ e minimum offer a b l. absurd (cc), λ f. refl)
  salary_iff (some m) (some o) = (
    λ e minimum offer a b l.
        let same : m ≡ minimum = cc in
        let offered : o ≡ offer = cc in
        let holds : pos 0 <ℤ m → m ≤ℤ o = λ k. ground arith in
        subst (λ x. pos 0 <ℤ x → x ≤ℤ offer) same (subst (λ y. pos 0 <ℤ m → m ≤ℤ y) offered holds)
          l,
    λ f. let at_it = f m o refl refl in ground arith,
  )

  asked :
      (s : String) (required : List String)
      → (elem s (map (normalize_skill h) required) ≡ true)
        ↔ (any (λ a. normalize_skill h a == s) required ≡ true)
  unfolding elem any
  asked s [] = itself false
  asked s (r ∷ required) =
      let (to, from) = asked s required in (or_same _ _ _ to, or_same _ _ _ from)

  asks :
      (s : String) (required : List String)
      → (elem s (map (normalize_skill h) required) ≡ true)
        ↔ Some (λ asked. normalize_skill h asked ≡ s) required
  asks s required = through (asked s required) (any-Some _ _ (λ a. eq_iff _ _) required)

  pub authorization_iff :
      (not (is_empty profile.work_authorization)
          && not (is_empty vacancy.work_authorization_requirements)
          && not (meets_one h profile.work_authorization vacancy.work_authorization_requirements)
        ≡ false)
      ↔ (((profile.work_authorization ≡ []) ⊎ (vacancy.work_authorization_requirements ≡ []))
          ⊎ Some
              (λ own.
                Some
                  (λ asked. normalize_skill h asked ≡ normalize_skill h own)
                  vacancy.work_authorization_requirements)
              profile.work_authorization)
  unfolding meets_one
  authorization_iff =
      either_way _ _
        (either_way _ _ (through (last_way _) (is_empty-nil profile.work_authorization))
          (is_empty-nil vacancy.work_authorization_requirements))
        (any-Some _ _ (λ own. asks _ vacancy.work_authorization_requirements)
          profile.work_authorization)

  pub age_iff :
      (d : ℤ)
      → d ≤ℤ pos 106751
      → (ltb_ℤ (pos 0) d
            && not (is_zero vacancy.published_at)
            && is_before_cutoff vacancy.published_at now (pos_part d)
          ≡ false)
        ↔ ((days : ℕ)
            → d ≡ pos days
            → 1 ≤ days
            → 1 ≤ vacancy.published_at
            → now ≤ vacancy.published_at + days * day)
  age_iff (negsuc n) le = (λ e days p. absurd (cc), λ f. ground arith)
  age_iff (pos n) le = (
    λ e days p one set.
        let same : n ≡ days = cc in
        let exact = is_before_cutoff-exact vacancy.published_at now n (omega (arith, le)) in
        subst (λ k. now ≤ vacancy.published_at + k * day) same (ground (arith, exact.1, same)),
    λ f.
        let exact = is_before_cutoff-exact vacancy.published_at now n (omega (arith, le)) in
        let at_n = f n refl in ground (arith, exact.0, at_n),
  )
