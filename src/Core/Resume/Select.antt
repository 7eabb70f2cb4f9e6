-- ===== src/Core/Resume/Select.antt =====
-- DeterministicResumeSelector of internal/core/resume.go.
pub mod Order
pub mod Best
use Prim.Native.String.{[], ◌∷◌, compare}
use Prim.Native.Nat.{Ordering}
use job_scout_ai.Prelude.{
  ℕ, suc, String, [], ◌∷◌, Bool, true, false, not, ◌&&◌, ◌||◌, List, ◌++◌, map, Option, none, some,
  is_empty, any, find, keep, elem, if◌then◌else◌, ◌==◌, ltb, eqb, Result, ok, err, resume_not_found,
  no_suitable_resume,
}
use job_scout_ai.Host.{Host}
use job_scout_ai.Strings.{◌+++◌, contains, is_nil, join, trim_space}
use job_scout_ai.Core.Types.{Vacancy, VacancyMatch}
use job_scout_ai.Core.Normalize.{normalize_text, normalize_string_list}
use job_scout_ai.Core.Resume.{
  Resume, ResumeTargetRole, go_backend, python_backend, system_analyst, general_backend, role_text,
}

pub record ResumeSelectionInput : Type 0 where
  pub manual_resume_id : String
  pub vacancy : Vacancy
  pub match : Option VacancyMatch
  pub resumes : List Resume

-- Go's == on the string type.
unfoldable pub same_role : ResumeTargetRole → ResumeTargetRole → Bool
unfolding role_text
same_role a b = role_text a == role_text b

unfoldable pub filter_resumes_by_role : List Resume → ResumeTargetRole → Bool → List Resume
unfolding keep same_role
filter_resumes_by_role resumes role active_only =
    keep (λ r. not (active_only && not r.is_active) && same_role r.target_role role) resumes

-- The number of entries that are in the set.
unfoldable pub count_in : List String → List String → ℕ
unfolding elem
count_in [] set = 0
count_in (value ∷ values) set =
    let rest = count_in values set in if elem value set then suc rest else rest

pub record ScoredResume : Type 0 where
  pub resume : Resume
  pub score : ℕ

abbrev pub is_below : String → String → Bool
is_below s t = elim (compare s t) [ Ordering.lt ↦ true | _ ↦ false ]

-- The comparison that sort.SliceStable is given.
unfoldable pub less : ScoredResume → ScoredResume → Bool
less a b =
    if not (eqb a.score b.score)
    then ltb b.score a.score
    else if not (eqb a.resume.created_at b.resume.created_at)
    then ltb a.resume.created_at b.resume.created_at
    else is_below a.resume.id b.resume.id

-- sort.SliceStable: an entry goes in front of the first one that is not less than it.
unfoldable pub insert_stable : ScoredResume → List ScoredResume → List ScoredResume
unfolding less
insert_stable a [] = a ∷ []
insert_stable a (b ∷ r) = let rest = insert_stable a r in if less b a then b ∷ rest else a ∷ b ∷ r

unfoldable pub sort_stable : List ScoredResume → List ScoredResume
unfolding insert_stable
sort_stable [] = []
sort_stable (a ∷ r) = insert_stable a (sort_stable r)

module _ (h : Host) where
  unfoldable pub overlap_count : List String → List String → ℕ
  unfolding count_in normalize_string_list
  overlap_count values set =
      if is_empty values || is_empty set then 0 else count_in (normalize_string_list h values) set

  unfoldable pub contains_any : String → List String → Bool
  unfolding normalize_text any contains
  contains_any blob needles =
      let blob = normalize_text h blob in
      any (λ needle. contains blob (normalize_text h needle)) needles

  -- blob += " " + NormalizeText(reason), for each reason
  unfoldable pub add_reasons : String → List String → String
  unfolding normalize_text
  add_reasons blob [] = blob
  add_reasons blob (reason ∷ reasons) =
      add_reasons (blob +++ " " +++ normalize_text h reason) reasons

  abbrev match_reasons : Option VacancyMatch → List String
  match_reasons none = []
  match_reasons (some m) = m.positive_reasons

  unfoldable pub infer_resume_target_role : Vacancy → Option VacancyMatch → ResumeTargetRole
  unfolding join normalize_text normalize_string_list add_reasons contains_any
  infer_resume_target_role vacancy match =
      let blob =
        join
          (normalize_text h vacancy.normalized_title
            ∷ normalize_text h vacancy.title
            ∷ normalize_text h vacancy.description
            ∷ normalize_text h vacancy.requirements
            ∷ normalize_text h vacancy.responsibilities
            ∷ join (normalize_string_list h vacancy.skills) " "
            ∷ [])
          " " in
      let blob = add_reasons blob (match_reasons match) in
      if contains_any blob (
        "system analyst" ∷ "systems analyst" ∷ "системный аналитик" ∷ "business analyst"
        ∷ "business system analyst" ∷ [])
      then system_analyst
      else if contains_any blob
          ("python" ∷ "django" ∷ "flask" ∷ "fastapi" ∷ "pandas" ∷ "sqlalchemy" ∷ [])
      then python_backend
      else if contains_any blob ("go" ∷ "golang" ∷ "grpc" ∷ "microservice" ∷ "microservices" ∷ [])
      then go_backend
      else general_backend

  -- The active resumes of the role, or of the general role where there are none.
  unfoldable pub candidates_for : List Resume → ResumeTargetRole → List Resume
  unfolding filter_resumes_by_role same_role
  candidates_for resumes target_role =
      let candidates = filter_resumes_by_role resumes target_role true in
      if is_empty candidates && not (same_role target_role general_backend)
      then filter_resumes_by_role resumes general_backend true
      else candidates

  unfoldable pub scored_candidates : List String → List Resume → List ScoredResume
  unfolding overlap_count
  scored_candidates vacancy_skills =
      map (λ r. record { resume = r; score = overlap_count r.skills vacancy_skills })

  abbrev pub manual_choice : String → Option Resume → Result Resume
  manual_choice manual none = err (resume_not_found manual)
  manual_choice manual (some r) = ok r

  abbrev pub first_choice : ResumeTargetRole → List ScoredResume → Result Resume
  first_choice target_role [] = err (no_suitable_resume (role_text target_role))
  first_choice target_role (best ∷ r) = ok best.resume

  unfoldable pub select : ResumeSelectionInput → Result Resume
  unfolding trim_space find infer_resume_target_role candidates_for scored_candidates sort_stable
  select input =
      let manual = trim_space input.manual_resume_id in
      let target_role = infer_resume_target_role input.vacancy input.match in
      let vacancy_skills = normalize_string_list h input.vacancy.skills in
      if not (is_nil manual)
      then manual_choice manual (find (λ r. r.id == manual) input.resumes)
      else first_choice target_role (
          sort_stable (scored_candidates vacancy_skills (candidates_for input.resumes target_role)))
