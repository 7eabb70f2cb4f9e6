-- ===== src/Core/CoverLetter.antt =====
-- internal/core/cover_letter.go: the letter, the warnings, and the project lines of a resume.
pub mod Length
use Prim.Native.Char.{Char, code}
use Prim.Native.String.{[], ◌∷◌, len, count}
use job_scout_ai.Prelude.{
  ℕ, zero, suc, ◌≤◌, String, [], ◌∷◌, Bool, not, ◌&&◌, ◌||◌, List, ◌++◌, Option, none, some,
  is_empty, is_some, length, take, if◌then◌else◌, ltb, eqb, ℤ, pos, ltb_ℤ,
}
use job_scout_ai.Host.{Host}
use job_scout_ai.Strings.{◌+++◌, is_nil, join, split, trim_left, trim_right, trim_space, take_runes}
use job_scout_ai.Core.Decimal.{itoa}
use job_scout_ai.Core.Types.{CandidateProfile, Vacancy, VacancyMatch}
use job_scout_ai.Core.Normalize.{normalize_string_list}
use job_scout_ai.Core.Lists.{dedupe_and_trim}
use job_scout_ai.Core.Resume.{Resume, ResumeTargetRole, resume_target_role_label, is_blank}
use job_scout_ai.Core.Resume.Select.{contains_any}
use job_scout_ai.Core.Scoring.Factors.{experience_rank, grade_rank}

pub record CoverLetterInput : Type 0 where
  pub candidate_name : String
  pub target_role : ResumeTargetRole
  pub commercial_experience_years : ℤ
  pub project_experience : String
  pub resume_skills : List String
  pub vacancy : Vacancy
  pub match : Option VacancyMatch
  pub positive_reasons : List String
  pub missing_skills : List String
  pub company_name : String

unfoldable pub join_with_limit : List String → ℕ → String
unfolding dedupe_and_trim join
join_with_limit values limit =
    let values = dedupe_and_trim values in
    if is_empty values
    then ""
    else join (if ltb 0 limit && ltb limit (length values) then take limit values else values) ", "

-- strings.TrimSpace, then strings.Trim at the two quotation marks, then strings.TrimSpace
unfoldable pub safe_quote : String → String
unfolding trim_space trim_left trim_right
safe_quote value =
    let is_quote = λ (c : Char). eqb (code c) 34 || eqb (code c) 39 in
    let value = trim_space value in
    if is_nil value then "" else trim_space (trim_right is_quote (trim_left is_quote value))

abbrev line_if : Bool → String → List String
line_if b line = if b then line ∷ [] else []

-- The limits at the end of Generate: `len` counts bytes and `count` counts runes.
unfoldable pub lengthen : String → String
lengthen text =
    let text =
      if ltb (len text) 500
      then text
        +++ "\n\nГотов аккуратно адаптировать это письмо под формат компании и уточнить детали по задачам."
      else text in
    if ltb (len text) 500 then text +++ "\n\nСпасибо за рассмотрение моего отклика." else text

unfoldable pub cut : String → String
unfolding take_runes trim_space
cut text = if ltb 1200 (count text) then trim_space (take_runes 1200 text) else text

module _ (h : Host) where
  unfoldable pub letter_parts : CoverLetterInput → List String
  unfolding trim_space resume_target_role_label normalize_string_list dedupe_and_trim safe_quote
      join_with_limit itoa
  letter_parts input =
      let candidate_name = trim_space input.candidate_name in
      let company_name = trim_space input.company_name in
      let company_name =
        if is_nil company_name then trim_space input.vacancy.title else company_name in
      let role_label = resume_target_role_label input.target_role in
      let resume_skills = normalize_string_list h input.resume_skills in
      let positive_reasons = dedupe_and_trim input.positive_reasons in
      let project_experience = trim_space input.project_experience in
      let missing_skills = dedupe_and_trim input.missing_skills in
      let title = h.quote (safe_quote input.vacancy.title) in
      (if not (is_nil candidate_name)
        then "Здравствуйте, " +++ candidate_name +++ "."
        else "Здравствуйте.")
      ∷ (if not (is_nil company_name)
          then "Меня заинтересовала вакансия " +++ title +++ " в компании " +++ company_name +++ "."
          else "Меня заинтересовала вакансия " +++ title +++ ".")
      ∷ (if ltb_ℤ (pos 0) input.commercial_experience_years
          then "У меня подтверждено "
            +++ itoa input.commercial_experience_years
            +++ " лет коммерческого опыта в направлении "
            +++ role_label
            +++ "."
          else if not (is_nil project_experience)
          then "Есть подтвержденный проектный опыт: " +++ project_experience +++ "."
          else "Работаю в направлении " +++ role_label
            +++ " и готов обсудить релевантный опыт по задачам вакансии.")
      ∷ (line_if (not (is_empty resume_skills))
            ("В резюме подтверждены навыки: " +++ join_with_limit resume_skills 5 +++ ".")
          ++ (line_if (not (is_empty positive_reasons)) (
                "По совпадениям с вакансией отмечаю: "
                +++ join_with_limit positive_reasons 3
                +++ ".")
              ++ (line_if
                    (not (is_nil project_experience)
                      && ltb_ℤ (pos 0) input.commercial_experience_years)
                    ("Отдельно могу показать проектные задачи: " +++ project_experience +++ ".")
                  ++ (line_if (not (is_empty missing_skills))
                        "Если в команде есть дополнительные ожидания по стеку, готов обсудить их на созвоне."
                      ++ "Буду рад обсудить детали роли и вручную пройти следующий шаг отклика."
                        ∷ []))))

  unfoldable pub generate : CoverLetterInput → String
  unfolding letter_parts join lengthen cut
  generate input = cut (lengthen (join (letter_parts input) "\n\n"))

  abbrev missing_of : Option VacancyMatch → List String
  missing_of none = []
  missing_of (some m) = m.missing_skills

  unfoldable pub build_application_warnings :
      CandidateProfile → Resume → Vacancy → Option VacancyMatch → String → List String
  unfolding join_with_limit dedupe_and_trim experience_rank grade_rank
  build_application_warnings profile resume vacancy match project_experience =
      let missing = missing_of match in
      let required_years = grade_rank h vacancy.grade in
      dedupe_and_trim (
        line_if (not (is_empty missing))
          ("Не все навыки из вакансии подтверждены: " +++ join_with_limit missing 5 +++ ".")
        ++ (line_if (not (is_blank project_experience))
              "В письме использован проектный опыт, а не коммерческий."
            ++ (line_if
                  (ltb 0 required_years
                    && ltb (experience_rank profile.years_of_commercial_experience) required_years)
                  "Вакансия может требовать большего стажа, чем подтверждено в профиле."
                ++ (line_if
                      (is_blank vacancy.remote_type
                        && is_blank vacancy.location
                        && is_blank vacancy.employment_type)
                      "Условия работы в вакансии описаны не полностью."
                    ++ (line_if
                          (not (is_some vacancy.salary_from) && not (is_some vacancy.salary_to))
                          "Вакансия не содержит зарплату."
                        ++ line_if
                            (is_empty profile.work_authorization
                              || is_empty vacancy.work_authorization_requirements)
                            "Разрешение на работу не подтверждено отдельно.")))))

  -- The loop of ExtractProjectExperience, with the number of lines that may still be taken.
  unfoldable pub project_lines : ℕ → List String → List String
  unfolding trim_space contains_any
  project_lines zero lines = []
  project_lines (suc n) [] = []
  project_lines (suc n) (line ∷ lines) =
      let trimmed = trim_space line in
      let taken : List String = trimmed ∷ project_lines n lines in
      let passed = project_lines (suc n) lines in
      if not (is_nil trimmed)
        && contains_any h trimmed (
            "project" ∷ "проект" ∷ "pet project" ∷ "кейc" ∷ "case" ∷ "portfolio" ∷ "портфолио" ∷ [])
      then taken
      else passed

  unfoldable pub extract_project_experience : String → String
  unfolding split project_lines join
  extract_project_experience text = join (project_lines 2 (split text "\n")) "; "
