-- ===== src/Core/Resume.antt =====
-- internal/core/resume.go: resumes and the choice of one for a vacancy. A target role and a language are
-- string types as in Core/SourceType.antt.
pub mod Select
use Prim.Native.String.{[], ◌∷◌}
use job_scout_ai.Prelude.{
  String, [], ◌∷◌, Bool, true, false, not, List, Result, ok, err, message, if◌then◌else◌, ◌==◌,
}
use job_scout_ai.Strings.{◌+++◌, is_nil, trim_space}
use job_scout_ai.Core.Spelling.{read}
use job_scout_ai.Core.Types.{Time}

pub data ResumeTargetRole : Type 0 where
  go_backend python_backend system_analyst general_backend : ResumeTargetRole
  other : String → ResumeTargetRole

unfoldable pub role_text : ResumeTargetRole → String
role_text go_backend = "GO_BACKEND"
role_text python_backend = "PYTHON_BACKEND"
role_text system_analyst = "SYSTEM_ANALYST"
role_text general_backend = "GENERAL_BACKEND"
role_text (ResumeTargetRole.other s) = s

unfoldable pub role_valid : ResumeTargetRole → Bool
role_valid (ResumeTargetRole.other s) = false
role_valid go_backend = true
role_valid _ = true

unfoldable pub parse_resume_target_role : String → Result ResumeTargetRole
unfolding read role_text role_valid
parse_resume_target_role value =
    let role =
      read role_text ResumeTargetRole.other
        (go_backend ∷ python_backend ∷ system_analyst ∷ general_backend ∷ []) value in
    if role_valid role then ok role else err (message ("invalid resume target role: " +++ value))

unfoldable pub resume_target_role_label : ResumeTargetRole → String
resume_target_role_label go_backend = "Go backend"
resume_target_role_label python_backend = "Python backend"
resume_target_role_label system_analyst = "системный аналитик"
resume_target_role_label _ = "backend-разработчик"

pub data ResumeLanguage : Type 0 where
  ru en : ResumeLanguage
  other : String → ResumeLanguage

unfoldable pub language_text : ResumeLanguage → String
language_text ru = "RU"
language_text en = "EN"
language_text (ResumeLanguage.other s) = s

unfoldable pub language_valid : ResumeLanguage → Bool
language_valid (ResumeLanguage.other s) = false
language_valid ru = true
language_valid en = true

unfoldable pub parse_resume_language : String → Result ResumeLanguage
unfolding read language_text language_valid
parse_resume_language value =
    let language = read language_text ResumeLanguage.other (ru ∷ en ∷ []) value in
    if language_valid language
    then ok language
    else err (message ("invalid resume language: " +++ value))

pub record Resume : Type 0 where
  pub id : String
  pub candidate_profile_id : String
  pub name : String
  pub target_role : ResumeTargetRole
  pub language : ResumeLanguage
  pub text_content : String
  pub skills : List String
  pub is_active : Bool
  pub created_at : Time
  pub updated_at : Time

abbrev pub is_blank : String → Bool
is_blank s = is_nil (trim_space s)

unfoldable pub validate : Resume → Result (Unit {0})
unfolding role_valid language_valid
validate r =
    if is_blank r.candidate_profile_id
    then err (message "candidate profile id is required")
    else if is_blank r.name
    then err (message "resume name is required")
    else if not (role_valid r.target_role)
    then err (message ("invalid resume target role: " +++ role_text r.target_role))
    else if not (language_valid r.language)
    then err (message ("invalid resume language: " +++ language_text r.language))
    else if is_blank r.text_content
    then err (message "resume text content is required")
    else ok tt
