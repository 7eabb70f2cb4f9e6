-- ===== src/App/Resumes.antt =====
-- internal/app/resumes.go
pub mod Valid
use job_scout_ai.Prelude.{String, Bool, true, List, Option, none, some, Result, ok}
use job_scout_ai.Strings.{trim_space}
use job_scout_ai.Core.Resume.{Resume, parse_resume_target_role, parse_resume_language, validate}
use job_scout_ai.Store.Exec.{Exec, lift, ◌>>=◌, ◌>>◌}
use job_scout_ai.Store.Memory.{get_resume, upsert_resume}
use job_scout_ai.Store.Lists.{list_resumes}
use job_scout_ai.App.{App, get_profile}

pub record ResumeCreateRequest : Type 0 where
  pub name : String
  pub target_role : String
  pub language : String
  pub text_content : String
  pub skills : List String
  pub is_active : Option Bool

pub record ResumePatchRequest : Type 0 where
  pub name : Option String
  pub target_role : Option String
  pub language : Option String
  pub text_content : Option String
  pub skills : Option (List String)
  pub is_active : Option Bool

-- A field that the request leaves out keeps its value.
abbrev given {ℓ} : {A : Type ℓ} → Option A → A → A
given none a = a
given (some b) a = b

abbrev trimmed : Option String → String → String
trimmed none s = s
trimmed (some t) s = trim_space t

abbrev parsed {ℓ} : {A : Type ℓ} → (String → Result A) → Option String → A → Result A
parsed parse none a = ok a
parsed parse (some s) a = parse (trim_space s)

-- (*App).ListResumes
unfoldable pub profile_resumes : Exec (List Resume)
unfolding ◌>>=◌ get_profile list_resumes
profile_resumes = do profile ← get_profile; list_resumes profile.id

module _ (app : App) where
  unfoldable pub create_resume : ResumeCreateRequest → Exec Resume
  unfolding ◌>>=◌ get_profile parse_resume_target_role parse_resume_language trim_space validate
      upsert_resume get_resume
  create_resume req = do
    profile ← get_profile
    role ← lift (parse_resume_target_role (trim_space req.target_role))
    language ← lift (parse_resume_language (trim_space req.language))
    let resume : Resume = record {
      id = "";
      candidate_profile_id = profile.id;
      name = trim_space req.name;
      target_role = role;
      language = language;
      text_content = trim_space req.text_content;
      skills = req.skills;
      is_active = given req.is_active true;
      created_at = 0;
      updated_at = 0;
    }
    lift (validate resume)
    resume ← upsert_resume app.host resume
    get_resume resume.id

  unfoldable pub update_resume : String → ResumePatchRequest → Exec Resume
  unfolding ◌>>=◌ parse_resume_target_role parse_resume_language trim_space validate upsert_resume
      get_resume
  update_resume id req = do
    current ← get_resume id
    role ← lift (parsed parse_resume_target_role req.target_role current.target_role)
    language ← lift (parsed parse_resume_language req.language current.language)
    let updated = record current {
      name = trimmed req.name current.name;
      target_role = role;
      language = language;
      text_content = trimmed req.text_content current.text_content;
      skills = given req.skills current.skills;
      is_active = given req.is_active current.is_active;
    }
    lift (validate updated)
    _ ← upsert_resume app.host updated
    get_resume id
