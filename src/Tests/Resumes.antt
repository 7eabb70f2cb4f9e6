-- ===== src/Tests/Resumes.antt =====
-- The theorem on stored resumes at work in the small world.
use job_scout_ai.Prelude.{
  ◌≡◌, refl, sym, ◌∙◌, ap, [], ◌∷◌, some, none, ok, lookup, Bool-cases, inl, inr, ◌==◌,
}
use job_scout_ai.Strings.{trim_space}
use job_scout_ai.Core.Resume.{validate}
use job_scout_ai.App.Resumes.{ResumeCreateRequest, ResumePatchRequest, create_resume, update_resume}
use job_scout_ai.App.Resumes.Valid.{AllValid, resumes-Valid}
use job_scout_ai.Tests.Fixtures.{app, world, resume}

resume-valid : validate resume ≡ ok tt
unfolding validate trim_space
resume-valid = refl

world-AllValid : AllValid world
unfolding lookup
world-AllValid = record {
  valid = λ i r e. elim (Bool-cases ("resume" == i)) [
    | inl y ↦ let p : resume ≡ r = cc (rw y at e) in ap validate (sym p) ∙ resume-valid
    | inr n ↦ absurd (cc (rw n at e))
  ];
}

abbrev new_resume : ResumeCreateRequest
new_resume = record {
  name = " Python resume ";
  target_role = "PYTHON_BACKEND";
  language = "EN";
  text_content = "Ten years of Python";
  skills = "python" ∷ [];
  is_active = none;
}

-- A blank name is refused.
abbrev no_name : ResumePatchRequest
no_name = record {
  name = some " ";
  target_role = none;
  language = none;
  text_content = none;
  skills = none;
  is_active = none;
}

resumes-Valid_example :
    AllValid (create_resume app new_resume world).1
    × AllValid (update_resume app "resume" no_name world).1
resumes-Valid_example = resumes-Valid app world world-AllValid new_resume "resume" no_name
