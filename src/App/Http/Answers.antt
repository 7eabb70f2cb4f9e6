-- ===== src/App/Http/Answers.antt =====
-- internal/app/http.go and http_resumes_applications.go: every request is answered, with a code that fits.
use job_scout_ai.Prelude.{
  Bool, true, false, Result, ok, err, Error, not_found, if◌then◌else◌, panicked,
}
use job_scout_ai.Core.VacancyStatus.{VacancyStatus}
use job_scout_ai.Store.{World}
use job_scout_ai.Store.Exec.{Exec, pure}
use job_scout_ai.App.{App}
use job_scout_ai.App.Http.{
  Response, Read, decoded, empty_body, refused, respond, answer, with_body, with_body_or,
}
use job_scout_ai.App.Http.Codes.{
  Known, json-Known, resume-Known, moved-Known, missing-Known, bad-Known, method-Known,
  bad_request-Known, import_error-Known, vacancy_error-Known, status_error-Known, api_error-Known,
  viewed-Known, prepared-Known,
}

-- A known answer, or a panic.
abbrev pub Answered : Result Response → Type 0
Answered (ok r) = Known r
Answered (err (panicked s)) = Unit
Answered (err e) = ⊥

record Answers (m : Exec Response) : Type 0 where
  always : (w : World) → Answered (m w).0

pure-Answers : (r : Response) → Known r → Answers (pure r)
unfolding pure
pure-Answers r k = record { always = λ w. k }

if-Answers : (b : Bool) (m n : Exec Response) → Answers m → Answers n → Answers (if b then m else n)
if-Answers true m n k l = k
if-Answers false m n k l = l

answer-Answered :
    {A : Type 0} (good : A → Response) (bad : Error → Response) (r : Result A)
    → ((a : A) → Known (good a))
    → ((e : Error) → Known (bad e))
    → Answered (answer good bad r)
answer-Answered good bad (ok a) g b = g a
answer-Answered good bad (err (panicked s)) g b = tt
answer-Answered good bad (err not_found) g b = b not_found
answer-Answered good bad (err e) g b = b e

respond-Answers :
    {A : Type 0} (m : Exec A) (good : A → Response) (bad : Error → Response)
    → ((a : A) → Known (good a))
    → ((e : Error) → Known (bad e))
    → Answers (respond m good bad)
unfolding respond
respond-Answers m good bad g b = record { always = λ w. answer-Answered good bad (m w).0 g b }

module _ {A : Type 0} where
  body-Answers :
      (b : Read A) (f : A → Exec Response) → ((a : A) → Answers (f a)) → Answers (with_body b f)
  unfolding with_body
  body-Answers (decoded a) f k = k a
  body-Answers empty_body f k = pure-Answers _ (bad-Known _)
  body-Answers (refused e) f k = pure-Answers _ (bad-Known _)

  body_or-Answers :
      (default : A) (b : Read A) (f : A → Exec Response)
      → ((a : A) → Answers (f a))
      → Answers (with_body_or default b f)
  unfolding with_body_or
  body_or-Answers default (decoded a) f k = k a
  body_or-Answers default empty_body f k = k default
  body_or-Answers default (refused e) f k = pure-Answers _ (bad-Known _)

ruleset known = (
  pure-Answers, if-Answers, json-Known, resume-Known, moved-Known, missing-Known, bad-Known,
  method-Known, bad_request-Known, import_error-Known, vacancy_error-Known, status_error-Known,
  api_error-Known, viewed-Known, prepared-Known, respond-Answers, body-Answers, body_or-Answers,
)
