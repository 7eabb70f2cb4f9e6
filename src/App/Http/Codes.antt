-- ===== src/App/Http/Codes.antt =====
-- internal/app/http.go and http_resumes_applications.go: the codes of the answers.
use job_scout_ai.Prelude.{
  ◌⊎◌, ◌↔◌, inl, inr, arith, ℕ, String, ◌≡◌, refl, Bool, true, false, List, Option, none, some,
  Error, [], ◌∷◌, any, eqb, not_found, manual_text_required, invalid_status_change, if◌then◌else◌,
  conflict, profile_not_configured, vacancy_archived, invalid_application_transition,
  resume_not_found, no_suitable_resume,
}
use job_scout_ai.Strings.{is_nil, join}
use job_scout_ai.Core.Resume.{Resume}
use job_scout_ai.App.{App}
use job_scout_ai.App.View.{ApplicationView}
use job_scout_ai.App.Search.{Outcome, SearchSummary}
use job_scout_ai.App.Http.{
  Response, Payload, write_json, write_error, method_not_allowed, bad_request,
}
use job_scout_ai.App.Http.Errors.{api_status, is_validation_error}
use job_scout_ai.App.Http.Vacancies.{
  searched, searched_with, import_error, vacancy_error, status_error,
}
use job_scout_ai.App.Http.Applications.{write_api_error, viewed, prepared}

-- The codes that go with what is answered: 200 for data, 201 for some of what can be created, 301 for a redirect, and
-- for an error one of six.
abbrev pub Goes : Payload → ℕ → Type 0
Goes (Payload.failure text) s = any (λ c. eqb c s) (400 ∷ 404 ∷ 405 ∷ 409 ∷ 422 ∷ 500 ∷ []) ≡ true
Goes (Payload.moved location) s = s ≡ 301
Goes (Payload.resume resume) s = any (λ c. eqb c s) (200 ∷ 201 ∷ []) ≡ true
Goes (Payload.application view) s = any (λ c. eqb c s) (200 ∷ 201 ∷ []) ≡ true
Goes _ s = s ≡ 200

-- The code fits, and the header Allow is there exactly where the method is refused.
pub record Known (r : Response) : Type 0 where
  pub code : Goes r.payload r.status
  pub allows : (is_nil r.allow ≡ false) ↔ (r.status ≡ 405)

-- What the service's errors stand for: what is missing is 404, what the state forbids is 409, and the others are the
-- fault of the request or of the service.
abbrev pub Blamed : Error → ℕ → Type 0
Blamed not_found s = s ≡ 404
Blamed (resume_not_found id) s = s ≡ 404
Blamed profile_not_configured s = s ≡ 404
Blamed conflict s = s ≡ 409
Blamed vacancy_archived s = s ≡ 409
Blamed invalid_application_transition s = s ≡ 409
Blamed (no_suitable_resume role) s = s ≡ 409
Blamed _ s = (s ≡ 400) ⊎ (s ≡ 500)

-- The answers to the errors of the service.
pub record Blames (app : App) : Type 0 where
  pub service : (e : Error) → Blamed e (write_api_error app e).status
  pub missing :
      ((vacancy_error not_found).status ≡ 404)
      × ((status_error not_found).status ≡ 404)
      × ((import_error not_found).status ≡ 404)
  pub move : (status_error invalid_status_change).status ≡ 409
  pub text : (import_error manual_text_required).status ≡ 422

abbrev is_data : Payload → Bool
is_data (Payload.failure text) = false
is_data (Payload.moved location) = false
is_data _ = true

plain-Known : (p : Payload) (s : ℕ) → Goes p s → eqb s 405 ≡ false → Known (write_json s p)
unfolding write_json
plain-Known p s goes other = record {
  code = goes;
  allows = (λ e. absurd (cc), λ e. absurd (ground (arith, e, other)));
}

data-Goes : (p : Payload) → is_data p ≡ true → Goes p 200
unfolding any
data-Goes (Payload.failure text) h = absurd (cc)
data-Goes (Payload.moved location) h = absurd (cc)
data-Goes (Payload.resume resume) h = refl
data-Goes (Payload.application view) h = refl
data-Goes _ h = refl

pub json-Known : (p : Payload) → is_data p ≡ true → Known (write_json 200 p)
json-Known p h = plain-Known p 200 (data-Goes p h) refl

pub resume-Known : (r : Resume) → Known (write_json 201 (Payload.resume r))
unfolding any
resume-Known r = plain-Known (Payload.resume r) 201 refl refl

pub moved-Known : (s : String) → Known (write_json 301 (Payload.moved s))
moved-Known s = plain-Known (Payload.moved s) 301 refl refl

error-Known :
    (s : ℕ) (t : String) → Goes (Payload.failure t) s → eqb s 405 ≡ false → Known (write_error s t)
unfolding write_error
error-Known s t = plain-Known (Payload.failure t) s

pub missing-Known : (s : String) → Known (write_error 404 s)
unfolding any
missing-Known s = error-Known 404 s refl refl

pub bad-Known : (s : String) → Known (write_error 400 s)
unfolding any
bad-Known s = error-Known 400 s refl refl

pub method-Known :
    (allowed : List String)
    → is_nil (join allowed ", ") ≡ false
    → Known (method_not_allowed allowed)
unfolding method_not_allowed any
method-Known allowed h = record { code = refl; allows = (λ e. refl, λ e. h) }

pub bad_request-Known : (e : Error) → Known (bad_request e)
unfolding bad_request
bad_request-Known e = bad-Known _

pub import_error-Known : (e : Error) → Known (import_error e)
unfolding import_error any
import_error-Known manual_text_required = error-Known 422 _ refl refl
import_error-Known not_found = missing-Known _
import_error-Known _ = bad-Known _

pub vacancy_error-Known : (e : Error) → Known (vacancy_error e)
unfolding vacancy_error
vacancy_error-Known not_found = missing-Known _
vacancy_error-Known _ = bad-Known _

pub status_error-Known : (e : Error) → Known (status_error e)
unfolding status_error any
status_error-Known invalid_status_change = error-Known 409 _ refl refl
status_error-Known not_found = missing-Known _
status_error-Known _ = bad-Known _

fault : (b : Bool) (t : String) → Known (write_error (if b then 400 else 500) t)
unfolding any
fault true t = error-Known 400 t refl refl
fault false t = error-Known 500 t refl refl

pub api_error-Known : (app : App) (e : Error) → Known (write_api_error app e)
unfolding write_api_error api_status any
api_error-Known app not_found = missing-Known _
api_error-Known app (resume_not_found id) = missing-Known _
api_error-Known app profile_not_configured = missing-Known _
api_error-Known app conflict = error-Known 409 _ refl refl
api_error-Known app vacancy_archived = error-Known 409 _ refl refl
api_error-Known app invalid_application_transition = error-Known 409 _ refl refl
api_error-Known app (no_suitable_resume role) = error-Known 409 _ refl refl
api_error-Known app e = fault (is_validation_error app.host e) _

abbrev fault_code : Bool → ℕ
fault_code b = if b then 400 else 500

either_fault : (b : Bool) → (fault_code b ≡ 400) ⊎ (fault_code b ≡ 500)
either_fault true = inl refl
either_fault false = inr refl

api_error-Blamed : (app : App) (e : Error) → Blamed e (write_api_error app e).status
unfolding write_api_error api_status write_error write_json
api_error-Blamed app not_found = refl
api_error-Blamed app (resume_not_found id) = refl
api_error-Blamed app profile_not_configured = refl
api_error-Blamed app conflict = refl
api_error-Blamed app vacancy_archived = refl
api_error-Blamed app invalid_application_transition = refl
api_error-Blamed app (no_suitable_resume role) = refl
api_error-Blamed app e = either_fault (is_validation_error app.host e)

pub errors-Blamed : (app : App) → Blames app
unfolding vacancy_error status_error import_error write_error write_json
errors-Blamed app = record {
  service = api_error-Blamed app;
  missing = (refl, refl, refl);
  move = refl;
  text = refl;
}

pub viewed-Known : (v : ApplicationView) → Known (viewed v)
unfolding viewed
viewed-Known v = json-Known _ refl

prepared_code :
    (b : Bool) (v : ApplicationView)
    → Known (write_json (if b then 201 else 200) (Payload.application v))
unfolding any
prepared_code true v = plain-Known _ 201 refl refl
prepared_code false v = json-Known _ refl

pub prepared-Known : (v : ApplicationView) → Known (prepared v)
unfolding prepared
prepared-Known v = prepared_code v.created v

searched_with-Known : (s : SearchSummary) (e : Option Error) → Known (searched_with s e)
unfolding searched_with
searched_with-Known s none = json-Known _ refl
searched_with-Known s (some e) = bad_request-Known e

pub searched-Known : (o : Outcome) → Known (searched o)
searched-Known o = searched_with-Known o.summary o.failure
