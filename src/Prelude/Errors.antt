-- ===== src/Prelude/Errors.antt =====
-- Go's pair of a value and an `error`, with the errors that the program tells apart.
use Prim.Native.String.{String}
use mathlib.Core.Bool.{Bool, true, false}

-- The sentinel errors, the two that wrap a sentinel, and those that `errors.New` or `fmt.Errorf`
-- make on the spot, which carry their text. A panic is no `error`: it passes through every caller.
pub data Error : Type 0 where
  not_found conflict : Error
  profile_not_configured manual_text_required invalid_status_change : Error
  vacancy_archived invalid_application_transition : Error
  resume_not_found no_suitable_resume : String → Error
  message : String → Error
  panicked : String → Error

pub data Result {ℓ} (A : Type ℓ) : Type ℓ where
  ok : A → Result A
  err : Error → Result A

abbrev pub is_ok {ℓ} : {A : Type ℓ} → Result A → Bool
is_ok (ok a) = true
is_ok (err e) = false
