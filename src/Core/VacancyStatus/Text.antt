-- ===== src/Core/VacancyStatus/Text.antt =====
-- The spelling of a vacancy's state.
use job_scout_ai.Prelude.{
  String, ◌≡◌, refl, Option, some, none, ap, sym, ◌∙◌, true, ok, err, message, eq_iff, ◌↔◌,
  Bool-cases, inl, inr, if◌then◌else◌,
}
use job_scout_ai.Core.Spelling.{to_text-read}
use job_scout_ai.Core.VacancyStatus.{
  discovered, normalized, duplicate, filtered_out, recommended, application_prepared,
  waiting_approval, submitted, viewed, hr_contact, interview, offer, rejected, archived,
  VacancyStatus, other, to_text, of_text, same, valid, parse, declared,
}

pub to_text-of_text : (s : String) → to_text (of_text s) ≡ s
unfolding of_text
to_text-of_text s = to_text-read to_text other declared s refl

pub of_text-to_text : (s : VacancyStatus) → valid s ≡ true → of_text (to_text s) ≡ s
unfolding of_text valid
of_text-to_text (other s) h = absurd (cc)
of_text-to_text discovered h = refl
of_text-to_text _ h = refl

-- On declared states Go's == is equality.
pub same-eq : (a b : VacancyStatus) → valid a ≡ true → valid b ≡ true → same a b ≡ true → a ≡ b
unfolding same
same-eq a b va vb e =
    sym (of_text-to_text a va) ∙ ap of_text ((eq_iff _ _).0 e) ∙ of_text-to_text b vb

parsed-ok :
    (s : String) (v w : VacancyStatus)
    → (if valid v then ok v else err (message s)) ≡ ok w
    → (valid w ≡ true) × (v ≡ w)
parsed-ok s v w e = elim (Bool-cases (valid v)) [
  | inl y ↦ let p : v ≡ w = cc (rw y at e) in (rw (sym p) y, p)
  | inr n ↦ absurd (cc (rw n at e))
]

-- How each declared state is spelt.
abbrev pub spelling : VacancyStatus → Option String
spelling discovered = some "DISCOVERED"
spelling normalized = some "NORMALIZED"
spelling duplicate = some "DUPLICATE"
spelling filtered_out = some "FILTERED_OUT"
spelling recommended = some "RECOMMENDED"
spelling application_prepared = some "APPLICATION_PREPARED"
spelling waiting_approval = some "WAITING_APPROVAL"
spelling submitted = some "SUBMITTED"
spelling viewed = some "VIEWED"
spelling hr_contact = some "HR_CONTACT"
spelling interview = some "INTERVIEW"
spelling offer = some "OFFER"
spelling rejected = some "REJECTED"
spelling archived = some "ARCHIVED"
spelling (other s) = none

spelling-valid :
    (v : VacancyStatus) (s : String) → (spelling v ≡ some s) ↔ ((valid v ≡ true) × (to_text v ≡ s))
unfolding valid to_text
spelling-valid (other t) s = (λ e. absurd (cc), λ h. absurd (cc (h.0)))
spelling-valid discovered s = (λ e. (refl, cc), λ h. ap some h.1)
spelling-valid normalized s = (λ e. (refl, cc), λ h. ap some h.1)
spelling-valid duplicate s = (λ e. (refl, cc), λ h. ap some h.1)
spelling-valid filtered_out s = (λ e. (refl, cc), λ h. ap some h.1)
spelling-valid recommended s = (λ e. (refl, cc), λ h. ap some h.1)
spelling-valid application_prepared s = (λ e. (refl, cc), λ h. ap some h.1)
spelling-valid waiting_approval s = (λ e. (refl, cc), λ h. ap some h.1)
spelling-valid submitted s = (λ e. (refl, cc), λ h. ap some h.1)
spelling-valid viewed s = (λ e. (refl, cc), λ h. ap some h.1)
spelling-valid hr_contact s = (λ e. (refl, cc), λ h. ap some h.1)
spelling-valid interview s = (λ e. (refl, cc), λ h. ap some h.1)
spelling-valid offer s = (λ e. (refl, cc), λ h. ap some h.1)
spelling-valid rejected s = (λ e. (refl, cc), λ h. ap some h.1)
spelling-valid archived s = (λ e. (refl, cc), λ h. ap some h.1)

parse_iff :
    (s : String) (v : VacancyStatus) → (parse s ≡ ok v) ↔ ((valid v ≡ true) × (to_text v ≡ s))
unfolding parse
parse_iff s v = (
  λ e. let (y, p) = parsed-ok _ (of_text s) v e in (y, ap to_text (sym p) ∙ to_text-of_text s),
  λ (y, p). rw (sym p, of_text-to_text v y, y) refl,
)

-- The parser accepts exactly the fourteen spellings of the declared states, letter by letter, and gives the state that
-- is spelt so.
pub vacancy_parse_iff : (s : String) (v : VacancyStatus) → (parse s ≡ ok v) ↔ (spelling v ≡ some s)
vacancy_parse_iff s v = (
  λ e. (spelling-valid v s).1 ((parse_iff s v).0 e),
  λ e. (parse_iff s v).1 ((spelling-valid v s).0 e),
)
