-- ===== src/Core/VacancyStatus.antt =====
-- internal/core/types.go and parse.go: the states of a vacancy and the moves between them.
pub mod Text
pub mod Transitions
use job_scout_ai.Prelude.{
  String, Bool, true, false, ◌||◌, List, [], ◌∷◌, any, Result, ok, err, message, if◌then◌else◌,
  ◌==◌,
}
use job_scout_ai.Strings.{◌+++◌}
use job_scout_ai.Core.Spelling.{read}

pub data VacancyStatus : Type 0 where
  discovered normalized duplicate filtered_out recommended : VacancyStatus
  application_prepared waiting_approval submitted viewed hr_contact : VacancyStatus
  interview offer rejected archived : VacancyStatus
  other : String → VacancyStatus

unfoldable pub to_text : VacancyStatus → String
to_text discovered = "DISCOVERED"
to_text normalized = "NORMALIZED"
to_text duplicate = "DUPLICATE"
to_text filtered_out = "FILTERED_OUT"
to_text recommended = "RECOMMENDED"
to_text application_prepared = "APPLICATION_PREPARED"
to_text waiting_approval = "WAITING_APPROVAL"
to_text submitted = "SUBMITTED"
to_text viewed = "VIEWED"
to_text hr_contact = "HR_CONTACT"
to_text interview = "INTERVIEW"
to_text offer = "OFFER"
to_text rejected = "REJECTED"
to_text archived = "ARCHIVED"
to_text (other s) = s

abbrev declared : List VacancyStatus
declared =
    discovered ∷ normalized ∷ duplicate ∷ filtered_out ∷ recommended ∷ application_prepared
    ∷ waiting_approval ∷ submitted ∷ viewed ∷ hr_contact ∷ interview ∷ offer ∷ rejected ∷ archived
    ∷ []

-- The conversion VacancyStatus(value).
unfoldable pub of_text : String → VacancyStatus
unfolding read to_text
of_text = read to_text other declared

-- Go's == on the string type.
unfoldable pub same : VacancyStatus → VacancyStatus → Bool
unfolding to_text
same a b = to_text a == to_text b

unfoldable pub valid : VacancyStatus → Bool
valid (other s) = false
valid discovered = true
valid _ = true

unfoldable pub parse : String → Result VacancyStatus
unfolding of_text valid
parse value =
    let s = of_text value in
    if valid s then ok s else err (message ("invalid vacancy status: " +++ value))

-- The map `vacancyTransitions`; it has no entry for an undeclared text.
unfoldable pub vacancy_transitions : VacancyStatus → List VacancyStatus
vacancy_transitions discovered = normalized ∷ duplicate ∷ filtered_out ∷ recommended ∷ archived ∷ []
vacancy_transitions normalized = duplicate ∷ filtered_out ∷ recommended ∷ archived ∷ []
vacancy_transitions duplicate = archived ∷ []
vacancy_transitions filtered_out = archived ∷ []
vacancy_transitions recommended =
    application_prepared ∷ waiting_approval ∷ submitted ∷ viewed ∷ hr_contact ∷ interview ∷ offer
    ∷ rejected ∷ archived ∷ []
vacancy_transitions application_prepared = waiting_approval ∷ archived ∷ []
vacancy_transitions waiting_approval = submitted ∷ archived ∷ []
vacancy_transitions submitted = viewed ∷ hr_contact ∷ interview ∷ offer ∷ rejected ∷ archived ∷ []
vacancy_transitions viewed = hr_contact ∷ interview ∷ offer ∷ rejected ∷ archived ∷ []
vacancy_transitions hr_contact = interview ∷ offer ∷ rejected ∷ archived ∷ []
vacancy_transitions interview = offer ∷ rejected ∷ archived ∷ []
vacancy_transitions offer = archived ∷ []
vacancy_transitions rejected = archived ∷ []
vacancy_transitions archived = []
vacancy_transitions (other s) = []

unfoldable pub can_transition : VacancyStatus → VacancyStatus → Bool
unfolding same any vacancy_transitions
can_transition from to = same from to || any (same to) (vacancy_transitions from)
