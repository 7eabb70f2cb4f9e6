-- ===== src/Core/ApplicationStatus.antt =====
-- internal/core/application.go: the states of an application and the moves between them.
pub mod Text
pub mod Transitions
use job_scout_ai.Prelude.{
  String, Bool, true, false, ◌||◌, List, [], ◌∷◌, any, Result, ok, err, message, if◌then◌else◌,
  ◌==◌,
}
use job_scout_ai.Strings.{◌+++◌}
use job_scout_ai.Core.Spelling.{read}

pub data ApplicationStatus : Type 0 where
  draft waiting_approval approved manual_action_required submitted cancelled : ApplicationStatus
  hr_contact interview offer rejected : ApplicationStatus
  other : String → ApplicationStatus

unfoldable pub to_text : ApplicationStatus → String
to_text draft = "DRAFT"
to_text waiting_approval = "WAITING_APPROVAL"
to_text approved = "APPROVED"
to_text manual_action_required = "MANUAL_ACTION_REQUIRED"
to_text submitted = "SUBMITTED"
to_text cancelled = "CANCELLED"
to_text hr_contact = "HR_CONTACT"
to_text interview = "INTERVIEW"
to_text offer = "OFFER"
to_text rejected = "REJECTED"
to_text (other s) = s

abbrev declared : List ApplicationStatus
declared =
    draft ∷ waiting_approval ∷ approved ∷ manual_action_required ∷ submitted ∷ cancelled
    ∷ hr_contact ∷ interview ∷ offer ∷ rejected ∷ []

-- The conversion ApplicationStatus(value).
unfoldable pub of_text : String → ApplicationStatus
unfolding read to_text
of_text = read to_text other declared

-- Go's == on the string type.
unfoldable pub same : ApplicationStatus → ApplicationStatus → Bool
unfolding to_text
same a b = to_text a == to_text b

unfoldable pub valid : ApplicationStatus → Bool
valid (other s) = false
valid draft = true
valid _ = true

unfoldable pub parse : String → Result ApplicationStatus
unfolding of_text valid
parse value =
    let s = of_text value in
    if valid s then ok s else err (message ("invalid application status: " +++ value))

-- The map `applicationTransitions`; it has no entry for an undeclared text.
unfoldable pub application_transitions : ApplicationStatus → List ApplicationStatus
application_transitions draft = waiting_approval ∷ cancelled ∷ []
application_transitions waiting_approval = approved ∷ cancelled ∷ []
application_transitions approved = manual_action_required ∷ cancelled ∷ []
application_transitions manual_action_required = submitted ∷ cancelled ∷ []
application_transitions submitted = hr_contact ∷ interview ∷ rejected ∷ []
application_transitions hr_contact = interview ∷ rejected ∷ []
application_transitions interview = offer ∷ rejected ∷ []
application_transitions offer = []
application_transitions rejected = []
application_transitions cancelled = []
application_transitions (other s) = []

unfoldable pub can_transition : ApplicationStatus → ApplicationStatus → Bool
unfolding same any application_transitions
can_transition from to = same from to || any (same to) (application_transitions from)

unfoldable pub is_terminal : ApplicationStatus → Bool
is_terminal cancelled = true
is_terminal rejected = true
is_terminal offer = true
is_terminal _ = false

unfoldable pub is_active : ApplicationStatus → Bool
is_active cancelled = false
is_active rejected = false
is_active _ = true
