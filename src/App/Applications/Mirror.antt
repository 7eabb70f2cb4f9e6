-- ===== src/App/Applications/Mirror.antt =====
-- The moves of an application and those of its vacancy, which follows it.
use job_scout_ai.Prelude.{◌≡◌, refl, true, false}
use job_scout_ai.Core.VacancyStatus
use job_scout_ai.Core.VacancyStatus.{VacancyStatus}
use job_scout_ai.Core.ApplicationStatus
use job_scout_ai.Core.ApplicationStatus.{ApplicationStatus}
use job_scout_ai.App.View.{is_outcome_status, vacancy_status_for_outcome}

-- Where the vacancy of an application stands: before the submission it can be submitted, and from then
-- on it has the state of the application.
pub data Mirrors : ApplicationStatus → VacancyStatus → Type 0 where
  open_vacancy :
      (v : VacancyStatus)
      → VacancyStatus.can_transition v VacancyStatus.submitted ≡ true
      → Mirrors ApplicationStatus.manual_action_required v
  sent : Mirrors ApplicationStatus.submitted VacancyStatus.submitted
  answered :
      (s : ApplicationStatus)
      → is_outcome_status s ≡ true
      → Mirrors s (vacancy_status_for_outcome s)

answer_moves :
    (s t : ApplicationStatus)
    → is_outcome_status s ≡ true
    → is_outcome_status t ≡ true
    → ApplicationStatus.can_transition s t ≡ true
    → VacancyStatus.can_transition (vacancy_status_for_outcome s) (vacancy_status_for_outcome t)
      ≡ true
unfolding is_outcome_status vacancy_status_for_outcome ApplicationStatus.can_transition
    VacancyStatus.can_transition
answer_moves ApplicationStatus.hr_contact ApplicationStatus.hr_contact o p c = refl
answer_moves ApplicationStatus.hr_contact ApplicationStatus.interview o p c = refl
answer_moves ApplicationStatus.hr_contact ApplicationStatus.offer o p c = refl
answer_moves ApplicationStatus.hr_contact ApplicationStatus.rejected o p c = refl
answer_moves ApplicationStatus.hr_contact _ o p c = absurd (cc)
answer_moves ApplicationStatus.interview ApplicationStatus.interview o p c = refl
answer_moves ApplicationStatus.interview ApplicationStatus.offer o p c = refl
answer_moves ApplicationStatus.interview ApplicationStatus.rejected o p c = refl
answer_moves ApplicationStatus.interview _ o p c = absurd (cc)
answer_moves ApplicationStatus.offer ApplicationStatus.offer o p c = refl
answer_moves ApplicationStatus.offer _ o p c = absurd (cc)
answer_moves ApplicationStatus.rejected ApplicationStatus.rejected o p c = refl
answer_moves ApplicationStatus.rejected _ o p c = absurd (cc)
answer_moves _ t o p c = absurd (cc)

first_answer :
    (t : ApplicationStatus)
    → is_outcome_status t ≡ true
    → VacancyStatus.can_transition VacancyStatus.submitted (vacancy_status_for_outcome t) ≡ true
unfolding is_outcome_status vacancy_status_for_outcome VacancyStatus.can_transition
first_answer ApplicationStatus.hr_contact o = refl
first_answer ApplicationStatus.interview o = refl
first_answer ApplicationStatus.offer o = refl
first_answer ApplicationStatus.rejected o = refl
first_answer _ o = absurd (cc)

no_answer_yet :
    (t : ApplicationStatus)
    → is_outcome_status t ≡ true
    → ApplicationStatus.can_transition ApplicationStatus.manual_action_required t ≡ false
unfolding is_outcome_status ApplicationStatus.can_transition
no_answer_yet ApplicationStatus.hr_contact o = refl
no_answer_yet ApplicationStatus.interview o = refl
no_answer_yet ApplicationStatus.offer o = refl
no_answer_yet ApplicationStatus.rejected o = refl
no_answer_yet _ o = absurd (cc)

-- Where the vacancy mirrors its application and the application may move on to an answer of the employer,
-- the vacancy may move to the state that vacancyStatusForOutcome names, and mirrors the application
-- again.
pub outcome-Mirrors :
    (s t : ApplicationStatus) (v : VacancyStatus)
    → Mirrors s v
    → is_outcome_status t ≡ true
    → ApplicationStatus.can_transition s t ≡ true
    → (VacancyStatus.can_transition v (vacancy_status_for_outcome t) ≡ true)
      × Mirrors t (vacancy_status_for_outcome t)
outcome-Mirrors _ t _ (open_vacancy v can) o c = absurd (cc (no_answer_yet t o))
outcome-Mirrors _ t _ sent o c = (first_answer t o, answered t o)
outcome-Mirrors _ t _ (answered s is_answer) o c = (answer_moves s t is_answer o c, answered t o)
