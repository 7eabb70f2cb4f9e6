-- ===== src/App/Bot/Buttons.antt =====
-- internal/app/bot.go: the bot understands the buttons that it shows.
use Prim.Native.String.{[], ◌∷◌}
use Prim.Native.Char.{code}
use text.Mathlib.TextLemmas.{nil-append, cons-append}
use job_scout_ai.Prelude.{
  String, ◌≡◌, refl, ap, ◌∙◌, false, List, [], ◌∷◌, ◌++◌, Option, none, some, eqb, arith,
  if◌then◌else◌, Bool-cases, inl, inr,
}
use job_scout_ai.Strings.{◌+++◌, is_nil}
use job_scout_ai.Strings.Affixes.{cut}
use job_scout_ai.Telegram.{InlineKeyboardButton, button, url_button, new_inline_keyboard}
use job_scout_ai.Core.Normalize.{has_char}
use job_scout_ai.Core.Types.{Vacancy}
use job_scout_ai.Core.VacancyStatus
use job_scout_ai.Core.Resume.{is_blank}
use job_scout_ai.Core.ApplicationStatus.{ApplicationStatus}
use job_scout_ai.Store.Lists.{VacancyWithMatch}
use job_scout_ai.App.View.{ApplicationView}
use job_scout_ai.App.Bot.Commands.{
  Action, prepare, skip, approve, cancel, submitted, outcome, callback_action, action_of_parts,
  parts_of, with_prefix,
}
use job_scout_ai.App.Bot.Cards.{
  callback, application_status_markup, status_markup, application_preview_markup, submit_rows,
  outcome_rows, again_row, link_row, vacancy_card_markup, link_target,
}

-- A text that can stand between colons.
abbrev pub NoColon : String → Type 0
NoColon s = has_char b':' s ≡ false

colon-append : (t : String) → ":" +++ t ≡ ":" ∷ t
colon-append t = cons-append ":" [] t ∙ ap (λ s. ":" ∷ s) (nil-append t)

cut-append : (s t : String) → NoColon s → cut ":" (s +++ ":" +++ t) ≡ some (s, t)
unfolding cut has_char
cut-append [] t h = rw (nil-append (":" +++ t), colon-append t) refl
cut-append (c ∷ s) t h = elim (Bool-cases (eqb (code c) b':')) [
  | inl y ↦ absurd (ground arith)
  | inr n ↦ rw (cons-append c s (":" +++ t)) (rw (n, cut-append s t (ground arith)) refl)
]

-- The data of a button names its action, where the identifier has no colon.
understood :
    (prefix id action : String)
    → NoColon prefix
    → NoColon id
    → callback_action (callback prefix id action) ≡ action_of_parts (some (prefix, id, action))
unfolding callback_action
understood prefix id action p i =
    ap (λ o. action_of_parts (parts_of o)) (cut-append prefix (id +++ ":" +++ action) p)
    ∙ ap (λ o. action_of_parts (with_prefix prefix o)) (cut-append id action i)

-- What the buttons of a row ask for, but those that open a link.
abbrev pub asked_by_row : List InlineKeyboardButton → List Action
asked_by_row [] = []
asked_by_row (b ∷ row) =
    if is_nil b.callback_data
    then asked_by_row row
    else callback_action b.callback_data ∷ asked_by_row row

abbrev pub asked_by : List (List InlineKeyboardButton) → List Action
asked_by [] = []
asked_by (row ∷ rows) = asked_by_row row ++ asked_by rows

abbrev pub again : Option Vacancy → List Action
again none = []
again (some v) = prepare v.id ∷ []

abbrev pub answers : String → List Action
answers id =
    outcome id ApplicationStatus.hr_contact
    ∷ outcome id ApplicationStatus.interview
    ∷ outcome id ApplicationStatus.rejected
    ∷ outcome id ApplicationStatus.offer
    ∷ []

-- The actions that are offered on an application in each state.
abbrev pub offered : ApplicationStatus → String → Option Vacancy → List Action
offered ApplicationStatus.manual_action_required id vacancy = submitted id ∷ []
offered ApplicationStatus.approved id vacancy = submitted id ∷ []
offered ApplicationStatus.cancelled id vacancy = again vacancy
offered ApplicationStatus.submitted id vacancy = answers id
offered ApplicationStatus.hr_contact id vacancy = answers id
offered ApplicationStatus.interview id vacancy = answers id
offered ApplicationStatus.offer id vacancy = answers id
offered ApplicationStatus.rejected id vacancy = answers id
offered _ id vacancy = approve id ∷ cancel id ∷ []

-- A link asks for nothing.
links_ask : (target : String) → asked_by (link_row target) ≡ []
unfolding url_button
links_ask target = elim (Bool-cases (is_blank target)) [ inl y ↦ rw y refl | inr n ↦ rw n refl ]

named : (prefix rest : String) → is_nil (prefix +++ ":" +++ rest) ≡ false
named [] rest = ap is_nil (nil-append (":" +++ rest) ∙ colon-append rest)
named (c ∷ prefix) rest = ap is_nil (cons-append c prefix (":" +++ rest))

-- A button with data asks for what its data says.
button_asks :
    (label prefix id action : String) (row : List InlineKeyboardButton)
    → NoColon prefix
    → NoColon id
    → asked_by_row (button label (callback prefix id action) ∷ row)
      ≡ action_of_parts (some (prefix, id, action)) ∷ asked_by_row row
unfolding button
button_asks label prefix id action row p i =
    rw (named prefix (id +++ ":" +++ action), understood prefix id action p i) refl

rows_ask :
    (rows : List (List InlineKeyboardButton)) (target : String)
    → asked_by (rows ++ link_row target) ≡ asked_by rows
rows_ask [] target = links_ask target
rows_ask (row ∷ rows) target = ap (λ r. asked_by_row row ++ r) (rows_ask rows target)

module _ (id : String) (i : NoColon id) where
  submit_asks : asked_by (submit_rows id) ≡ submitted id ∷ []
  unfolding submit_rows has_char
  submit_asks = ap (λ r. r ++ []) (button_asks "Я откликнулся" "app" id "submitted" [] refl i)

  outcomes_ask : asked_by (outcome_rows id) ≡ answers id
  unfolding outcome_rows has_char
  outcomes_ask = simp (button_asks)

  pair_asks :
      (prefix first second : String) (one two : Action) (l m target : String)
      → NoColon prefix
      → action_of_parts (some (prefix, id, first)) ≡ one
      → action_of_parts (some (prefix, id, second)) ≡ two
      → asked_by (
          (button l (callback prefix id first) ∷ button m (callback prefix id second) ∷ [])
          ∷ link_row target)
        ≡ one ∷ two ∷ []
  pair_asks prefix first second one two l m target p e f =
      ap (λ r. r ++ asked_by (link_row target))
        (button_asks l prefix id first (button m (callback prefix id second) ∷ []) p i
          ∙ ap (λ r. action_of_parts (some (prefix, id, first)) ∷ r)
              (button_asks m prefix id second [] p i))
      ∙ ap
          (λ r.
            (action_of_parts (some (prefix, id, first))
              ∷ action_of_parts (some (prefix, id, second))
              ∷ [])
            ++ r)
          (links_ask target)
      ∙ (rw (e, f) refl)

  preview_asks :
      (view : ApplicationView)
      → view.application.id ≡ id
      → asked_by (application_preview_markup view).inline_keyboard ≡ approve id ∷ cancel id ∷ []
  unfolding application_preview_markup new_inline_keyboard has_char
  preview_asks view e = rw e (
      pair_asks "app" "approve" "cancel" (approve id) (cancel id) "Подтвердить" "Отменить"
        view.vacancy_url refl refl refl)

again_asks :
    (v : Option Vacancy)
    → ((x : Vacancy) → v ≡ some x → NoColon x.id)
    → asked_by (again_row v) ≡ again v
unfolding has_char
again_asks none h = refl
again_asks (some v) h =
    ap (λ r. r ++ []) (button_asks "Подготовить отклик" "vac" v.id "prep" [] refl (h v refl))

module _ (view : ApplicationView) (i : NoColon view.application.id) where
  submit_shown :
      asked_by (submit_rows view.application.id ++ link_row view.vacancy_url)
      ≡ submitted view.application.id ∷ []
  submit_shown =
      rows_ask (submit_rows view.application.id) view.vacancy_url
      ∙ submit_asks view.application.id i

  answers_shown :
      asked_by (outcome_rows view.application.id ++ link_row view.vacancy_url)
      ≡ answers view.application.id
  answers_shown =
      rows_ask (outcome_rows view.application.id) view.vacancy_url
      ∙ outcomes_ask view.application.id i

  status_shown :
      ((x : Vacancy) → view.vacancy ≡ some x → NoColon x.id)
      → (s : ApplicationStatus)
      → asked_by (status_markup s view).inline_keyboard ≡ offered s view.application.id view.vacancy
  unfolding status_markup new_inline_keyboard
  status_shown v ApplicationStatus.manual_action_required = submit_shown
  status_shown v ApplicationStatus.approved = submit_shown
  status_shown v ApplicationStatus.submitted = answers_shown
  status_shown v ApplicationStatus.hr_contact = answers_shown
  status_shown v ApplicationStatus.interview = answers_shown
  status_shown v ApplicationStatus.offer = answers_shown
  status_shown v ApplicationStatus.rejected = answers_shown
  status_shown v ApplicationStatus.cancelled =
      rows_ask (again_row view.vacancy) view.vacancy_url ∙ again_asks view.vacancy v
  status_shown v _ = preview_asks view.application.id i view refl

card_shown :
    (item : VacancyWithMatch)
    → NoColon item.vacancy.id
    → asked_by (vacancy_card_markup item).inline_keyboard ≡ (
        if VacancyStatus.same item.vacancy.status VacancyStatus.archived
        then []
        else prepare item.vacancy.id ∷ skip item.vacancy.id ∷ [])
unfolding vacancy_card_markup new_inline_keyboard has_char
card_shown item i =
    elim (Bool-cases (VacancyStatus.same item.vacancy.status VacancyStatus.archived)) [
      | inl y ↦ rw y (links_ask (link_target item.vacancy))
      | inr n ↦ rw n (
          pair_asks item.vacancy.id i "vac" "prep" "skip" (prepare item.vacancy.id)
            (skip item.vacancy.id) "Подготовить отклик" "Пропустить" (link_target item.vacancy) refl
            refl refl)
    ]

-- The bot understands its own buttons, where the identifiers in them have no colon: the data of the buttons
-- under an application is read as exactly the actions that are offered in its state, on this application
-- or, for a cancelled one, on its vacancy; and the buttons of a vacancy's card as preparing or skipping
-- this vacancy, or as nothing if it is archived.
pub buttons_asked :
    (view : ApplicationView) (item : VacancyWithMatch)
    → NoColon view.application.id
    → ((x : Vacancy) → view.vacancy ≡ some x → NoColon x.id)
    → NoColon item.vacancy.id
    → (asked_by (application_status_markup view).inline_keyboard
        ≡ offered view.application.status view.application.id view.vacancy)
      × (asked_by (vacancy_card_markup item).inline_keyboard ≡ (
          if VacancyStatus.same item.vacancy.status VacancyStatus.archived
          then []
          else prepare item.vacancy.id ∷ skip item.vacancy.id ∷ []))
unfolding application_status_markup
buttons_asked view item i v j = (status_shown view i v view.application.status, card_shown item j)
