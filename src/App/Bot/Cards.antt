-- ===== src/App/Bot/Cards.antt =====
-- internal/app/bot.go: the texts and the keyboards of the bot.
use Prim.Native.String.{[], ◌∷◌}
use job_scout_ai.Prelude.{
  String, [], ◌∷◌, List, ◌++◌, map, Option, none, some, is_empty, if◌then◌else◌, ℤ,
}
use job_scout_ai.Host.{Host}
use job_scout_ai.Strings.{◌+++◌, is_nil, join, trim_space}
use job_scout_ai.Telegram.{
  InlineKeyboardButton, InlineKeyboardMarkup, new_inline_keyboard, button, url_button,
}
use job_scout_ai.Core.Decimal.{itoa}
use job_scout_ai.Core.Types.{Vacancy, Company, VacancyMatch}
use job_scout_ai.Core.VacancyStatus
use job_scout_ai.Core.ApplicationStatus
use job_scout_ai.Core.ApplicationStatus.{ApplicationStatus}
use job_scout_ai.Core.Resume.{Resume, is_blank, resume_target_role_label, language_text}
use job_scout_ai.Store.Lists.{VacancyWithMatch}
use job_scout_ai.App.Decision.{hostname_from_url}
use job_scout_ai.App.View.{ApplicationView}

unfoldable pub salary_range_label : Option ℤ → Option ℤ → String → String
unfolding itoa
salary_range_label none none currency = "not specified"
salary_range_label (some from) (some to) currency =
    itoa from +++ "-" +++ itoa to +++ " " +++ currency
salary_range_label (some from) none currency = "from " +++ itoa from +++ " " +++ currency
salary_range_label none (some to) currency = "to " +++ itoa to +++ " " +++ currency

abbrev pub callback : String → String → String → String
callback prefix id action = prefix +++ ":" +++ id +++ ":" +++ action

-- A row with the link, where there is one.
abbrev pub link_row : String → List (List InlineKeyboardButton)
link_row target = if is_blank target then [] else (url_button "Открыть вакансию" target ∷ []) ∷ []

abbrev pub link_target : Vacancy → String
link_target v = if is_blank v.canonical_url then v.source_url else v.canonical_url

unfoldable pub vacancy_card_markup : VacancyWithMatch → InlineKeyboardMarkup
unfolding new_inline_keyboard button url_button trim_space VacancyStatus.same
vacancy_card_markup item =
    let links = link_row (link_target item.vacancy) in
    if VacancyStatus.same item.vacancy.status VacancyStatus.archived
    then new_inline_keyboard links
    else new_inline_keyboard (
        (button "Подготовить отклик" (callback "vac" item.vacancy.id "prep")
          ∷ button "Пропустить" (callback "vac" item.vacancy.id "skip")
          ∷ [])
        ∷ links)

abbrev pub display_name_of : Option Company → String
display_name_of none = ""
display_name_of (some c) = c.display_name

abbrev pub score_of : Option VacancyMatch → String
unfolding itoa
score_of none = "n/a"
score_of (some m) = itoa m.total_score

abbrev positive_of : Option VacancyMatch → String
unfolding join
positive_of none = ""
positive_of (some m) = join m.positive_reasons "; "

abbrev negative_of : Option VacancyMatch → String
unfolding join
negative_of none = ""
negative_of (some m) = join m.negative_reasons "; "

-- A line where the text is not empty.
abbrev pub line_if : String → String → List String
line_if text line = if is_nil text then [] else line ∷ []

module _ (h : Host) where
  unfoldable pub vacancy_card_text : VacancyWithMatch → String
  unfolding join itoa trim_space salary_range_label hostname_from_url
  vacancy_card_text item =
      let v = item.vacancy in
      let positive = positive_of item.match in
      let negative = negative_of item.match in
      let link = link_target v in
      join
        ((("<b>" +++ h.escape_string v.title +++ "</b>")
            ∷ h.escape_string (display_name_of item.company)
            ∷ ("Source: " +++ h.escape_string (hostname_from_url h v.source_url))
            ∷ ("Published: " +++ h.format_date v.published_at)
            ∷ ("Format: " +++ h.escape_string v.remote_type)
            ∷ ("Salary: "
                +++ h.escape_string (salary_range_label v.salary_from v.salary_to v.currency))
            ∷ ("Score: " +++ h.escape_string (score_of item.match))
            ∷ [])
          ++ line_if positive ("Match: " +++ h.escape_string positive)
          ++ line_if negative ("Risks: " +++ h.escape_string negative)
          ++ line_if link (h.escape_string link))
        "\n"

  abbrev resume_line : Option Resume → String
  unfolding resume_target_role_label language_text
  resume_line none = "n/a"
  resume_line (some r) =
      h.escape_string r.name
      +++ " ("
      +++ h.escape_string (resume_target_role_label r.target_role)
      +++ ", "
      +++ h.escape_string (language_text r.language)
      +++ ")"

  -- vacancy.Title of a nil pointer is a panic; every view that the service builds has its vacancy.
  abbrev title_of : Option Vacancy → String
  title_of none = ""
  title_of (some v) = v.title

  abbrev warning_lines : List String → List String
  warning_lines warnings =
      if is_empty warnings
      then []
      else "<b>Warnings</b>" ∷ map (λ w. "• " +++ h.escape_string w) warnings

  unfoldable pub application_preview_text : ApplicationView → String
  unfolding join itoa resume_target_role_label language_text
  application_preview_text view =
      join
        (("<b>Подготовка отклика</b>"
            ∷ ("<b>" +++ h.escape_string (title_of view.vacancy) +++ "</b>")
            ∷ h.escape_string (display_name_of view.company)
            ∷ ("Score: " +++ h.escape_string (score_of view.match))
            ∷ ("Резюме: " +++ resume_line view.resume)
            ∷ "<b>Сопроводительное письмо</b>"
            ∷ h.escape_string view.application.cover_letter
            ∷ [])
          ++ warning_lines view.warnings
          ++ line_if view.vacancy_url (h.escape_string view.vacancy_url))
        "\n"

unfoldable pub application_status_label : ApplicationStatus → String
unfolding ApplicationStatus.to_text
application_status_label ApplicationStatus.draft = "Черновик отклика"
application_status_label ApplicationStatus.waiting_approval = "Отклик готов"
application_status_label ApplicationStatus.approved = "Отклик подтверждён"
application_status_label ApplicationStatus.manual_action_required = "Нужна ручная отправка"
application_status_label ApplicationStatus.submitted = "Отклик отправлен вручную"
application_status_label ApplicationStatus.cancelled = "Отклик отменён"
application_status_label ApplicationStatus.hr_contact = "HR связался"
application_status_label ApplicationStatus.interview = "Назначено интервью"
application_status_label ApplicationStatus.offer = "Получен оффер"
application_status_label ApplicationStatus.rejected = "Получен отказ"
application_status_label s = ApplicationStatus.to_text s

unfoldable pub status_lines : ApplicationStatus → List String
status_lines ApplicationStatus.manual_action_required =
    "Автоматическая отправка не выполнена."
    ∷ "Открой вакансию по ссылке и нажми «Я откликнулся» после ручной отправки." ∷ []
status_lines ApplicationStatus.approved =
    "Автоматическая отправка не выполнена."
    ∷ "Открой вакансию по ссылке и нажми «Я откликнулся» после ручной отправки." ∷ []
status_lines ApplicationStatus.submitted =
    "Ручная отправка зафиксирована. Теперь можно отмечать результат." ∷ []
status_lines ApplicationStatus.cancelled =
    "Отклик отменён. При необходимости можно подготовить новый." ∷ []
status_lines ApplicationStatus.hr_contact = "Результат вручную зафиксирован." ∷ []
status_lines ApplicationStatus.interview = "Результат вручную зафиксирован." ∷ []
status_lines ApplicationStatus.offer = "Результат вручную зафиксирован." ∷ []
status_lines ApplicationStatus.rejected = "Результат вручную зафиксирован." ∷ []
status_lines _ = "Черновик отклика сохранён." ∷ []

unfoldable pub application_status_text : Host → ApplicationView → String
unfolding join itoa resume_target_role_label language_text application_status_label status_lines
application_status_text h view =
    let status = view.application.status in
    join
      ((("<b>" +++ h.escape_string (application_status_label status) +++ "</b>")
          ∷ ("<b>" +++ h.escape_string (title_of h view.vacancy) +++ "</b>")
          ∷ h.escape_string (display_name_of view.company)
          ∷ ("Score: " +++ h.escape_string (score_of view.match))
          ∷ ("Резюме: " +++ resume_line h view.resume)
          ∷ [])
        ++ status_lines status
        ++ line_if view.vacancy_url (h.escape_string view.vacancy_url))
      "\n"

unfoldable pub application_preview_markup : ApplicationView → InlineKeyboardMarkup
unfolding new_inline_keyboard button url_button trim_space
application_preview_markup view = new_inline_keyboard (
    (button "Подтвердить" (callback "app" view.application.id "approve")
      ∷ button "Отменить" (callback "app" view.application.id "cancel")
      ∷ [])
    ∷ link_row view.vacancy_url)

abbrev pub again_row : Option Vacancy → List (List InlineKeyboardButton)
again_row none = []
again_row (some v) = (button "Подготовить отклик" (callback "vac" v.id "prep") ∷ []) ∷ []

-- The rows of each group of states.
unfoldable pub submit_rows : String → List (List InlineKeyboardButton)
unfolding button
submit_rows id = (button "Я откликнулся" (callback "app" id "submitted") ∷ []) ∷ []

unfoldable pub outcome_rows : String → List (List InlineKeyboardButton)
unfolding button
outcome_rows id =
    (button "Связался HR" (callback "app" id "hr")
      ∷ button "Назначено интервью" (callback "app" id "interview")
      ∷ [])
    ∷ (button "Получен отказ" (callback "app" id "reject")
        ∷ button "Получен оффер" (callback "app" id "offer")
        ∷ [])
    ∷ []

unfoldable pub status_markup : ApplicationStatus → ApplicationView → InlineKeyboardMarkup
unfolding new_inline_keyboard button url_button trim_space submit_rows outcome_rows
    application_preview_markup
status_markup ApplicationStatus.manual_action_required view =
    new_inline_keyboard (submit_rows view.application.id ++ link_row view.vacancy_url)
status_markup ApplicationStatus.approved view =
    new_inline_keyboard (submit_rows view.application.id ++ link_row view.vacancy_url)
status_markup ApplicationStatus.submitted view =
    new_inline_keyboard (outcome_rows view.application.id ++ link_row view.vacancy_url)
status_markup ApplicationStatus.hr_contact view =
    new_inline_keyboard (outcome_rows view.application.id ++ link_row view.vacancy_url)
status_markup ApplicationStatus.interview view =
    new_inline_keyboard (outcome_rows view.application.id ++ link_row view.vacancy_url)
status_markup ApplicationStatus.offer view =
    new_inline_keyboard (outcome_rows view.application.id ++ link_row view.vacancy_url)
status_markup ApplicationStatus.rejected view =
    new_inline_keyboard (outcome_rows view.application.id ++ link_row view.vacancy_url)
status_markup ApplicationStatus.cancelled view =
    new_inline_keyboard (again_row view.vacancy ++ link_row view.vacancy_url)
status_markup _ view = application_preview_markup view

unfoldable pub application_status_markup : ApplicationView → InlineKeyboardMarkup
unfolding status_markup
application_status_markup view = status_markup view.application.status view
