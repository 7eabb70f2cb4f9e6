-- ===== src/App/Bot.antt =====
-- internal/app/bot.go: what the bot does with the updates it receives. A call of the client whose error the code
-- drops is `tell`, one whose error it returns is `send`.
pub mod Cards
pub mod Commands
pub mod Replies
pub mod Buttons
pub mod Strangers
pub mod Polling
pub mod Sound
use Prim.Native.String.{[], ◌∷◌}
use job_scout_ai.Prelude.{
  ℕ, zero, suc, String, [], ◌∷◌, Bool, true, false, not, ◌||◌, List, ◌++◌, Option, none, some,
  if◌then◌else◌, ◌==◌, ℤ, pos, ◌+ℤ◌, eqb_ℤ, leb_ℤ, Result, ok, err, Error, message, length,
}
use job_scout_ai.Strings.{◌+++◌, trim_space, has_prefix, fields, join, map_chars}
use job_scout_ai.Strings.Affixes.{trim_prefix, before, cut}
use job_scout_ai.Telegram.{
  User, Message, CallbackQuery, Update, Call, InlineKeyboardMarkup, send_message, edit_message_text,
  answer_callback_query,
}
use job_scout_ai.Telegram
use job_scout_ai.Core.Decimal.{itoa}
use job_scout_ai.Core.Types.{CandidateProfile}
use job_scout_ai.Core.VacancyStatus
use job_scout_ai.Core.ApplicationStatus
use job_scout_ai.Core.ApplicationStatus.{ApplicationStatus}
use job_scout_ai.Store.Exec.{Exec, pure, raise, lift, attempt, tell, ask, ◌>>=◌, ◌>>◌}
use job_scout_ai.Store.Lists.{VacancyWithMatch}
use job_scout_ai.App.{App, get_profile}
use job_scout_ai.App.Decision.{first_non_empty}
use job_scout_ai.App.View.{ApplicationView}
use job_scout_ai.App.Search.{Outcome, SearchSummary, no_results, run_search}
use job_scout_ai.App.Vacancies.{recommended_page, change_vacancy_status}
use job_scout_ai.App.Applications.{
  approve_application, cancel_application, mark_application_submitted,
}
use job_scout_ai.App.Outcome.{ApplicationOutcomeRequest, update_application_outcome}
use job_scout_ai.App.Prepare.{prepare_application}
use job_scout_ai.App.Http.Errors.{error_text}
use Cards.{
  vacancy_card_text, vacancy_card_markup, application_preview_text, application_preview_markup,
  application_status_text, application_status_markup,
}
use Commands.{
  telegram_actor, split_command, Action, prepare, skip, approve, cancel, submitted, outcome,
  unknown, callback_action,
}
use Replies.{
  send, reply, failing, reply_telegram_denied, reply_telegram_start, send_top_recommended_vacancy,
  handle_search,
}

module _ (app : App) (client : Telegram.Client) where
  unfoldable pub is_telegram_owner : ℤ → Bool
  is_telegram_owner user_id = eqb_ℤ user_id app.cfg.telegram_owner_id

  abbrev pub from_owner : Option User → Bool
  unfolding is_telegram_owner
  from_owner none = false
  from_owner (some user) = is_telegram_owner user.id

  -- The switch of handleTelegramMessage.
  unfoldable pub handle_command : ℤ → String → String → Exec (Unit {0})
  unfolding reply_telegram_start handle_search send_top_recommended_vacancy send
  handle_command chat_id command arg =
      if command == "start"
      then reply_telegram_start app client chat_id
      else if command == "search"
      then handle_search app client chat_id arg
      else if command == "recommended"
      then send_top_recommended_vacancy app client chat_id
      else send app client (send_message chat_id "Commands: /start /search /recommended" none)

  unfoldable pub handle_telegram_message : Message → Exec (Unit {0})
  unfolding is_telegram_owner reply_telegram_denied split_command handle_command
  handle_telegram_message msg =
      let (command, arg) = split_command app msg.text in
      if not (from_owner msg.from)
      then reply_telegram_denied app client msg.chat.id
      else handle_command msg.chat.id command arg

  -- The error is shown to the user and returned.
  module _ {A : Type 0} where
    unfoldable pub or_reply : CallbackQuery → Result A → (A → Exec (Unit {0})) → Exec (Unit {0})
    unfolding ◌>>=◌ error_text reply
    or_reply cb (ok a) go = go a
    or_reply cb (err e) go = do reply app client cb (app.host.escape_string (error_text e)); raise e

  -- Where the message with the button is known, it is replaced by the call.
  abbrev pub edit : (ℤ → ℤ → Call) → Option Message → Exec (Unit {0})
  unfolding ◌>>=◌ tell
  edit call none = pure tt
  edit call (some m) = do _ ← tell client.answer (call m.chat.id m.message_id); pure tt

  unfoldable pub reply_with_application_view :
      CallbackQuery → String → ApplicationView → Exec (Unit {0})
  unfolding ◌>>=◌ tell reply application_status_text application_status_markup
  reply_with_application_view cb answer_text view = do
    edit
        (λ chat_id message_id.
          edit_message_text chat_id message_id (application_status_text app.host view)
            (some (application_status_markup view)))
        cb.message
    reply app client cb answer_text

  -- The preview is a message of its own, whose error is shown too.
  unfoldable pub send_preview : CallbackQuery → ApplicationView → Option Message → Exec (Unit {0})
  unfolding ◌>>=◌ attempt send or_reply reply application_preview_text application_preview_markup
  send_preview cb view none = reply app client cb "Preview ready"
  send_preview cb view (some m) = do
    sent ← attempt (
        send app client (
          send_message m.chat.id (application_preview_text app.host view)
            (some (application_preview_markup view))))
    or_reply cb sent (λ _. reply app client cb "Preview ready")

  unfoldable pub handle_telegram_prepare_application : CallbackQuery → String → Exec (Unit {0})
  unfolding ◌>>=◌ attempt prepare_application telegram_actor or_reply send_preview
  handle_telegram_prepare_application cb vacancy_id = do
    view ← attempt (prepare_application app vacancy_id none (telegram_actor cb.from))
    or_reply cb view (λ v. send_preview cb v cb.message)

  -- Approve, cancel, submitted and outcome: a command on an application, and the view of it.
  unfoldable pub handle_view : CallbackQuery → String → Exec ApplicationView → Exec (Unit {0})
  unfolding ◌>>=◌ attempt or_reply reply_with_application_view
  handle_view cb answer_text command = do
    view ← attempt command
    or_reply cb view (reply_with_application_view cb answer_text)

  abbrev pub show_card : CallbackQuery → VacancyWithMatch → Exec (Unit {0})
  unfolding ◌>>=◌ tell reply vacancy_card_text vacancy_card_markup
  show_card cb item = do
    edit
        (λ chat_id message_id.
          edit_message_text chat_id message_id (vacancy_card_text app.host item)
            (some (vacancy_card_markup item)))
        cb.message
    reply app client cb "Updated"

  unfoldable pub handle_skip : CallbackQuery → String → Exec (Unit {0})
  unfolding ◌>>=◌ attempt change_vacancy_status or_reply tell reply vacancy_card_text
      vacancy_card_markup
  handle_skip cb id = do
    item ← attempt (change_vacancy_status id VacancyStatus.archived)
    or_reply cb item (show_card cb)

  unfoldable pub handle_action : CallbackQuery → Action → Exec (Unit {0})
  unfolding handle_telegram_prepare_application handle_skip handle_view reply telegram_actor
      approve_application cancel_application mark_application_submitted update_application_outcome
      ApplicationStatus.to_text
  handle_action cb (prepare id) = handle_telegram_prepare_application cb id
  handle_action cb (skip id) = handle_skip cb id
  handle_action cb (approve id) =
      handle_view cb "Approved" (approve_application app id (telegram_actor cb.from))
  handle_action cb (cancel id) =
      handle_view cb "Cancelled" (cancel_application app id (telegram_actor cb.from))
  handle_action cb (submitted id) =
      handle_view cb "Saved" (mark_application_submitted app id (telegram_actor cb.from))
  handle_action cb (outcome id status) = handle_view cb "Saved" (
      update_application_outcome app
        (record { status = ApplicationStatus.to_text status; rejection_reason = ""; notes = "" }) id
        (telegram_actor cb.from))
  handle_action cb unknown = reply app client cb "Unknown action"

  -- ErrUnknownUser
  unfoldable pub deny_callback : CallbackQuery → Exec (Unit {0})
  unfolding ◌>>=◌ reply
  deny_callback cb = do reply app client cb "Access denied"; raise (message "unknown telegram user")

  unfoldable pub handle_telegram_callback : CallbackQuery → Exec (Unit {0})
  unfolding deny_callback callback_action handle_action
  handle_telegram_callback cb =
      if not (eqb_ℤ cb.from.id app.cfg.telegram_owner_id)
      then deny_callback cb
      else handle_action cb (callback_action cb.callback_data)

  unfoldable pub handle_callback_query : Option CallbackQuery → Exec (Unit {0})
  unfolding handle_telegram_callback pure
  handle_callback_query none = pure tt
  handle_callback_query (some cb) = handle_telegram_callback cb

  unfoldable pub handle_message_or : Option Message → Option CallbackQuery → Exec (Unit {0})
  unfolding handle_telegram_message handle_callback_query
  handle_message_or (some msg) cb = handle_telegram_message msg
  handle_message_or none cb = handle_callback_query cb

  unfoldable pub handle_telegram_update : Update → Exec (Unit {0})
  unfolding handle_message_or
  handle_telegram_update update = handle_message_or update.message update.callback_query

  -- The loop over the updates of one answer: the next offset. An error of a handler is logged only.
  unfoldable pub handle_updates : ℤ → List Update → Exec ℤ
  unfolding ◌>>=◌ attempt handle_telegram_update
  handle_updates offset [] = pure offset
  handle_updates offset (update ∷ updates) = do
    let offset = if leb_ℤ offset update.update_id then update.update_id +ℤ pos 1 else offset
    _ ← attempt (handle_telegram_update update)
    handle_updates offset updates

  -- An error of the request is logged, and after a pause the same offset is asked for again.
  unfoldable pub handle_batch : ℤ → Result (List Update) → Exec ℤ
  unfolding pure handle_updates
  handle_batch offset (err e) = pure offset
  handle_batch offset (ok updates) = handle_updates offset updates

  -- The rounds of StartTelegramPolling until its context is cancelled.
  unfoldable pub poll : ℕ → ℤ → Exec ℤ
  unfolding ◌>>=◌ ask handle_batch
  poll zero offset = pure offset
  poll (suc rounds) offset = do
    updates ← ask (client.get_updates offset)
    offset ← handle_batch offset updates
    poll rounds offset

unfoldable pub start_telegram_polling : App → ℕ → Exec (Unit {0})
unfolding ◌>>=◌ poll
start_telegram_polling app rounds = elim app.tg_client [
  | none ↦ pure tt
  | some client ↦ poll app client rounds (pos 0) >>= λ _. pure tt
]
