-- ===== src/App/Bot/Sound.antt =====
-- internal/app/bot.go: no update breaks what holds of the applications.
use job_scout_ai.Prelude.{suc, [], ◌∷◌, ◌++◌, String, Option, none, some, ℤ, Result, ok, err, Error}
use job_scout_ai.Telegram
use job_scout_ai.Telegram.{User, Message, CallbackQuery, Update, Call}
use job_scout_ai.Store.{World}
use job_scout_ai.Store.Exec.{Exec, tell}
use job_scout_ai.Store.Exec.Ends.{Keeps, Keeps-attempt, Keeps-bind, keeps_rules}
use job_scout_ai.Store.Lists.{VacancyWithMatch}
use job_scout_ai.Store.Applications.Rules.{Good, Good-outside}
use job_scout_ai.App.{App}
use job_scout_ai.App.View.{ApplicationView}
use job_scout_ai.App.Search.{SearchSummary}
use job_scout_ai.App.Http.Rules.{read_rules, command_rules}
use job_scout_ai.App.Bot.Commands.{
  Action, prepare, skip, approve, cancel, submitted, outcome, unknown,
}
use job_scout_ai.App.Bot.Replies.{
  send, reply, failing, reply_telegram_denied, reply_telegram_start, send_top_recommended_vacancy,
  reply_search, handle_search,
}
use job_scout_ai.App.Bot.{
  handle_command, handle_telegram_message, or_reply, edit, reply_with_application_view,
  send_preview, handle_telegram_prepare_application, handle_view, show_card, handle_skip,
  handle_action, deny_callback, handle_telegram_callback, handle_callback_query, handle_message_or,
  handle_telegram_update,
}

module _ (app : App) (client : Telegram.Client) {start : World} where
  tell-Keeps : (call : Call) → Keeps (Good start) (tell client.answer call)
  unfolding tell
  tell-Keeps call = record {
    at = λ w. Good-outside start w (suc w.requests) (w.outbox ++ call ∷ []);
  }

  failing-Keeps : (o : Option Error) → Keeps (Good start) (failing app client o)
  failing-Keeps none = search keeps_rules
  failing-Keeps (some e) = search keeps_rules

  send-Keeps : (call : Call) → Keeps (Good start) (send app client call)
  unfolding send
  send-Keeps call = search (keeps_rules, tell-Keeps, failing-Keeps)

  reply-Keeps : (cb : CallbackQuery) (text : String) → Keeps (Good start) (reply app client cb text)
  unfolding reply
  reply-Keeps cb text = search (keeps_rules, tell-Keeps)

  ruleset bot_rules = (read_rules, command_rules, tell-Keeps, send-Keeps, reply-Keeps)

  top-Keeps : (chat_id : ℤ) → Keeps (Good start) (send_top_recommended_vacancy app client chat_id)
  unfolding send_top_recommended_vacancy
  top-Keeps chat_id = search bot_rules

  reply_search-Keeps :
      (chat_id : ℤ) (s : SearchSummary) (e : Option Error)
      → Keeps (Good start) (reply_search app client chat_id s e)
  unfolding reply_search
  reply_search-Keeps chat_id s none = search (bot_rules, top-Keeps)
  reply_search-Keeps chat_id s (some e) = search bot_rules

  message-Keeps : (msg : Message) → Keeps (Good start) (handle_telegram_message app client msg)
  unfolding handle_telegram_message handle_command reply_telegram_denied reply_telegram_start
      handle_search
  message-Keeps msg = search (bot_rules, top-Keeps, reply_search-Keeps) depth 16

  or_reply-Keeps :
      {A : Type 0} (cb : CallbackQuery) (r : Result A) (go : A → Exec (Unit {0}))
      → ((a : A) → Keeps (Good start) (go a))
      → Keeps (Good start) (or_reply app client cb r go)
  unfolding or_reply
  or_reply-Keeps cb (ok a) go k = k a
  or_reply-Keeps cb (err e) go k = search bot_rules

  edit-Keeps :
      (call : ℤ → ℤ → Call) (m : Option Message) → Keeps (Good start) (edit app client call m)
  unfolding edit
  edit-Keeps call none = search bot_rules
  edit-Keeps call (some m) = search bot_rules

  show_card-Keeps :
      (cb : CallbackQuery) (item : VacancyWithMatch)
      → Keeps (Good start) (show_card app client cb item)
  unfolding show_card
  show_card-Keeps cb item = search (bot_rules, edit-Keeps)

  reply_view-Keeps :
      (cb : CallbackQuery) (text : String) (view : ApplicationView)
      → Keeps (Good start) (reply_with_application_view app client cb text view)
  unfolding reply_with_application_view
  reply_view-Keeps cb text view = search (bot_rules, edit-Keeps)

  preview-Keeps :
      (cb : CallbackQuery) (view : ApplicationView) (m : Option Message)
      → Keeps (Good start) (send_preview app client cb view m)
  unfolding send_preview
  preview-Keeps cb view none = search bot_rules
  preview-Keeps cb view (some m) = search (bot_rules, or_reply-Keeps) depth 12

  view-Keeps :
      (cb : CallbackQuery) (text : String) (command : Exec ApplicationView)
      → Keeps (Good start) command
      → Keeps (Good start) (handle_view app client cb text command)
  unfolding handle_view
  view-Keeps cb text command k = Keeps-bind _ _ (Keeps-attempt command k) λ view.
      or_reply-Keeps cb view (reply_with_application_view app client cb text)
        (reply_view-Keeps cb text)

  action-Keeps :
      (cb : CallbackQuery) (a : Action) → Keeps (Good start) (handle_action app client cb a)
  unfolding handle_action handle_telegram_prepare_application handle_skip
  action-Keeps cb (prepare id) = search (bot_rules, or_reply-Keeps, preview-Keeps) depth 12
  action-Keeps cb (skip id) = search (bot_rules, or_reply-Keeps, show_card-Keeps) depth 12
  action-Keeps cb (approve id) = search (command_rules, view-Keeps)
  action-Keeps cb (cancel id) = search (command_rules, view-Keeps)
  action-Keeps cb (submitted id) = search (command_rules, view-Keeps)
  action-Keeps cb (outcome id status) = search (command_rules, view-Keeps)
  action-Keeps cb unknown = search bot_rules

  callback-Keeps :
      (cb : CallbackQuery) → Keeps (Good start) (handle_telegram_callback app client cb)
  unfolding handle_telegram_callback deny_callback
  callback-Keeps cb = search (bot_rules, action-Keeps) depth 12

  either-Keeps :
      (msg : Option Message) (cb : Option CallbackQuery)
      → Keeps (Good start) (handle_message_or app client msg cb)
  unfolding handle_message_or handle_callback_query
  either-Keeps (some msg) cb = message-Keeps msg
  either-Keeps none (some cb) = callback-Keeps cb
  either-Keeps none none = search bot_rules

  pub update-Keeps : (u : Update) → Keeps (Good start) (handle_telegram_update app client u)
  unfolding handle_telegram_update
  update-Keeps u = either-Keeps u.message u.callback_query
