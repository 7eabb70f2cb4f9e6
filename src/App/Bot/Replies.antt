-- ===== src/App/Bot/Replies.antt =====
-- internal/app/bot.go: the calls of the client, and the answers to commands. A call whose error the code drops is
-- `tell`, one whose error it returns is `send`.
use Prim.Native.String.{[], ◌∷◌}
use job_scout_ai.Prelude.{
  String, [], ◌∷◌, List, Option, none, some, ℤ, pos, Result, ok, err, Error, length,
}
use job_scout_ai.Strings.{◌+++◌}
use job_scout_ai.Telegram.{
  User, Message, CallbackQuery, Update, Call, InlineKeyboardMarkup, send_message, edit_message_text,
  answer_callback_query,
}
use job_scout_ai.Telegram
use job_scout_ai.Core.Decimal.{itoa}
use job_scout_ai.Core.Types.{CandidateProfile}
use job_scout_ai.Store.Exec.{Exec, pure, raise, attempt, tell, ◌>>=◌, ◌>>◌}
use job_scout_ai.Store.Lists.{VacancyWithMatch}
use job_scout_ai.App.{App, get_profile}
use job_scout_ai.App.Search.{Outcome, SearchSummary, no_results, run_search}
use job_scout_ai.App.Vacancies.{recommended_page}
use job_scout_ai.App.Http.Errors.{error_text}
use job_scout_ai.App.Bot.Cards.{vacancy_card_text, vacancy_card_markup}

module _ (app : App) (client : Telegram.Client) where
  abbrev pub failing : Option Error → Exec (Unit {0})
  failing none = pure tt
  failing (some e) = raise e

  -- A call whose error is returned.
  unfoldable pub send : Call → Exec (Unit {0})
  unfolding ◌>>=◌ tell
  send call = do failed ← tell client.answer call; failing failed

  -- An answer to a callback query, whose error is dropped.
  unfoldable pub reply : CallbackQuery → String → Exec (Unit {0})
  unfolding ◌>>=◌ tell
  reply cb text = do _ ← tell client.answer (answer_callback_query cb.id text); pure tt

  unfoldable pub reply_telegram_denied : ℤ → Exec (Unit {0})
  unfolding send
  reply_telegram_denied chat_id = send (send_message chat_id "Access denied." none)

  abbrev pub ready_text : Result CandidateProfile → String
  unfolding itoa
  ready_text (err e) = "JobScout AI is ready. Configure the profile first."
  ready_text (ok profile) =
      "JobScout AI is ready.\nProfile: "
      +++ app.host.escape_string profile.id
      +++ "\nRoles: "
      +++ itoa (pos (length profile.desired_roles))
      +++ "\nSkills: "
      +++ itoa (pos (length profile.primary_skills))

  unfoldable pub reply_telegram_start : ℤ → Exec (Unit {0})
  unfolding ◌>>=◌ attempt get_profile itoa send
  reply_telegram_start chat_id = do
    profile ← attempt get_profile
    send (send_message chat_id (ready_text profile) none)

  -- The first of the recommended vacancies, or none.
  abbrev pub top_card : ℤ → List VacancyWithMatch → Call
  unfolding vacancy_card_text vacancy_card_markup
  top_card chat_id [] = send_message chat_id "No recommended vacancies right now." none
  top_card chat_id (item ∷ items) =
      send_message chat_id (vacancy_card_text app.host item) (some (vacancy_card_markup item))

  unfoldable pub send_top_recommended_vacancy : ℤ → Exec (Unit {0})
  unfolding ◌>>=◌ recommended_page vacancy_card_text vacancy_card_markup send
  send_top_recommended_vacancy chat_id = do
    items ← recommended_page app (pos 0) (pos 1)
    send (top_card chat_id items)

  abbrev pub summary_text : SearchSummary → String
  unfolding itoa
  summary_text s =
      "Search complete\nImported: "
      +++ itoa (pos s.imported)
      +++ "\nDuplicates: "
      +++ itoa (pos s.duplicates)
      +++ "\nFiltered: "
      +++ itoa (pos s.filtered)
      +++ "\nRecommended: "
      +++ itoa (pos s.recommended)
      +++ "\nErrors: "
      +++ itoa (pos s.errors)

  abbrev pub search_error : Result Outcome → Option Error
  search_error (ok o) = o.failure
  search_error (err e) = some e

  abbrev pub summary_of : Result Outcome → SearchSummary
  summary_of (ok o) = o.summary
  summary_of (err e) = no_results

  unfoldable pub reply_search : ℤ → SearchSummary → Option Error → Exec (Unit {0})
  unfolding ◌>>=◌ error_text itoa send send_top_recommended_vacancy
  reply_search chat_id s (some e) =
      send (send_message chat_id ("Search failed: " +++ app.host.escape_string (error_text e)) none)
  reply_search chat_id s none = do
    send (send_message chat_id (summary_text s) none)
    send_top_recommended_vacancy chat_id

  unfoldable pub handle_search : ℤ → String → Exec (Unit {0})
  unfolding ◌>>=◌ attempt run_search reply_search
  handle_search chat_id arg = do
    found ← attempt (run_search app arg)
    reply_search chat_id (summary_of found) (search_error found)
