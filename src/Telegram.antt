-- ===== src/Telegram.antt =====
-- internal/integrations/telegram/bot.go: what the bot receives and sends. The client posts each call to the
-- Bot API; an answer that is not OK is an error.
pub mod Posts
use job_scout_ai.Prelude.{
  ℕ, String, List, Option, ℤ, Bool, true, false, [], ◌∷◌, is_empty, Error, Result,
}

pub record User : Type 0 where
  pub id : ℤ
  pub is_bot : Bool
  pub first_name : String
  pub username : String

pub record Chat : Type 0 where
  pub id : ℤ
  pub type : String
  pub username : String

pub record Message : Type 0 where
  pub message_id : ℤ
  pub from : Option User
  pub chat : Chat
  pub text : String

pub record CallbackQuery : Type 0 where
  pub id : String
  pub from : User
  pub message : Option Message
  pub callback_data : String

pub record Update : Type 0 where
  pub update_id : ℤ
  pub message : Option Message
  pub callback_query : Option CallbackQuery

pub record InlineKeyboardButton : Type 0 where
  pub text : String
  pub callback_data : String
  pub url : String

pub record InlineKeyboardMarkup : Type 0 where
  pub inline_keyboard : List (List InlineKeyboardButton)

-- (InlineKeyboardMarkup).Empty
unfoldable pub empty : InlineKeyboardMarkup → Bool
empty m = is_empty m.inline_keyboard

unfoldable pub new_inline_keyboard : List (List InlineKeyboardButton) → InlineKeyboardMarkup
new_inline_keyboard rows = record { inline_keyboard = rows }

unfoldable pub button : String → String → InlineKeyboardButton
button label callback_data = record { text = label; callback_data = callback_data; url = "" }

unfoldable pub url_button : String → String → InlineKeyboardButton
url_button label target = record { text = label; callback_data = ""; url = target }

-- The calls of the client that send something.
pub data Call : Type 0 where
  send_message : (chat_id : ℤ) (text : String) (markup : Option InlineKeyboardMarkup) → Call
  edit_message_text :
      (chat_id message_id : ℤ) (text : String) (markup : Option InlineKeyboardMarkup) → Call
  answer_callback_query : (callback_id text : String) → Call

-- What the Bot API answers to the n-th request: an error or none to a call that sends, and the updates from
-- an offset on.
pub record Client : Type 0 where
  pub get_updates : ℤ → ℕ → Result (List Update)
  pub answer : Call → ℕ → Option Error
