-- ===== src/Telegram/Posts.antt =====
-- internal/integrations/telegram/bot.go: the client, which posts a form for each call to the Bot API and reads
-- the envelope of the answer. The encoding of forms and of JSON and the transport are outside.
use Prim.Native.String.{[], ◌∷◌}
use job_scout_ai.Prelude.{
  ℕ, String, Bool, ◌||◌, List, [], ◌∷◌, ◌++◌, Option, none, some, if◌then◌else◌, ltb, leb, ℤ, pos,
  leb_ℤ, Result, ok, err, Error, message,
}
use job_scout_ai.Strings.{◌+++◌, is_nil, trim_space}
use job_scout_ai.Core.Decimal.{itoa}
use job_scout_ai.Telegram.{
  User, Update, InlineKeyboardMarkup, Call, send_message, edit_message_text, answer_callback_query,
  Client,
}

-- url.Values with one value to a key.
abbrev pub Form : Type 0
Form = List (String × String)

-- What an attempt meets: an error, also one while the body is read, or an answer with its code, its status line
-- and its body.
pub data Reply : Type 0 where
  no_answer : Error → Reply
  response : (status : ℕ) (status_text body : String) → Reply

pub record ApiResponse (A : Type 0) : Type 0 where
  pub is_ok : Bool
  pub answer : A
  pub description : String

-- The transport, and encoding/json for the envelopes and the keyboard. `call` has the method of HTTP, the URL,
-- the form and the number of the request.
pub record Outside : Type 0 where
  pub call : (verb url : String) → Form → ℕ → Reply
  pub decode_updates : String → Result (ApiResponse (List Update))
  pub decode_user : String → Result (ApiResponse User)
  pub decode_rest : String → Result (ApiResponse (Unit {0}))
  pub marshal : InlineKeyboardMarkup → Result String

unfoldable pub base_url : String → String
base_url token = "https://api.telegram.org/bot" +++ token

module _ {A : Type 0} (decode : String → Result (ApiResponse A)) where
  -- postForm and getJSON behind the request.
  unfoldable pub read_reply : Reply → Result (ApiResponse A)
  unfolding trim_space
  read_reply (no_answer e) = err e
  read_reply (response status status_text body) =
      if ltb status 200 || leb 300 status
      then err (message ("telegram api http " +++ status_text +++ ": " +++ trim_space body))
      else decode body

  abbrev pub checked : String → Result (ApiResponse A) → Result A
  checked method (err e) = err e
  checked method (ok r) =
      if r.is_ok
      then ok r.answer
      else err (message ("telegram " +++ method +++ " failed: " +++ r.description))

unfoldable pub update_form : (offset timeout_sec : ℤ) → Form
unfolding itoa
update_form offset timeout_sec =
    (if leb_ℤ offset (pos 0) then [] else ("offset", itoa offset) ∷ [])
    ++ (if leb_ℤ timeout_sec (pos 0) then [] else ("timeout", itoa timeout_sec) ∷ [])

abbrev pub with_keyboard : Form → Result String → Result Form
with_keyboard form (ok raw) = ok (form ++ ("reply_markup", raw) ∷ [])
with_keyboard form (err e) = err e

abbrev pub error_of : {A : Type 0} → Result A → Option Error
error_of (ok a) = none
error_of (err e) = some e

module _ (o : Outside) (token : String) where
  unfoldable pub get_updates : (offset timeout_sec : ℤ) → ℕ → Result (List Update)
  unfolding base_url read_reply update_form
  get_updates offset timeout_sec n = checked o.decode_updates "getUpdates" (
      read_reply o.decode_updates
        (o.call "POST" (base_url token +++ "/getUpdates") (update_form offset timeout_sec) n))

  unfoldable pub get_me : ℕ → Result User
  unfolding base_url read_reply
  get_me n =
      checked o.decode_user "getMe"
        (read_reply o.decode_user (o.call "GET" (base_url token +++ "/getMe") [] n))

  abbrev pub marked_up : Form → Option InlineKeyboardMarkup → Result Form
  marked_up form none = ok form
  marked_up form (some markup) = with_keyboard form (o.marshal markup)

  abbrev pub text_fields : String → Form
  text_fields text = ("text", text) ∷ ("parse_mode", "HTML") ∷ []

  -- The method of the Bot API and the form of a call.
  unfoldable pub form_of : Call → String × Result Form
  unfolding itoa
  form_of (send_message chat_id text markup) =
      ("sendMessage", marked_up (("chat_id", itoa chat_id) ∷ text_fields text) markup)
  form_of (edit_message_text chat_id message_id text markup) = (
    "editMessageText",
    marked_up (("chat_id", itoa chat_id) ∷ ("message_id", itoa message_id) ∷ text_fields text)
        markup,
  )
  form_of (answer_callback_query callback_id text) = (
    "answerCallbackQuery",
    ok (("callback_query_id", callback_id) ∷ (if is_nil text then [] else ("text", text) ∷ [])),
  )

  abbrev pub posted : ℕ → String × Result Form → Option Error
  unfolding base_url read_reply
  posted n (method, err e) = some e
  posted n (method, ok form) = error_of (
      checked o.decode_rest method
        (read_reply o.decode_rest (o.call "POST" (base_url token +++ "/" +++ method) form n)))

  -- The client as the bot uses it, which asks for updates for 30 seconds.
  unfoldable pub new_client : Client
  unfolding get_updates form_of posted
  new_client = record {
    get_updates = λ offset. get_updates offset (pos 30);
    answer = λ call n. posted n (form_of call);
  }
