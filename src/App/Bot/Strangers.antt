-- ===== src/App/Bot/Strangers.antt =====
-- internal/app/bot.go: the owner check.
use job_scout_ai.Prelude.{
  suc, ◌≡◌, ◌≢◌, refl, sym, ap, false, List, ◌++◌, [], ◌∷◌, Option, none, some, ℤ, eqb_ℤ,
  Bool-cases, inl, inr, arith, Error,
}
use mathlib.Core.List.{append-nil}
use job_scout_ai.Telegram
use job_scout_ai.Telegram.{
  User, Message, CallbackQuery, Update, Call, send_message, answer_callback_query,
}
use job_scout_ai.Store.{World}
use job_scout_ai.App.{App}
use job_scout_ai.App.Bot.{
  handle_telegram_update, handle_message_or, handle_telegram_message, handle_callback_query,
  handle_telegram_callback, is_telegram_owner, deny_callback, from_owner,
}
use job_scout_ai.App.Bot.Replies.{reply_telegram_denied, reply, send, failing}
use job_scout_ai.Store.Exec.{◌>>=◌, tell, pure, raise}

-- The sender is not the owner; a message may have no sender.
abbrev pub IsStranger : ℤ → Option Message → Option CallbackQuery → Type 0
IsStranger owner (some msg) cb = (u : User) → msg.from ≡ some u → u.id ≢ owner
IsStranger owner none (some cb) = cb.from.id ≢ owner
IsStranger owner none none = Unit

-- What the bot sends to a stranger.
abbrev pub denial : Option Message → Option CallbackQuery → List Call
denial (some msg) cb = send_message msg.chat.id "Access denied." none ∷ []
denial none (some cb) = answer_callback_query cb.id "Access denied" ∷ []
denial none none = []

other_id : (a b : ℤ) → a ≢ b → eqb_ℤ a b ≡ false
other_id a b h = elim (Bool-cases (eqb_ℤ a b)) [ inl y ↦ absurd (h (ground arith)) | inr n ↦ n ]

module _ (app : App) (client : Telegram.Client) where
  not_owner :
      (from : Option User)
      → ((u : User) → from ≡ some u → u.id ≢ app.cfg.telegram_owner_id)
      → from_owner app client from ≡ false
  unfolding is_telegram_owner
  not_owner none h = refl
  not_owner (some u) h = other_id u.id app.cfg.telegram_owner_id (h u refl)

  -- The database is as it was, and these calls were made.
  abbrev Told : World → List Call → World → Type 0
  Told w calls w' = (w'.db ≡ w.db) × (w'.outbox ≡ w.outbox ++ calls)

  failing_world : (o : Option Error) (w : World) → (failing app client o w).1 ≡ w
  unfolding pure raise
  failing_world none w = refl
  failing_world (some e) w = refl

  denied_message :
      (msg : Message) (w : World)
      → from_owner app client msg.from ≡ false
      → Told w (denial (some msg) none) (handle_telegram_message app client msg w).1
  unfolding handle_telegram_message reply_telegram_denied send tell ◌>>=◌
  denied_message msg w h =
      let call : Call = send_message msg.chat.id "Access denied." none in
      let told : World = record w { requests = suc w.requests; outbox = w.outbox ++ call ∷ [] } in
      let e = failing_world (client.answer call w.requests) told in
      rw h (ap (λ v. v.db) e, ap (λ v. v.outbox) e)

  denied_callback :
      (cb : CallbackQuery) (w : World)
      → cb.from.id ≢ app.cfg.telegram_owner_id
      → Told w (denial none (some cb)) (handle_telegram_callback app client cb w).1
  unfolding handle_telegram_callback deny_callback reply tell raise ◌>>=◌
  denied_callback cb w h = rw (other_id cb.from.id app.cfg.telegram_owner_id h) (refl, refl)

  either_denied :
      (msg : Option Message) (cb : Option CallbackQuery) (w : World)
      → IsStranger app.cfg.telegram_owner_id msg cb
      → Told w (denial msg cb) (handle_message_or app client msg cb w).1
  unfolding handle_message_or handle_callback_query pure
  either_denied (some msg) cb w h = denied_message msg w (not_owner msg.from h)
  either_denied none (some cb) w h = denied_callback cb w h
  either_denied none none w h = (refl, sym (append-nil w.outbox))

-- An update whose sender is not the owner, or that has no sender, changes nothing of the database, and all
-- that the bot sends for it is one refusal: a message to its chat, or an answer to its callback query.
pub strangers_denied :
    (app : App) (client : Telegram.Client) (u : Update) (w : World)
    → IsStranger app.cfg.telegram_owner_id u.message u.callback_query
    → ((handle_telegram_update app client u w).1.db ≡ w.db)
      × ((handle_telegram_update app client u w).1.outbox
          ≡ w.outbox ++ denial u.message u.callback_query)
unfolding handle_telegram_update
strangers_denied app client u w h = either_denied app client u.message u.callback_query w h
