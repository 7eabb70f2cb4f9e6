-- ===== src/App/Bot/Polling.antt =====
-- internal/app/bot.go, StartTelegramPolling: every update is handled once.
use mathlib.Core.Path.{subst}
use job_scout_ai.Prelude.{
  ℕ, zero, suc, ◌≡◌, refl, List, [], ◌∷◌, ℤ, pos, ◌+ℤ◌, ◌≤ℤ◌, ◌<ℤ◌, leb_ℤ, +ℤ_parts, Result, ok,
  err, All, arith, if◌then◌else◌,
}
use job_scout_ai.Telegram
use job_scout_ai.Telegram.{Update}
use job_scout_ai.Store.{World}
use job_scout_ai.Store.Exec.{Exec, pure, attempt, ask, continue, ◌>>=◌}
use job_scout_ai.App.{App}
use job_scout_ai.App.Bot.{handle_updates, handle_batch, handle_telegram_update, poll}

-- The action succeeds from everywhere, with a value that satisfies Q.
record Yields {A : Type 0} (m : Exec A) (Q : A → Type 0) : Type 0 where
  at : (w : World) → (a : A) × ((m w).0 ≡ ok a) × Q a

module _ {A : Type 0} where
  yields_pure : (Q : A → Type 0) (a : A) → Q a → Yields (pure a) Q
  unfolding pure
  yields_pure Q a q = record { at = λ w. (a, refl, q) }

  yields_attempt : (m : Exec A) → Yields (attempt m) (λ r. Unit)
  unfolding attempt
  yields_attempt m = record { at = λ w. ((m w).0, refl, tt) }

  yields_ask : (f : ℕ → A) → Yields (ask f) (λ r. Unit)
  unfolding ask
  yields_ask f = record { at = λ w. (f w.requests, refl, tt) }

module _ {A : Type 0} {M Q : A → Type 0} where
  yields_weaken : (m : Exec A) → Yields m M → ((a : A) → M a → Q a) → Yields m Q
  yields_weaken m y h = record { at = λ w. let (a, e, q) = y.at w in (a, e, h a q) }

module _ {A B : Type 0} (M : A → Type 0) (Q : B → Type 0) where
  continue_yields :
      (f : A → Exec B) (r : Result A) (w : World) (a : A)
      → r ≡ ok a
      → M a
      → ((a : A) → M a → Yields (f a) Q)
      → (b : B) × ((continue r f w).0 ≡ ok b) × Q b
  continue_yields f (ok x) w a e h rest = let p : a ≡ x = cc in (rest x (subst M p h)).at w
  continue_yields f (err x) w a e h rest = absurd (cc)

  yields_bind :
      (m : Exec A) (f : A → Exec B)
      → Yields m M
      → ((a : A) → M a → Yields (f a) Q)
      → Yields (m >>= f) Q
  unfolding ◌>>=◌
  yields_bind m f first rest = record {
    at = λ w. let (a, e, h) = first.at w in continue_yields f (m w).0 (m w).1 a e h rest;
  }

abbrev Below : ℤ → List Update → Type 0
Below o us = All (λ u. u.update_id <ℤ o) us

Below-le : (o o' : ℤ) (us : List Update) → o ≤ℤ o' → Below o us → Below o' us
Below-le o o' [] h b = tt
Below-le o o' (u ∷ us) h b = (omega (arith, b.0), Below-le o o' us h b.1)

-- The offset behind one update.
abbrev next_offset : ℤ → ℤ → ℤ
next_offset offset id = if leb_ℤ offset id then id +ℤ pos 1 else offset

next_offset_bounds :
    (offset id : ℤ) → (offset ≤ℤ next_offset offset id) × (id <ℤ next_offset offset id)
next_offset_bounds offset id = ground (arith, +ℤ_parts id (pos 1))

module _ (app : App) (client : Telegram.Client) where
  updates-Below :
      (offset : ℤ) (us : List Update)
      → Yields (handle_updates app client offset us) (λ o. (offset ≤ℤ o) × Below o us)
  unfolding handle_updates
  updates-Below offset [] = yields_pure _ offset (omega arith, tt)
  updates-Below offset (u ∷ us) =
      let next = next_offset offset u.update_id in
      let (grows, past) = next_offset_bounds offset u.update_id in
      yields_bind (λ r. Unit) _ (attempt (handle_telegram_update app client u))
        (λ r. handle_updates app client next us)
        (yields_attempt (handle_telegram_update app client u))
        λ r h.
          yields_weaken (handle_updates app client next us) (updates-Below next us)
            λ o q. (omega (arith, grows, q.0), (omega (arith, past, q.0), q.1))

  batch_grows :
      (offset : ℤ) (r : Result (List Update))
      → Yields (handle_batch app client offset r) (λ o. offset ≤ℤ o)
  unfolding handle_batch
  batch_grows offset (err e) = yields_pure _ offset (omega arith)
  batch_grows offset (ok us) = yields_weaken _ (updates-Below offset us) (λ o q. q.0)

  poll_grows : (rounds : ℕ) (offset : ℤ) → Yields (poll app client rounds offset) (λ o. offset ≤ℤ o)
  unfolding poll
  poll_grows zero offset = yields_pure _ offset (omega arith)
  poll_grows (suc rounds) offset =
      yields_bind (λ r. Unit) _ (ask (client.get_updates offset)) _
        (yields_ask (client.get_updates offset))
        λ r h.
          yields_bind (λ o. offset ≤ℤ o) _ (handle_batch app client offset r)
            (poll app client rounds) (batch_grows offset r)
            λ o k. yields_weaken _ (poll_grows rounds o) (λ o' q. omega (arith, k, q))

  -- What the Bot API documents of the offset: it answers with updates from there on.
  abbrev pub Honoured : Type 0
  Honoured =
      (o : ℤ) (n : ℕ) (vs : List Update)
      → client.get_updates o n ≡ ok vs
      → All (λ v. o ≤ℤ v.update_id) vs

  newer :
      (o : ℤ) (us vs : List Update)
      → Below o us
      → All (λ v. o ≤ℤ v.update_id) vs
      → All (λ v. Below v.update_id us) vs
  newer o us [] b h = tt
  newer o us (v ∷ vs) b h = (Below-le o v.update_id us h.0 b, newer o us vs b h.1)

-- The world behind the updates, each of which is handled, in turn, whatever becomes of the others.
abbrev pub handled : App → Telegram.Client → List Update → World → World
unfolding handle_telegram_update
handled app client [] w = w
handled app client (u ∷ us) w = handled app client us (handle_telegram_update app client u w).1

updates-handled :
    (app : App) (client : Telegram.Client) (offset : ℤ) (us : List Update) (w : World)
    → (handle_updates app client offset us w).1 ≡ handled app client us w
unfolding handle_updates handled ◌>>=◌ attempt pure
updates-handled app client offset [] w = refl
updates-handled app client offset (u ∷ us) w =
    updates-handled app client (next_offset offset u.update_id) us
      (handle_telegram_update app client u w).1

-- The updates of an answer are handled once. Each of them is handled, in the order of the answer, whatever the
-- handling of the others comes to: the world behind the loop is what the handlers leave one behind the other.
-- And in any number of further rounds of polling, whatever happens in them, the polling goes on, and where
-- the Bot API honours the offset it asks for, every answer to what it asks for then has only updates with
-- larger identifiers than these.
pub updates_once :
    (app : App) (client : Telegram.Client)
    → Honoured app client
    → (offset : ℤ) (us : List Update) (rounds : ℕ) (w : World)
    → ((handle_updates app client offset us w).1 ≡ handled app client us w)
      × ((o : ℤ) × (((handle_updates app client offset us >>= poll app client rounds) w).0 ≡ ok o)
          × ((n : ℕ) (vs : List Update)
              → client.get_updates o n ≡ ok vs
              → All (λ v. All (λ u. u.update_id <ℤ v.update_id) us) vs))
updates_once app client honoured offset us rounds w =
    let (o, e, b) =
      (yields_bind (λ o. (offset ≤ℤ o) × Below o us) (λ o. Below o us)
          (handle_updates app client offset us) (poll app client rounds)
          (updates-Below app client offset us)
          λ o q.
            yields_weaken _ (poll_grows app client rounds o) (λ o' k. Below-le o o' us k q.1)).at
        w in
    (
      updates-handled app client offset us w,
      (o, e, λ n vs h. newer app client o us vs b (honoured o n vs h)),
    )
