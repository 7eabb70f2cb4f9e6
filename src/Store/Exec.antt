-- ===== src/Store/Exec.antt =====
-- Methods that act on the world and may fail. What was written before an error stays written, unless
-- a transaction takes it back.
pub mod Ends
use job_scout_ai.Prelude.{
  ℕ, suc, ◌+◌, List, [], ◌∷◌, ◌++◌, String, Bool, true, false, Option, none, some, Result, ok, err,
  Error, ◌≡◌, refl, if◌then◌else◌,
}
use job_scout_ai.Core.Types.{Time}
use job_scout_ai.Telegram.{Call}
use job_scout_ai.Store.{World, Db}

abbrev pub Exec : Type 0 → Type 0
Exec A = World → Result A × World

module _ {A : Type 0} where
  unfoldable pub pure : A → Exec A
  pure a w = (ok a, w)

  unfoldable pub raise : Error → Exec A
  raise e w = (err e, w)

  unfoldable pub lift : Result A → Exec A
  lift r w = (r, w)

  unfoldable pub gets : (Db → A) → Exec A
  gets f w = (ok (f w.db), w)

  -- A read that answers ErrNotFound where there is nothing.
  abbrev pub or_error : Error → Option A → Result A
  or_error e none = err e
  or_error e (some a) = ok a

  unfoldable pub finds : Error → (Db → Option A) → Exec A
  finds e f w = (or_error e (f w.db), w)

unfoldable pub modify : (Db → Db) → Exec (Unit {0})
modify f w = (ok tt, record w { db = f w.db })

-- core.NewID
unfoldable pub new_id : Exec String
new_id w = (ok (w.ids w.drawn), record w { drawn = suc w.drawn })

-- a.now() and time.Now().UTC()
unfoldable pub now : Exec Time
now w = (ok (w.clock w.read), record w { read = suc w.read })

-- A call to a service outside, which gets its number.
unfoldable pub ask : {A : Type 0} → (ℕ → A) → Exec A
ask f w = (ok (f w.requests), record w { requests = suc w.requests })

-- A call to Telegram: it is on record, and its answer is an error or none.
unfoldable pub tell : (Call → ℕ → Option Error) → Call → Exec (Option Error)
tell answer call w = (
  ok (answer call w.requests),
  record w { requests = suc w.requests; outbox = w.outbox ++ call ∷ [] },
)

module _ {A B : Type 0} where
  abbrev pub continue : Result A → (A → Exec B) → Exec B
  continue (ok a) f w = f a w
  continue (err e) f w = (err e, w)

  infixl 10 ◌>>=◌ ◌>>◌
  -- opening this opens the actions of this file too
  unfoldable pub ◌>>=◌ : Exec A → (A → Exec B) → Exec B
  unfolding pure raise lift gets finds modify new_id now ask tell
  ◌>>=◌ m f w = let (r, w') = m w in continue r f w'

  abbrev pub ◌>>◌ : Exec A → Exec B → Exec B
  m >> n = m >>= λ _. n

-- The error as a value, where the caller looks at it. No action under it panics.
unfoldable pub attempt : {A : Type 0} → Exec A → Exec (Result A)
attempt m w = let (r, w') = m w in (ok r, w')

-- After the function has run from the world `start`.
abbrev pub restore : {A : Type 0} → World → Result A × World → Result A × World
restore start (ok a, w) = (ok a, w)
restore start (err e, w) = (err e, if start.rolls_back then record w { db = start.db } else w)

-- WithinImportTransaction: Postgres rolls back on an error; memory.go calls the function and no more.
unfoldable pub within_import_transaction : {A : Type 0} → Exec A → Exec A
within_import_transaction m w = restore w (m w)
