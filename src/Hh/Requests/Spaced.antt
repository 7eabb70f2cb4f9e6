-- ===== src/Hh/Requests/Spaced.antt =====
-- internal/integrations/hh/client.go, throttle: requests of one caller start at least the minimal delay apart.
use job_scout_ai.Prelude.{
  ℕ, ◌≡◌, refl, ◌+◌, ◌-◌, ◌≤◌, Bool, true, false, List, [], ◌∷◌, Option, none, some, if◌then◌else◌,
  ltb, leb_ℤ, pos_part, ℤ, pos, Result, ok, err, String, Error, arith,
}
use job_scout_ai.Core.Types.{Time}
use job_scout_ai.Hh.Requests.{
  Outside, Net, Verdict, done, again, tick, waited, wait_for, enter, start, after_wait,
  wait_or_start, throttle, judge, after_pause, settle, after_throttle, round, get_json, sending,
}

-- Each moment is at least `delay` behind the next older one.
abbrev pub Apart : ℕ → Time → List Time → Type 0
Apart delay latest [] = Unit
Apart delay latest (t ∷ ts) = (t + delay ≤ latest) × Apart delay t ts

abbrev pub AllApart : ℕ → List Time → Type 0
AllApart delay [] = Unit
AllApart delay (t ∷ ts) = Apart delay t ts

abbrev Newest : Time → List Time → Type 0
Newest latest [] = Unit
Newest latest (t ∷ ts) = t ≡ latest

-- Each request was sent at its own start or later.
abbrev pub Slots : (starts sent_at : List Time) → Type 0
Slots [] [] = Unit
Slots (t ∷ ts) (u ∷ us) = (t ≤ u) × Slots ts us
Slots _ _ = ⊥

-- One request more has started than has been sent.
abbrev Pending : (starts sent_at : List Time) → Time → Type 0
Pending [] sent_at now = ⊥
Pending (t ∷ ts) sent_at now = (t ≤ now) × Slots ts sent_at

abbrev pub Spaced : ℕ → Net → Type 0
Spaced delay net =
    AllApart delay net.starts × Newest net.last_start net.starts × Slots net.starts net.sent_at

abbrev Granted : ℕ → Net → Type 0
Granted delay net =
    AllApart delay net.starts
    × Newest net.last_start net.starts
    × Pending net.starts net.sent_at net.time

-- What throttle leaves where it lets the request through, and where its wait is cut short.
abbrev Throttled : ℕ → Result (Unit {0}) × Net → Type 0
Throttled delay (ok t, net) = Granted delay net
Throttled delay (err e, net) = Spaced delay net

Apart-next :
    (delay : ℕ) (latest now : Time) (ts : List Time)
    → AllApart delay ts
    → Newest latest ts
    → latest + delay ≤ now
    → Apart delay now ts
Apart-next delay latest now [] a n h = tt
Apart-next delay latest now (t ∷ ts) a n h = (omega (arith, n, h), a)

Pending-slot :
    (starts sent_at : List Time) (now : Time)
    → Pending starts sent_at now
    → Slots starts (now ∷ sent_at)
Pending-slot [] sent_at now p = p
Pending-slot (t ∷ ts) sent_at now p = p

module _ (o : Outside) (delay : ℕ) where
  start-Granted :
      (net : Net)
      → Spaced delay net
      → net.last_start + delay ≤ net.time
      → Granted delay (start o net)
  unfolding start
  start-Granted net s h =
      (Apart-next delay net.last_start net.time net.starts s.0 s.1 h, refl, (omega arith, s.2))

  waited-Spaced :
      (d : ℕ) (r : Option Error) (net : Net) → Spaced delay net → Spaced delay (waited o d r net).1
  waited-Spaced d (some e) net s = s
  waited-Spaced d none net s = s

  after_wait-Throttled :
      (d : ℕ) (r : Option Error) (net : Net)
      → Spaced delay net
      → net.last_start + delay ≤ net.time + d
      → Throttled delay (after_wait o (waited o d r net))
  unfolding after_wait start
  after_wait-Throttled d (some e) net s h = s
  after_wait-Throttled d none net s h = start-Granted (waited o d none net).1 s (omega (arith, h))

  enter-Throttled :
      (net : Net)
      → Spaced delay net
      → (b : Bool) → ltb net.time (net.last_start + delay) ≡ b
      → Throttled delay (
          wait_or_start o
            (if b then some (net.last_start + delay - net.time) else none, tick o net))
  unfolding wait_for wait_or_start start
  enter-Throttled net s true h = after_wait-Throttled _ _ (tick o net) s (ground arith)
  enter-Throttled net s false h = start-Granted (tick o net) s (ground arith)

  throttle-Throttled :
      1 ≤ delay → (net : Net) → Spaced delay net → Throttled delay (throttle o (pos delay) net)
  unfolding throttle enter
  throttle-Throttled positive net s =
      let n : leb_ℤ (pos delay) (pos 0) ≡ false = ground (arith, positive) in
      rw n (enter-Throttled net s (ltb net.time (net.last_start + delay)) refl)

  wait_for-Spaced : (d : ℤ) (net : Net) → Spaced delay net → Spaced delay (wait_for o d net).1
  unfolding wait_for
  wait_for-Spaced d net = waited-Spaced (pos_part d) (o.cancel net.waits) net

module _ {A : Type 0} (o : Outside) (decode : String → Result A) (delay : ℕ)
    (positive : 1 ≤ delay) where
  abbrev KeepsSpaced : (Net → Result A × Net) → Type 0
  KeepsSpaced f = (net : Net) → Spaced delay net → Spaced delay (f net).1

  abbrev KeepsNext : Option (Net → Result A × Net) → Type 0
  KeepsNext none = Unit
  KeepsNext (some f) = KeepsSpaced f

  pause-Spaced :
      (retry : Net → Result A × Net)
      → KeepsSpaced retry
      → (p : Result (Unit {0}) × Net) → Spaced delay p.1
      → Spaced delay (after_pause o decode retry p).1
  pause-Spaced retry k (ok t, net) s = k net s
  pause-Spaced retry k (err e, net) s = s

  settle-Spaced :
      (retry : Option (Net → Result A × Net))
      → KeepsNext retry
      → (v : Verdict A) (net : Net) → Spaced delay net
      → Spaced delay (settle o decode retry v net).1
  unfolding settle
  settle-Spaced retry k (done r) net s = s
  settle-Spaced none k (again wait reason) net s = s
  settle-Spaced (some f) k (again wait reason) net s =
      pause-Spaced f k (wait_for o wait net) (wait_for-Spaced o delay wait net s)

  after_throttle-Spaced :
      (attempt : ℕ) (retry : Option (Net → Result A × Net))
      → KeepsNext retry
      → (p : Result (Unit {0}) × Net) → Throttled delay p
      → Spaced delay (after_throttle o decode attempt retry p).1
  unfolding after_throttle
  after_throttle-Spaced attempt retry k (ok t, net) (apart, newest, pending) =
      settle-Spaced retry k (judge o decode attempt net.time (o.reply net.sent))
        (sending o decode net) (apart, newest, Pending-slot net.starts net.sent_at net.time pending)
  after_throttle-Spaced attempt retry k (err e, net) s = s

  round-Spaced :
      (attempt : ℕ) (retry : Option (Net → Result A × Net))
      → KeepsNext retry
      → KeepsSpaced (round o decode (pos delay) attempt retry)
  unfolding round
  round-Spaced attempt retry k net s =
      after_throttle-Spaced attempt retry k (throttle o (pos delay) net)
        (throttle-Throttled o delay positive net s)

  get_json-Spaced : KeepsSpaced (get_json o decode (pos delay))
  unfolding get_json
  get_json-Spaced =
      let third : Net → Result A × Net = round o decode (pos delay) 2 none in
      let second : Net → Result A × Net = round o decode (pos delay) 1 (some third) in
      round-Spaced 0 (some second) (round-Spaced 1 (some third) (round-Spaced 2 none tt))

-- The calls of one caller, one behind the other.
abbrev pub calls : {A : Type 0} → Outside → ℕ → List (String → Result A) → Net → Net
unfolding get_json
calls o delay [] net = net
calls o delay (decode ∷ ds) net = calls o delay ds (get_json o decode (pos delay) net).1

calls-Spaced :
    {A : Type 0} (o : Outside) (delay : ℕ)
    → 1 ≤ delay
    → (ds : List (String → Result A)) (net : Net) → Spaced delay net
    → Spaced delay (calls o delay ds net)
unfolding calls
calls-Spaced o delay positive [] net s = s
calls-Spaced o delay positive (decode ∷ ds) net s =
    calls-Spaced o delay positive ds _ (get_json-Spaced o decode delay positive net s)

-- While a client with a positive minimal delay has one caller at a time, however many calls it makes and
-- whatever they meet: every request that is sent, retries included, has a start of its own, at which throttle
-- let it through and not before which it was sent, and these starts are at least the minimal delay apart.
pub requests_apart :
    {A : Type 0} (o : Outside) (delay : ℕ)
    → 1 ≤ delay
    → (ds : List (String → Result A)) (net : Net) → net.starts ≡ []
    → net.sent_at ≡ []
    → let net' = calls o delay ds net in AllApart delay net'.starts × Slots net'.starts net'.sent_at
requests_apart o delay positive ds net e f =
    let s = calls-Spaced o delay positive ds net (rw (e, f) (tt, tt, tt)) in (s.0, s.2)
