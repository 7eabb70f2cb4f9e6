-- ===== src/Hh/Requests.antt =====
-- internal/integrations/hh/client.go: the throttle and the retry loop. Time is a state: every look at the clock
-- and every wait takes some time more, and a wait may be cut short by its context. Building the request
-- never fails here.
pub mod Spaced
pub mod Steps
pub mod Retried
pub mod Recovered
use Prim.Native.String.{[], ◌∷◌}
use job_scout_ai.Prelude.{
  ℕ, zero, suc, ◌+◌, ◌-◌, ◌*◌, ◌^◌, ◌%◌, String, [], ◌∷◌, Bool, true, false, not, ◌&&◌, ◌||◌, List,
  Option, none, some, if◌then◌else◌, ltb, leb, eqb, ℤ, pos, negsuc, pos_part, sub_ℕ, leb_ℤ, Result,
  wrap64, ok, err, Error, message,
}
use job_scout_ai.Strings.{◌+++◌, is_nil, trim_space}
use job_scout_ai.Strings.Numbers.{atoi, Parsed}
use job_scout_ai.Core.Types.{Time}

-- What an attempt meets: an error of the transport, temporary or not, an error while the body is read, or an
-- answer with its code, its status line, its Retry-After header and its body.
pub data Reply : Type 0 where
  transport_error : (temporary : Bool) → Error → Reply
  read_error : Error → Reply
  response : (status : ℕ) (status_text retry_after body : String) → Reply

pub record Outside : Type 0 where
  pub reply : ℕ → Reply
  pub drift : ℕ → ℕ
  pub cancel : ℕ → Option Error
  pub parse_http_time : String → Option Time

-- `starts` has the moments at which throttle let requests through, `sent_at` those at which they were sent, newest
-- first.
pub record Net : Type 0 where
  pub time : Time
  pub ticks : ℕ
  pub waits : ℕ
  pub sent : ℕ
  pub last_start : Time
  pub starts : List Time
  pub sent_at : List Time

module _ (o : Outside) where
  abbrev pub tick : Net → Net
  tick net = record net { time = net.time + o.drift net.ticks; ticks = suc net.ticks }

  abbrev pub waited : ℕ → Option Error → Net → Result (Unit {0}) × Net
  waited delay (some e) net = (err e, tick (record net { waits = suc net.waits }))
  waited delay none net =
      (ok tt, tick (record net { waits = suc net.waits; time = net.time + delay }))

  -- A delay that is not positive is over at once.
  unfoldable pub wait_for : ℤ → Net → Result (Unit {0}) × Net
  wait_for delay net = waited (pos_part delay) (o.cancel net.waits) net

  -- Under the lock: how long to wait, if at all.
  unfoldable pub enter : ℤ → Net → Option ℕ × Net
  enter min_delay net =
      let next = net.last_start + pos_part min_delay in
      (if ltb net.time next then some (next - net.time) else none, tick net)

  -- Under the lock again: the request starts now.
  unfoldable pub start : Net → Net
  start net = tick (record net { last_start = net.time; starts = net.time ∷ net.starts })

  abbrev pub after_wait : Result (Unit {0}) × Net → Result (Unit {0}) × Net
  unfolding start
  after_wait (ok t, net) = (ok tt, start net)
  after_wait (err e, net) = (err e, net)

  abbrev pub wait_or_start : Option ℕ × Net → Result (Unit {0}) × Net
  unfolding wait_for start
  wait_or_start (none, net) = (ok tt, start net)
  wait_or_start (some delay, net) = after_wait (wait_for (pos delay) net)

  unfoldable pub throttle : ℤ → Net → Result (Unit {0}) × Net
  unfolding enter wait_for start
  throttle min_delay net =
      if leb_ℤ min_delay (pos 0) then (ok tt, net) else wait_or_start (enter min_delay net)

abbrev pub second : ℕ
second = 1000000000

abbrev seconds : ℤ → ℤ
seconds (pos n) = pos (n * second)
seconds (negsuc n) = sub_ℕ 0 (suc n * second)

abbrev pub until : Time → Option Time → ℤ
until now none = pos 0
until now (some t) = sub_ℕ t now

abbrev retry_from : ℤ → Parsed → ℤ
unfolding wrap64
retry_from other (n, true) = wrap64 (seconds n)
retry_from other (n, false) = other

unfoldable pub retry_after : Outside → String → Time → ℤ
unfolding atoi wrap64
retry_after o value now =
    if is_nil value then pos 0 else retry_from (until now (o.parse_http_time value)) (atoi value)

-- The wait before the next attempt after a rate limit.
unfoldable pub limit_wait : Outside → String → Time → ℤ
unfolding retry_after
limit_wait o value now =
    let wait = retry_after o value now in if leb_ℤ wait (pos 0) then pos second else wait

-- time.Duration(attempt+1)*500*time.Millisecond
abbrev pub backoff : ℕ → ℤ
backoff attempt = pos (suc attempt * 500000000)

pub data Verdict (A : Type 0) : Type 0 where
  done : Result A → Verdict A
  again : (wait : ℤ) (reason : Error) → Verdict A

module _ {A : Type 0} (o : Outside) (decode : String → Result A) where
  -- The body of the loop behind the request: an end, or a wait before another attempt.
  unfoldable pub judge : ℕ → Time → Reply → Verdict A
  unfolding limit_wait trim_space
  judge attempt now (transport_error temporary e) =
      if temporary then again (backoff attempt) e else done (err e)
  judge attempt now (read_error e) = again (backoff attempt) e
  judge attempt now (response status status_text value body) =
      if eqb status 429
      then again (limit_wait o value now) (message "headhunter rate limited: rate limited")
      else if eqb status 403
      then done (err (message "headhunter request forbidden: captcha required"))
      else if leb 500 status
      then again (backoff attempt) (message ("headhunter server error: " +++ status_text))
      else if ltb status 200 || leb 300 status
      then done (
          err (
            message ("headhunter unexpected status " +++ status_text +++ ": " +++ trim_space body)))
      else done (decode body)

  abbrev pub after_pause : (Net → Result A × Net) → Result (Unit {0}) × Net → Result A × Net
  after_pause retry (ok t, net) = retry net
  after_pause retry (err e, net) = (err e, net)

  -- On the last attempt the reason is the error of the call.
  abbrev pub settle : Option (Net → Result A × Net) → Verdict A → Net → Result A × Net
  unfolding wait_for
  settle retry (done r) net = (r, net)
  settle none (again wait reason) net = (err reason, net)
  settle (some retry) (again wait reason) net = after_pause retry (wait_for o wait net)

  abbrev pub sending : Net → Net
  sending net = record net { sent = suc net.sent; sent_at = net.time ∷ net.sent_at }

  abbrev pub after_throttle :
      ℕ → Option (Net → Result A × Net) → Result (Unit {0}) × Net → Result A × Net
  unfolding judge wait_for
  after_throttle attempt retry (err e, net) = (err e, net)
  after_throttle attempt retry (ok t, net) =
      settle retry (judge attempt net.time (o.reply net.sent)) (sending net)

  -- One round, and what is to be done if it is to be retried.
  unfoldable pub round : ℤ → ℕ → Option (Net → Result A × Net) → Net → Result A × Net
  unfolding throttle judge wait_for
  round min_delay attempt retry net = after_throttle attempt retry (throttle o min_delay net)

  -- The three attempts.
  unfoldable pub get_json : ℤ → Net → Result A × Net
  unfolding round
  get_json min_delay = round min_delay 0 (some (round min_delay 1 (some (round min_delay 2 none))))
