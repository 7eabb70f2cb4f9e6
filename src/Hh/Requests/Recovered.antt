-- ===== src/Hh/Requests/Recovered.antt =====
-- internal/integrations/hh/client.go, getJSON: a call gets over transient answers.
use mathlib.Core.Path.{subst}
use job_scout_ai.Prelude.{
  ℕ, zero, suc, ◌≡◌, refl, sym, ap, ◌∙◌, ◌<◌, true, Option, none, some, ℤ, Result, ok, err, String,
  arith,
}
use job_scout_ai.Hh.Requests.{
  Outside, Net, wait_for, throttle, after_pause, settle, after_throttle, round, get_json, sending,
}
use job_scout_ai.Hh.Requests.Steps.{
  transient, GivesValue, judge-transient, judge_good, Uncancelled, Idle, wait_for-Idle,
  throttle-Idle,
}

module _ {A : Type 0} (o : Outside) (decode : String → Result A) where
  -- Some transient answers, then a success with this value.
  abbrev pub Recovers : ℕ → A → ℕ → Type 0
  Recovers zero a from = GivesValue decode a (o.reply from)
  Recovers (suc k) a from = (transient (o.reply from) ≡ true) × Recovers k a (suc from)

  abbrev Succeeds : ℕ → (Net → Result A × Net) → Type 0
  Succeeds k f = (net : Net) (a : A) → Recovers k a net.sent → (f net).0 ≡ ok a

  module _ (u : Uncancelled o decode) (d : ℤ) (attempt : ℕ) where
    round_now :
        (retry : Option (Net → Result A × Net)) → Succeeds zero (round o decode d attempt retry)
    unfolding round after_throttle settle
    round_now retry net a g = throttled (throttle o d net) (throttle-Idle o decode d net)
      where
        throttled :
            (p : Result (Unit {0}) × Net)
            → Idle o decode net p
            → (after_throttle o decode attempt retry p).0 ≡ ok a
        throttled (ok t, n) (e, i) =
            rw e (rw (judge_good o decode attempt n.time (o.reply net.sent) a g) refl)
        throttled (err x, n) (e, i) = let k : err x ≡ ok tt = i u in absurd (cc)

    round_later :
        (k : ℕ) (f : Net → Result A × Net)
        → Succeeds k f
        → Succeeds (suc k) (round o decode d attempt (some f))
    unfolding round after_throttle settle
    round_later k f h net a (t, g) = throttled (throttle o d net) (throttle-Idle o decode d net)
      where
        paused :
            (p : Result (Unit {0}) × Net)
            → p.1.sent ≡ suc net.sent
            → p.0 ≡ ok tt
            → (after_pause o decode f p).0 ≡ ok a
        paused (ok t, n) e i = h n a (subst (Recovers k a) (sym e) g)
        paused (err x, n) e i = absurd (cc)

        throttled :
            (p : Result (Unit {0}) × Net)
            → Idle o decode net p
            → (after_throttle o decode attempt (some f) p).0 ≡ ok a
        throttled (ok x, n) (e, i) =
            let r = subst (λ s. transient (o.reply s) ≡ true) (sym e) t in
            let (w, y, j) = judge-transient o decode attempt n.time (o.reply n.sent) r in
            let m : Net = sending o decode n in
            let (s, v) = wait_for-Idle o decode w m in
            rw j (paused (wait_for o w m) (s ∙ ap suc e) (v u))
        throttled (err x, n) (e, i) = let k : err x ≡ ok tt = i u in absurd (cc)

-- Where nothing is cancelled, a call that meets at most two transient answers before a success gives the value
-- of the success.
pub call-Recovers :
    {A : Type 0} (o : Outside) (decode : String → Result A) (d : ℤ) (net : Net)
    → Uncancelled o decode
    → (k : ℕ) (a : A) → k < 3
    → Recovers o decode k a net.sent
    → (get_json o decode d net).0 ≡ ok a
unfolding get_json
call-Recovers o decode d net u zero a l r =
    round_now o decode u d 0 (some (round o decode d 1 (some (round o decode d 2 none)))) net a r
call-Recovers o decode d net u (suc zero) a l r =
    let third : Option (Net → Result _ × Net) = some (round o decode d 2 none) in
    round_later o decode u d 0 zero (round o decode d 1 third) (round_now o decode u d 1 third) net
      a r
call-Recovers o decode d net u (suc (suc zero)) a l r =
    round_later o decode u d 0 (suc zero) _
      (round_later o decode u d 1 zero _ (round_now o decode u d 2 none)) net a r
call-Recovers o decode d net u (suc (suc (suc k))) a l r = absurd (omega (arith, l))
