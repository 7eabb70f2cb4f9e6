-- ===== src/Hh/Requests/Retried.antt =====
-- internal/integrations/hh/client.go, getJSON: what is retried, and how often.
use mathlib.Core.Path.{subst}
use job_scout_ai.Prelude.{
  ℕ, suc, ◌≡◌, refl, ◌∙◌, ◌+◌, ◌≤◌, ◌<◌, true, Option, none, some, eqb, ℤ, Result, ok, err, String,
  Error, arith, Bool-cases, inl, inr,
}
use job_scout_ai.Hh.Requests.{
  Outside, Net, again, wait_for, throttle, judge, after_pause, settle, after_throttle, round,
  get_json,
}
use job_scout_ai.Hh.Requests.Steps.{
  transient, GivesValue, judge-transient, judge_final, wait_for-Idle, throttle-Idle,
}

module _ {A : Type 0} (o : Outside) (decode : String → Result A) where
  -- What an action that may send `most` requests has sent.
  pub record Sends (most : ℕ) (from : ℕ) (p : Result A × Net) : Type 0 where
    grows : from ≤ p.1.sent
    bounded : p.1.sent ≤ from + most
    retried : (j : ℕ) → from ≤ j → suc j < p.1.sent → transient (o.reply j) ≡ true
    valued :
        (a : A)
        → p.0 ≡ ok a
        → (i : ℕ) × (p.1.sent ≡ suc i) × (from ≤ i) × GivesValue decode a (o.reply i)

  Sends-none : (most : ℕ) (net : Net) (e : Error) → Sends most net.sent (err e, net)
  Sends-none most net e = record {
    grows = omega arith;
    bounded = omega arith;
    retried = λ j h k. absurd (omega (arith, h, k));
    valued = λ a h. absurd (cc);
  }

  Sends-err :
      (most : ℕ) (net : Net) (from : ℕ) (e : Error)
      → net.sent ≡ suc from
      → Sends (suc most) from (err e, net)
  Sends-err most net from e s = record {
    grows = omega (arith, s);
    bounded = omega (arith, s);
    retried = λ j h k. absurd (omega (arith, h, k, s));
    valued = λ a h. absurd (cc);
  }

  Sends-more :
      (most from : ℕ) (p : Result A × Net)
      → transient (o.reply from) ≡ true
      → Sends most (suc from) p
      → Sends (suc most) from p
  Sends-more most from p t s = record {
    grows = omega (arith, s.grows);
    bounded = omega (arith, s.bounded);
    retried = λ j h k. elim (Bool-cases (eqb from j)) [
      | inl y ↦ subst (λ i. transient (o.reply i) ≡ true) (ground (arith, y)) t
      | inr n ↦ s.retried j (ground (arith, h, n)) k
    ];
    valued = λ a h. let (i, e, l, g) = s.valued a h in (i, e, omega (arith, l), g);
  }

  abbrev SendsNext : ℕ → Option (Net → Result A × Net) → Type 0
  SendsNext most none = Unit
  SendsNext most (some f) = (net : Net) → Sends most net.sent (f net)

  pause-Sends :
      (most from : ℕ) (f : Net → Result A × Net)
      → SendsNext most (some f)
      → transient (o.reply from) ≡ true
      → (p : Result (Unit {0}) × Net) → p.1.sent ≡ suc from
      → Sends (suc most) from (after_pause o decode f p)
  pause-Sends most from f k t (ok x, net) e =
      Sends-more most from (f net) t (subst (λ s. Sends most s (f net)) e (k net))
  pause-Sends most from f k t (err x, net) e = Sends-err most net from x e

  settle-Sends :
      (most from : ℕ) (retry : Option (Net → Result A × Net))
      → SendsNext most retry
      → (attempt : ℕ) (now : ℕ) (net : Net) → net.sent ≡ suc from
      → Sends
          (suc most)
          from
          (settle o decode retry (judge o decode attempt now (o.reply from)) net)
  unfolding settle
  settle-Sends most from retry k attempt now net e = elim (Bool-cases (transient (o.reply from))) [
    | inl y ↦
        let (w, x, j) = judge-transient o decode attempt now (o.reply from) y in
        rw j (paused retry k w x y)
    | inr n ↦ let (q, j, g) = judge_final o decode attempt now (o.reply from) n in rw j (ended q g)
  ]
    where
      ended :
          (q : Result A)
          → ((a : A) → q ≡ ok a → GivesValue decode a (o.reply from))
          → Sends (suc most) from (q, net)
      ended q g = record {
        grows = omega (arith, e);
        bounded = omega (arith, e);
        retried = λ j h k. absurd (omega (arith, h, k, e));
        valued = λ a h. (from, e, omega arith, g a h);
      }

      paused :
          (retry : Option (Net → Result A × Net))
          → SendsNext most retry
          → (w : ℤ) (x : Error) → transient (o.reply from) ≡ true
          → Sends (suc most) from (settle o decode retry (again w x) net)
      paused none k w x y = Sends-err most net from x e
      paused (some f) k w x y =
          pause-Sends most from f k y (wait_for o w net) ((wait_for-Idle o decode w net).0 ∙ e)

  round-Sends :
      (most : ℕ) (d : ℤ) (attempt : ℕ) (retry : Option (Net → Result A × Net))
      → SendsNext most retry
      → (net : Net) → Sends (suc most) net.sent (round o decode d attempt retry net)
  unfolding round after_throttle
  round-Sends most d attempt retry k net =
      throttled (throttle o d net) (throttle-Idle o decode d net).0
    where
      throttled :
          (p : Result (Unit {0}) × Net)
          → p.1.sent ≡ net.sent
          → Sends (suc most) net.sent (after_throttle o decode attempt retry p)
      throttled (ok t, n) e =
          subst (λ s. Sends (suc most) s (after_throttle o decode attempt retry (ok t, n))) e
            (settle-Sends most n.sent retry k attempt n.time _ refl)
      throttled (err x, n) e =
          subst (λ s. Sends (suc most) s (err x, n)) e (Sends-none (suc most) n x)

-- A call sends at most three requests. Every answer before the last one was transient: a rate limit, an
-- error of the server, a temporary error of the transport or a body that could not be read. And a call that
-- gives a value got it from its last answer, a success whose body decodes to this value.
pub attempts_bounded :
    {A : Type 0} (o : Outside) (decode : String → Result A) (d : ℤ) (net : Net)
    → Sends o decode 3 net.sent (get_json o decode d net)
unfolding get_json
attempts_bounded o decode d =
    round-Sends o decode 2 d 0 (some _)
      (round-Sends o decode 1 d 1 (some _) (round-Sends o decode 0 d 2 none tt))
