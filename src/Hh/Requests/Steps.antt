-- ===== src/Hh/Requests/Steps.antt =====
-- internal/integrations/hh/client.go, getJSON: how an attempt is judged, and what throttle and waits leave alone.
use job_scout_ai.Prelude.{
  ℕ, ◌≡◌, refl, sym, ◌∙◌, ◌≤◌, ◌<◌, Bool, true, false, ◌||◌, Option, none, some, ltb, leb, eqb, ℤ,
  pos, leb_ℤ, pos_part, Result, ok, err, String, Error, arith, Bool-cases, inl, inr,
}
use job_scout_ai.Hh.Requests.{
  Outside, Net, Reply, transport_error, read_error, response, done, again, tick, waited, wait_for,
  enter, start, after_wait, wait_or_start, throttle, judge,
}

-- An answer that is worth another attempt.
abbrev pub transient : Reply → Bool
transient (transport_error temporary e) = temporary
transient (read_error e) = true
transient (response status text value body) = eqb status 429 || leb 500 status

-- A success whose body decodes to the value.
abbrev pub GivesValue : {A : Type 0} → (String → Result A) → A → Reply → Type 0
GivesValue decode a (transport_error temporary e) = ⊥
GivesValue decode a (read_error e) = ⊥
GivesValue decode a (response status text value body) =
    (200 ≤ status) × (status < 300) × (decode body ≡ ok a)

module _ {A : Type 0} (o : Outside) (decode : String → Result A) where
  pub judge-transient :
      (attempt : ℕ) (now : ℕ) (r : Reply)
      → transient r ≡ true
      → (wait : ℤ) × (reason : Error) × (judge o decode attempt now r ≡ again wait reason)
  unfolding judge
  judge-transient attempt now (transport_error temporary e) h = rw h (_, _, refl)
  judge-transient attempt now (read_error e) h = (_, _, refl)
  judge-transient attempt now (response status text value body) h =
      elim (Bool-cases (eqb status 429)) [
        | inl y ↦ rw y (_, _, refl)
        | inr n ↦
            let f : eqb status 403 ≡ false = ground (arith, h, n) in
            let g : leb 500 status ≡ true = ground (arith, h, n) in rw n (rw f (rw g (_, _, refl)))
      ]

  pub judge_final :
      (attempt : ℕ) (now : ℕ) (r : Reply)
      → transient r ≡ false
      → (q : Result A) × (judge o decode attempt now r ≡ done q)
        × ((a : A) → q ≡ ok a → GivesValue decode a r)
  unfolding judge
  judge_final attempt now (transport_error temporary e) h = rw h (_, refl, λ a k. absurd (cc))
  judge_final attempt now (read_error e) h = absurd (cc)
  judge_final attempt now (response status text value body) h =
      let n : eqb status 429 ≡ false = ground (arith, h) in
      let g : leb 500 status ≡ false = ground (arith, h) in
      rw n (
        rw g (elim (Bool-cases (eqb status 403)) [
          | inl y ↦ rw y (_, refl, λ a k. absurd (cc))
          | inr m ↦ rw m (elim (Bool-cases (ltb status 200 || leb 300 status)) [
            | inl y ↦ rw y (_, refl, λ a k. absurd (cc))
            | inr i ↦ rw i (_, refl, λ a k. ground (arith, i, k))
          ])
        ]))

  pub judge_good :
      (attempt : ℕ) (now : ℕ) (r : Reply) (a : A)
      → GivesValue decode a r
      → judge o decode attempt now r ≡ done (ok a)
  unfolding judge
  judge_good attempt now (transport_error temporary e) a g = absurd g
  judge_good attempt now (read_error e) a g = absurd g
  judge_good attempt now (response status text value body) a (l, u, e) = ground (arith, e)

  abbrev pub Uncancelled : Type 0
  Uncancelled = (n : ℕ) → o.cancel n ≡ none

  -- The step sends nothing, and fails only where it is cancelled.
  abbrev pub Idle : Net → Result (Unit {0}) × Net → Type 0
  Idle net p = (p.1.sent ≡ net.sent) × (Uncancelled → p.0 ≡ ok tt)

  pub waited-Idle :
      (d : ℕ) (net : Net) (r : Option Error) → o.cancel net.waits ≡ r → Idle net (waited o d r net)
  waited-Idle d net none e = (refl, λ u. refl)
  waited-Idle d net (some x) e =
      (refl, λ u. let k : none ≡ some x = sym (u net.waits) ∙ e in absurd (cc))

  pub wait_for-Idle : (d : ℤ) (net : Net) → Idle net (wait_for o d net)
  unfolding wait_for
  wait_for-Idle d net = waited-Idle (pos_part d) net (o.cancel net.waits) refl

  pub after_wait-Idle :
      (net : Net) (p : Result (Unit {0}) × Net) → Idle net p → Idle net (after_wait o p)
  unfolding after_wait start
  after_wait-Idle net (ok t, n) i = (i.0, λ u. refl)
  after_wait-Idle net (err e, n) i = i

  pub wait_or_start-Idle :
      (net : Net) (d : Option ℕ) (n : Net) → n.sent ≡ net.sent → Idle net (wait_or_start o (d, n))
  unfolding wait_or_start start
  wait_or_start-Idle net none n e = (e, λ u. refl)
  wait_or_start-Idle net (some d) n e =
      let (s, k) = wait_for-Idle (pos d) n in after_wait-Idle net (wait_for o (pos d) n) (s ∙ e, k)

  pub throttle-Idle : (d : ℤ) (net : Net) → Idle net (throttle o d net)
  unfolding throttle enter
  throttle-Idle d net = elim (Bool-cases (leb_ℤ d (pos 0))) [
    | inl y ↦ rw y (refl, λ u. refl)
    | inr n ↦ rw n (wait_or_start-Idle net _ (tick o net) refl)
  ]
