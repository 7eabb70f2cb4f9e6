-- ===== src/Store/Exec/Ends.antt =====
-- Rules for what holds after an action: of the world and the value where it succeeds, and of the world
-- where it fails.
use job_scout_ai.Prelude.{
  ℕ, ◌≡◌, refl, Bool, true, false, Option, none, some, Result, ok, err, Error, if◌then◌else◌, suc,
  arith,
}
use job_scout_ai.Store.{World, Db}
use job_scout_ai.Store.Exec.{
  Exec, pure, raise, lift, gets, finds, or_error, modify, new_id, now, continue, ◌>>=◌, attempt,
  ask, restore, within_import_transaction,
}

module _ {A : Type 0} where
  abbrev pub Ends : (World → Type 0) → (A → World → Type 0) → Result A × World → Type 0
  Ends R Q (ok a, w) = Q a w
  Ends R Q (err e, w) = R w

  -- From P, the action ends in Q with a value, or in R with an error.
  pub record Triple (P : World → Type 0) (m : Exec A) (Q : A → World → Type 0) (R : World → Type 0)
      : Type 0 where
    pub at : (w : World) → P w → Ends R Q (m w)

-- An action that keeps P, whether it succeeds or fails.
abbrev pub Keeps : {A : Type 0} → (World → Type 0) → Exec A → Type 0
Keeps P m = Triple P m (λ _. P) P

module _ {A : Type 0} {P R : World → Type 0} {Q : A → World → Type 0} where
  pub Triple-pure : (a : A) → ((w : World) → P w → Q a w) → Triple P (pure a) Q R
  unfolding pure
  Triple-pure a h = record { at = h }

  pub Triple-raise : (e : Error) → ((w : World) → P w → R w) → Triple P (raise {A = A} e) Q R
  unfolding raise
  Triple-raise e h = record { at = h }

  pub Triple-lift :
      (r : Result A)
      → ((a : A) → r ≡ ok a → (w : World) → P w → Q a w)
      → ((w : World) → P w → R w)
      → Triple P (lift r) Q R
  unfolding lift
  Triple-lift (ok a) good bad = record { at = good a refl }
  Triple-lift (err e) good bad = record { at = bad }

  pub Triple-gets : (f : Db → A) → ((w : World) → P w → Q (f w.db) w) → Triple P (gets f) Q R
  unfolding gets
  Triple-gets f h = record { at = h }

  pub Triple-if :
      (b : Bool) (m n : Exec A)
      → (b ≡ true → Triple P m Q R)
      → (b ≡ false → Triple P n Q R)
      → Triple P (if b then m else n) Q R
  Triple-if true m n yes_ no_ = yes_ refl
  Triple-if false m n yes_ no_ = no_ refl

module _ {A : Type 0} (R : World → Type 0) (Q : A → World → Type 0) where
  found-Ends :
      (e : Error) (o : Option A) (w : World)
      → ((a : A) → o ≡ some a → Q a w)
      → R w
      → Ends R Q (or_error e o, w)
  found-Ends e none w good bad = bad
  found-Ends e (some a) w good bad = good a refl

module _ {A : Type 0} {P R : World → Type 0} {Q : A → World → Type 0} where
  pub Triple-finds :
      (e : Error) (f : Db → Option A)
      → ((a : A) (w : World) → f w.db ≡ some a → P w → Q a w)
      → ((w : World) → P w → R w)
      → Triple P (finds e f) Q R
  unfolding finds
  Triple-finds e f good bad = record {
    at = λ w h. found-Ends R Q e (f w.db) w (λ a q. good a w q h) (bad w h);
  }

module _ {A B : Type 0} (R : World → Type 0) (Q : B → World → Type 0) where
  continue-Ends :
      (M : A → World → Type 0) (f : A → Exec B) (r : Result A) (w : World)
      → Ends R M (r, w)
      → ((a : A) → Triple (M a) (f a) Q R)
      → Ends R Q (continue r f w)
  continue-Ends M f (ok a) w h rest = (rest a).at w h
  continue-Ends M f (err e) w h rest = h

module _ {A B : Type 0} {P R : World → Type 0} {Q : B → World → Type 0} where
  pub Triple-bind :
      (M : A → World → Type 0) (m : Exec A) (f : A → Exec B)
      → Triple P m M R
      → ((a : A) → Triple (M a) (f a) Q R)
      → Triple P (m >>= f) Q R
  unfolding ◌>>=◌
  Triple-bind M m f first rest = record {
    at = λ w h. let (r, w') = m w in continue-Ends R Q M f r w' (first.at w h) rest;
  }

module _ {P : World → Type 0} where
  pub Keeps-modify :
      (f : Db → Db) → ((w : World) → P w → P (record w { db = f w.db })) → Keeps P (modify f)
  unfolding modify
  Keeps-modify f h = record { at = h }

  pub Keeps-new_id : ((w : World) → P w → P (record w { drawn = suc w.drawn })) → Keeps P new_id
  unfolding new_id
  Keeps-new_id h = record { at = h }

  pub Keeps-now : ((w : World) → P w → P (record w { read = suc w.read })) → Keeps P now
  unfolding now
  Keeps-now h = record { at = h }

module _ {A : Type 0} (P : World → Type 0) where
  attempt-Ends : (r : Result A) (w : World) → Ends P (λ _. P) (r, w) → P w
  attempt-Ends (ok a) w h = h
  attempt-Ends (err e) w h = h

module _ {A : Type 0} {P : World → Type 0} where
  pub Keeps-attempt : (m : Exec A) → Keeps P m → Keeps P (attempt m)
  unfolding attempt
  Keeps-attempt m k = record { at = λ w h. let (r, w') = m w in attempt-Ends P r w' (k.at w h) }

module _ {A : Type 0} {P R : World → Type 0} where
  -- What the caller looks at is no error any more.
  pub Triple-attempt : (m : Exec A) → Keeps P m → Triple P (attempt m) (λ r. P) R
  unfolding attempt
  Triple-attempt m k = record { at = λ w h. let (r, w') = m w in attempt-Ends P r w' (k.at w h) }

module _ {A : Type 0} {P R : World → Type 0} {Q : A → World → Type 0} where
  pub Triple-ask :
      (f : ℕ → A)
      → ((w : World) → P w → Q (f w.requests) (record w { requests = suc w.requests }))
      → Triple P (ask f) Q R
  unfolding ask
  Triple-ask f h = record { at = h }

module _ {A : Type 0} (R : World → Type 0) (Q : A → World → Type 0) where
  restore-Ends :
      (start : World) (r : Result A) (w : World)
      → Ends R Q (r, w)
      → (R w → R (record w { db = start.db }))
      → Ends R Q (restore start (r, w))
  restore-Ends start (ok a) w h back = h
  restore-Ends start (err e) w h back = ground (arith, back h)

module _ {A : Type 0} {P R : World → Type 0} {Q : A → World → Type 0} where
  -- Rolling back must lead to the state that an error promises.
  pub Triple-transaction :
      (m : Exec A)
      → Triple P m Q R
      → ((w w' : World) → P w → R w' → R (record w' { db = w.db }))
      → Triple P (within_import_transaction m) Q R
  unfolding within_import_transaction
  Triple-transaction m t back = record {
    at = λ w h. let (r, w') = m w in restore-Ends R Q w r w' (t.at w h) (back w w' h);
  }

  pub Triple-weaken :
      {P' R' : World → Type 0} {Q' : A → World → Type 0} (m : Exec A)
      → Triple P' m Q' R'
      → ((w : World) → P w → P' w)
      → ((a : A) (w : World) → Q' a w → Q a w)
      → ((w : World) → R' w → R w)
      → Triple P m Q R
  Triple-weaken {P'} {R'} {Q'} m t pre post bad = record {
    at = λ w h. let (r, w') = m w in weaken r w' (t.at w (pre w h));
  }
    where
      weaken : (r : Result A) (w : World) → Ends R' Q' (r, w) → Ends R Q (r, w)
      weaken (ok a) w h = post a w h
      weaken (err e) w h = bad w h

module _ {A : Type 0} {P : World → Type 0} where
  pub Keeps-pure : (a : A) → Keeps P (pure a)
  Keeps-pure a = Triple-pure a (λ w h. h)

  pub Keeps-raise : (e : Error) → Keeps P (raise {A = A} e)
  Keeps-raise e = Triple-raise e (λ w h. h)

  pub Keeps-lift : (r : Result A) → Keeps P (lift r)
  Keeps-lift r = Triple-lift r (λ a e w h. h) (λ w h. h)

  pub Keeps-gets : (f : Db → A) → Keeps P (gets f)
  Keeps-gets f = Triple-gets f (λ w h. h)

  pub Keeps-finds : (e : Error) (f : Db → Option A) → Keeps P (finds e f)
  Keeps-finds e f = Triple-finds e f (λ a w found h. h) (λ w h. h)

  pub Keeps-if : (b : Bool) (m n : Exec A) → Keeps P m → Keeps P n → Keeps P (if b then m else n)
  Keeps-if b m n k l = Triple-if b m n (λ _. k) (λ _. l)

module _ {A B : Type 0} {P : World → Type 0} where
  pub Keeps-bind :
      (m : Exec A) (f : A → Exec B) → Keeps P m → ((a : A) → Keeps P (f a)) → Keeps P (m >>= f)
  Keeps-bind m f k l = Triple-bind (λ _. P) m f k l

pub ruleset keeps_rules = (
  Keeps-pure, Keeps-raise, Keeps-lift, Keeps-gets, Keeps-finds, Keeps-if, Keeps-bind, Keeps-attempt,
)
