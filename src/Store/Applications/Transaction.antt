-- ===== src/Store/Applications/Transaction.antt =====
-- A transaction keeps what holds of the applications.
use mathlib.Core.Path.{subst}
use job_scout_ai.Prelude.{◌≡◌, refl, sym, ◌∙◌, none, lookup, arith, Result, ok, err}
use job_scout_ai.Store.{World}
use job_scout_ai.Store.Exec.{Exec, restore, within_import_transaction}
use job_scout_ai.Store.Exec.Ends.{Ends, Keeps}
use job_scout_ai.Store.Applications.{stay}
use job_scout_ai.Store.Applications.Rules.{Good}

-- A moment follows itself.
pub Good-self : (start w : World) → Good start w → Good w w
Good-self start w g = record {
  sound = g.sound;
  follows = λ i a e. (a, e, stay);
  fresh = g.fresh;
  same_ids = refl;
  later = omega arith;
}

-- Undoing the writes since `w` leaves the applications as they were at `w`.
pub Good-restored :
    (start w w' : World) → Good start w → Good w w' → Good start (record w' { db = w.db })
Good-restored start w w' g k = record {
  sound = g.sound;
  follows = g.follows;
  fresh = record {
    not_empty = k.fresh.not_empty;
    distinct = k.fresh.distinct;
    unused = λ n h.
        subst (λ ids. lookup (ids n) w.db.applications ≡ none) (sym k.same_ids)
          (g.fresh.unused n (omega (arith, k.later, h)));
  };
  same_ids = k.same_ids ∙ g.same_ids;
  later = omega (arith, k.later, g.later);
}

module _ {A : Type 0} (start w : World) where
  restored-Ends :
      (r : Result A) (w' : World)
      → Good start w
      → Ends (Good start) (λ _. Good start) (r, w')
      → Ends (Good w) (λ _. Good w) (r, w')
      → Ends (Good start) (λ _. Good start) (restore w (r, w'))
  restored-Ends (ok a) w' g h k = h
  restored-Ends (err e) w' g h k = ground (arith, Good-restored start w w' g k)

-- A transaction keeps what its body keeps from every moment on.
pub Keeps-transaction :
    {A : Type 0} (m : Exec A)
    → ((start : World) → Keeps (Good start) m)
    → (start : World) → Keeps (Good start) (within_import_transaction m)
unfolding within_import_transaction
Keeps-transaction m keeps start = record {
  at = λ w g.
      let (r, w') = m w in
      restored-Ends start w r w' g ((keeps start).at w g) ((keeps w).at w (Good-self start w g));
}
