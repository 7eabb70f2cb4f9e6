-- ===== src/Migrate/Again.antt =====
-- internal/migrate/migrate.go, Up: behind a run that succeeded, another run finds nothing to do.
use mathlib.Core.Path.{subst}
use mathlib.Core.List.{append-nil, append_assoc}
use job_scout_ai.Prelude.{
  String, ◌≡◌, refl, sym, ap, ◌∙◌, true, List, [], ◌∷◌, ◌++◌, elem, keep, All, arith, Bool-cases,
  inl, inr, ok, Result, eq_refl,
}
use job_scout_ai.Migrate.{
  Migration, Row, State, Outside, entries_of, row_of, versions, discover, up,
}
use job_scout_ai.Migrate.Each.{rows_of, Adds}
use job_scout_ai.Migrate.Applied.{pending, wanted, found, Applies, up_applied}

elem_left :
    (v : String) (rs qs : List Row)
    → elem v (versions rs) ≡ true
    → elem v (versions (rs ++ qs)) ≡ true
unfolding elem versions
elem_left v [] qs e = absurd (cc)
elem_left v (r ∷ rs) qs e = ground (arith, elem_left v rs qs)

elem_at :
    (m : Migration) (rs qs : List Row) → elem m.version (versions (rs ++ row_of m ∷ qs)) ≡ true
unfolding elem versions
elem_at m [] qs = rw (eq_refl m.version) refl
elem_at m (r ∷ rs) qs = ground (arith, elem_at m rs qs)

abbrev Recorded : List Row → Migration → Type 0
Recorded rs m = elem m.version (versions rs) ≡ true

All-Recorded : (rs : List Row) (ms : List Migration) → All (Recorded (rs ++ rows_of ms)) ms
All-Recorded rs [] = tt
All-Recorded rs (m ∷ ms) = (
  elem_at m rs (rows_of ms),
  subst (λ z. All (Recorded z) ms) (append_assoc rs (row_of m ∷ []) (rows_of ms))
      (All-Recorded (rs ++ row_of m ∷ []) ms),
)

module _ {Schema : Type 0} (o : Outside Schema) where
  nothing_pending :
      (applied later : List String) (ms : List Migration)
      → ((v : String) → elem v applied ≡ true → elem v later ≡ true)
      → All (λ m. elem m.version later ≡ true) (pending applied ms)
      → pending later ms ≡ []
  unfolding pending keep
  nothing_pending applied later [] sub h = refl
  nothing_pending applied later (m ∷ ms) sub h = elim (Bool-cases (elem m.version applied)) [
    | inl y ↦ rw (sub m.version y) (nothing_pending applied later ms sub (rw y at h))
    | inr n ↦ let k = rw n at h in rw k.0 (nothing_pending applied later ms sub k.1)
  ]

  -- Where nothing is wanted, nothing changes.
  idle :
      (s : State Schema) (p : Result (Unit {0}) × State Schema) (ms : List Migration)
      → Applies o ms s p
      → ms ≡ []
      → (entries_of p.1.rows ≡ entries_of s.rows) × (p.1.schema ≡ s.schema)
  idle s p ms h e = by_new h.new h.rest (sym e ∙ h.split) h.adds
    where
      by_new :
          (new rest : List Migration)
          → [] ≡ new ++ rest
          → Adds o s p.1 new
          → (entries_of p.1.rows ≡ entries_of s.rows) × (p.1.schema ≡ s.schema)
      by_new [] rest k (r, c) = (r ∙ append-nil (entries_of s.rows), sym c)
      by_new (m ∷ ms) rest k a = absurd (cc)

  settled :
      (dir : String) (s t : State Schema) (new : List Migration)
      → entries_of t.rows ≡ entries_of s.rows ++ rows_of new
      → wanted o dir s ≡ new
      → wanted o dir t ≡ []
  unfolding wanted
  settled dir s t new r e =
      nothing_pending (versions (entries_of s.rows)) (versions (entries_of t.rows))
        (found o (discover o dir)) (λ v h. rw r (elem_left v (entries_of s.rows) (rows_of new) h))
        (rw e (rw r (All-Recorded (entries_of s.rows) new)))

-- Behind a run that succeeded, another run on the same directory changes nothing: the schema and the rows of
-- the table stay as they are, whatever fails in it.
pub up_again :
    {Schema : Type 0} (o : Outside Schema) (dir : String) (s : State Schema)
    → (up o dir s).0 ≡ ok tt
    → (entries_of (up o dir (up o dir s).1).1.rows ≡ entries_of (up o dir s).1.rows)
      × ((up o dir (up o dir s).1).1.schema ≡ (up o dir s).1.schema)
up_again o dir s e =
    let h = (up_applied o dir s).1 in
    let t = (up o dir s).1 in
    let w : wanted o dir s ≡ h.new =
      h.split ∙ ap (λ z. h.new ++ z) (h.complete e) ∙ append-nil h.new in
    idle o t (up o dir t) (wanted o dir t) (up_applied o dir t).1
      (settled o dir s t h.new h.adds.0 w)
