-- ===== src/Migrate/Each.antt =====
-- internal/migrate/migrate.go, applyOne: a migration is applied wholly or not at all.
use mathlib.Core.Path.{subst}
use mathlib.Core.List.{append-nil}
use mathlib.Core.Logic.{inl, inr, ◌⊎◌}
use job_scout_ai.Prelude.{
  String, ◌≡◌, refl, sym, ap, ◌∙◌, Bool, true, false, List, [], ◌∷◌, ◌++◌, Option, none, some, elem,
  Result, ok, err, Error, is_ok,
}
use job_scout_ai.Migrate.{
  Migration, Row, State, Outside, Commit, done, refused, lost, continue, ◌>>◌, entries_of, row_of,
  versions, told, counted, rolled_back, wrapped, executed, run_body, inserted, insert_row,
  committed, ended, transaction, apply_one,
}

abbrev pub rows_of : List Migration → List Row
rows_of [] = []
rows_of (m ∷ ms) = row_of m ∷ rows_of ms

module _ {Schema : Type 0} (o : Outside Schema) where
  -- The texts of the migrations lead from one schema to the other.
  abbrev pub Replays : List Migration → Schema → Schema → Type 0
  Replays [] s t = s ≡ t
  Replays (m ∷ ms) s t =
      (body : String) × (u : Schema) × (o.read_file m.path ≡ ok body)
      × (o.execute body s ≡ ok u)
      × Replays ms u t

  -- What the new state has over the old one is these migrations, in the schema and in the table.
  abbrev pub Adds : State Schema → State Schema → List Migration → Type 0
  Adds s t ms = (entries_of t.rows ≡ entries_of s.rows ++ rows_of ms) × Replays ms s.schema t.schema

  pub Replays-append :
      (ms ns : List Migration) (s t u : Schema)
      → Replays ms s t
      → Replays ns t u
      → Replays (ms ++ ns) s u
  Replays-append [] ns s t u e r = subst (λ x. Replays ns x u) (sym e) r
  Replays-append (m ∷ ms) ns s t u (body, v, f, x, q) r =
      (body, v, f, x, Replays-append ms ns v t u q r)

  pub Adds-none : (s t : State Schema) → t.rows ≡ s.rows → s.schema ≡ t.schema → Adds s t []
  Adds-none s t r e = (ap entries_of r ∙ sym (append-nil (entries_of s.rows)), e)

  -- An action that applies the migration, or fails and changes nothing.
  abbrev pub AppliesOrFails : Migration → State Schema → Result (Unit {0}) × State Schema → Type 0
  AppliesOrFails m s p = ((is_ok p.0 ≡ false) × Adds s p.1 []) ⊎ Adds s p.1 (m ∷ [])

  -- What stands in its transaction may also fail half done.
  abbrev pub AppliesOrBreaks : Migration → State Schema → Result (Unit {0}) × State Schema → Type 0
  AppliesOrBreaks m s p = (is_ok p.0 ≡ false) ⊎ Adds s p.1 (m ∷ [])

  module _ (m : Migration) (s : State Schema) where
    ended-Applies :
        (b : State Schema)
        → b.rows ≡ s.rows
        → s.schema ≡ b.schema
        → (p : Result (Unit {0}) × State Schema) → AppliesOrBreaks m s p
        → AppliesOrFails m s (ended o b p)
    ended-Applies b r e (err x, t) a = inl (refl, Adds-none s (rolled_back b t) r e)
    ended-Applies b r e (ok u, t) (inl f) = absurd (cc)
    ended-Applies b r e (ok u, t) (inr a) = by_commit (o.commit t.statements)
      where
        by_commit : (c : Commit) → AppliesOrFails m s (committed o b t c)
        by_commit done = inr a
        by_commit (refused x) = inl (refl, Adds-none s (rolled_back b t) r e)
        by_commit (lost x) = inr a

    module _ (body : String) (f : o.read_file m.path ≡ ok body) where
      insert-Applies :
          (t : State Schema)
          → t.rows ≡ s.rows
          → o.execute body s.schema ≡ ok t.schema
          → AppliesOrBreaks m s (insert_row o m t)
      unfolding insert_row
      insert-Applies t r x = by_trouble (o.trouble t.statements)
        where
          by_key :
              (b : Bool)
              → elem m.version (versions (entries_of t.rows)) ≡ b
              → AppliesOrBreaks m s (inserted o m (counted t))
          by_key true e = rw e (inl refl)
          by_key false e =
              rw e (inr (ap (λ z. entries_of z ++ row_of m ∷ []) r, (body, t.schema, f, x, refl)))

          by_trouble :
              (d : Option Error)
              → AppliesOrBreaks m s (continue (λ x. inserted o m) (told d, counted t))
          by_trouble (some e) = inl refl
          by_trouble none = by_key _ refl

      body-Applies :
          (b : State Schema)
          → b.rows ≡ s.rows
          → b.schema ≡ s.schema
          → AppliesOrBreaks m s ((run_body o m body >> insert_row o m) b)
      unfolding run_body
      body-Applies b r e = by_trouble (o.trouble b.statements)
        where
          by_result :
              (x : Result Schema)
              → o.execute body b.schema ≡ x
              → AppliesOrBreaks m s
                  (continue (λ u. insert_row o m) (wrapped o m.path (executed o x (counted b))))
          by_result (err y) k = inl refl
          by_result (ok u) k =
              insert-Applies (record (counted b) { schema = u }) r
                (subst (λ z. o.execute body z ≡ ok u) e k)

          by_trouble :
              (d : Option Error)
              → AppliesOrBreaks m s (
                  continue
                    (λ u. insert_row o m)
                    (wrapped o m.path (
                      continue
                        (λ u t. executed o (o.execute body t.schema) t)
                        (told d, counted b))))
          by_trouble (some y) = inl refl
          by_trouble none = by_result (o.execute body b.schema) refl

      transaction-Applies :
          AppliesOrFails m s (transaction o (run_body o m body >> insert_row o m) s)
      unfolding transaction
      transaction-Applies = by_trouble (o.trouble s.statements)
        where
          by_trouble :
              (d : Option Error)
              → AppliesOrFails m s (
                  continue
                    (λ u t. ended o t ((run_body o m body >> insert_row o m) t))
                    (told d, counted s))
          by_trouble (some y) = inl (refl, Adds-none s (counted s) refl refl)
          by_trouble none =
              ended-Applies (counted s) refl refl _ (body-Applies (counted s) refl refl)

    pub apply_one-Applies : AppliesOrFails m s (apply_one o m s)
    unfolding apply_one
    apply_one-Applies = by_file (o.read_file m.path) refl
      where
        by_file :
            (r : Result String)
            → o.read_file m.path ≡ r
            → AppliesOrFails m s
                (continue (λ body. transaction o (run_body o m body >> insert_row o m)) (r, s))
        by_file (err e) f = inl (refl, Adds-none s s refl refl)
        by_file (ok body) f = transaction-Applies body f
