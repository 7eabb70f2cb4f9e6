-- ===== src/Migrate/Applied.antt =====
-- internal/migrate/migrate.go, Up: which migrations a run applies, whatever goes wrong in it.
use mathlib.Core.List.{append-nil, append_assoc}
use mathlib.Core.Logic.{inl, inr}
use job_scout_ai.Prelude.{
  suc, String, ◌≡◌, refl, sym, ap, ◌∙◌, false, not, List, [], ◌∷◌, ◌++◌, Option, none, some, elem,
  keep, keep-In, In, In-keep, ◌↔◌, ◌||◌, Bool, true, if◌then◌else◌, arith, Bool-cases, Result, ok,
  err, Error, is_ok,
}
use job_scout_ai.Strings.{contains}
use job_scout_ai.Migrate.Order.{InOrder, sort-InOrder, keep-InOrder, sort-In}
use job_scout_ai.Migrate.{
  DirEntry, migrations_of, found_in, sort_by_version, Migration, State, Outside, continue, ◌>>=◌,
  entries_of, row_of, versions, told, selected, counted, ensure_table, applied_versions, discover,
  lift, apply_one, apply_all, up,
}
use job_scout_ai.Migrate.Each.{
  rows_of, Adds, Replays-append, Adds-none, AppliesOrFails, apply_one-Applies,
}

unfoldable pub pending : List String → List Migration → List Migration
unfolding keep elem
pending applied = keep λ m. not (elem m.version applied)

module _ {Schema : Type 0} (o : Outside Schema) where
  -- The action has applied the first ones of these migrations, all of them where it succeeds.
  pub record Applies (ms : List Migration) (s : State Schema) (p : Result (Unit {0}) × State Schema)
      : Type 0 where
    pub new : List Migration
    pub rest : List Migration
    pub split : ms ≡ new ++ rest
    pub complete : p.0 ≡ ok tt → rest ≡ []
    pub adds : Adds o s p.1 new

  Applies-none :
      (ms : List Migration) (s : State Schema) (p : Result (Unit {0}) × State Schema)
      → is_ok p.0 ≡ false
      → Adds o s p.1 []
      → Applies ms s p
  Applies-none ms s p e a = record {
    new = [];
    rest = ms;
    split = refl;
    complete = λ k. absurd (cc);
    adds = a;
  }

  Adds-more :
      (m : Migration) (ms : List Migration) (s t u : State Schema)
      → Adds o s t (m ∷ [])
      → Adds o t u ms
      → Adds o s u (m ∷ ms)
  Adds-more m ms s t u (r, a) (q, b) = (
    q ∙ ap (λ z. z ++ rows_of ms) r ∙ append_assoc (entries_of s.rows) (row_of m ∷ []) (rows_of ms),
    Replays-append o (m ∷ []) ms s.schema t.schema u.schema a b,
  )

  Applies-more :
      (m : Migration) (ms : List Migration) (s t : State Schema)
      (p : Result (Unit {0}) × State Schema)
      → Adds o s t (m ∷ [])
      → Applies ms t p
      → Applies (m ∷ ms) s p
  Applies-more m ms s t p a h = record {
    new = m ∷ h.new;
    rest = h.rest;
    split = ap (λ z. m ∷ z) h.split;
    complete = h.complete;
    adds = Adds-more m h.new s t p.1 a h.adds;
  }

  after_one :
      (m : Migration) (ms : List Migration) (f : State Schema → Result (Unit {0}) × State Schema)
      → ((t : State Schema) → Applies ms t (f t))
      → (s : State Schema) (p : Result (Unit {0}) × State Schema) → AppliesOrFails o m s p
      → Applies (m ∷ ms) s (continue (λ u. f) p)
  after_one m ms f h s (ok u, t) (inl (k, a)) = absurd (cc)
  after_one m ms f h s (err e, t) (inl (k, a)) = Applies-none (m ∷ ms) s (err e, t) refl a
  after_one m ms f h s (ok u, t) (inr a) = Applies-more m ms s t (f t) a (h t)
  after_one m ms f h s (err e, t) (inr a) = record {
    new = m ∷ [];
    rest = ms;
    split = refl;
    complete = λ k. absurd (cc);
    adds = a;
  }

  apply_all-Applies :
      (applied : List String) (ms : List Migration) (s : State Schema)
      → Applies (pending applied ms) s (apply_all o applied ms s)
  unfolding apply_all pending keep
  apply_all-Applies applied [] s = record {
    new = [];
    rest = [];
    split = refl;
    complete = λ e. refl;
    adds = Adds-none o s s refl refl;
  }
  apply_all-Applies applied (m ∷ ms) s = elim (Bool-cases (elem m.version applied)) [
    | inl y ↦ rw y (apply_all-Applies applied ms s)
    | inr n ↦ rw n (
        after_one m (pending applied ms) (apply_all o applied ms) (apply_all-Applies applied ms) s
          (apply_one o m s) (apply_one-Applies o m s))
  ]

  -- The migrations of the directory, if it can be read.
  abbrev pub found : Result (List Migration) → List Migration
  found (ok ms) = ms
  found (err e) = []

  unfoldable pub wanted : String → State Schema → List Migration
  unfolding pending discover versions
  wanted dir s = pending (versions (entries_of s.rows)) (found (discover o dir))

  Applies-failed :
      (ms : List Migration) (s t : State Schema) (e : Error)
      → t.rows ≡ s.rows
      → s.schema ≡ t.schema
      → Applies ms s (err e, t)
  Applies-failed ms s t e r k = Applies-none ms s (err e, t) refl (Adds-none o s t r k)

  module _ (dir : String) (s : State Schema) where
    abbrev made : State Schema
    made = record s { rows = some (entries_of s.rows); statements = suc s.statements }

    run-Applies : Applies (wanted dir s) s (up o dir s)
    unfolding up wanted ensure_table applied_versions
    run-Applies = by_trouble (o.trouble s.statements)
      where
        by_listing :
            (r : Result (List Migration))
            → Applies
                (pending (versions (entries_of s.rows)) (found r))
                s
                (continue (apply_all o (versions (entries_of s.rows))) (r, counted made))
        by_listing (err e) = Applies-none _ s (err e, counted made) refl (sym (append-nil _), refl)
        by_listing (ok ms) =
            let h = apply_all-Applies (versions (entries_of s.rows)) ms (counted made) in
            record {
              new = h.new;
              rest = h.rest;
              split = h.split;
              complete = h.complete;
              adds = h.adds;
            }

        by_query :
            (d : Option Error)
            → Applies (wanted dir s) s (
                continue
                  (λ applied. lift (discover o dir) >>= λ ms. apply_all o applied ms)
                  (continue (λ u t. (selected t.rows, t)) (told d, counted made)))
        by_query (some e) = Applies-none _ s (err e, counted made) refl (sym (append-nil _), refl)
        by_query none = by_listing (discover o dir)

        by_trouble :
            (d : Option Error)
            → Applies (wanted dir s) s (
                continue
                  (λ applied. lift (discover o dir) >>= λ ms. apply_all o applied ms)
                  (continue
                    (λ u. applied_versions o)
                    (continue
                      (λ u t. (ok tt, record t { rows = some (entries_of t.rows) }))
                      (told d, counted s))))
        by_trouble (some e) = Applies-failed _ s (counted s) e refl refl
        by_trouble none = by_query (o.trouble made.statements)

-- The entries of the directory, if it can be read.
abbrev pub listing : Result (List DirEntry) → List DirEntry
listing (ok es) = es
listing (err e) = []

module _ {Schema : Type 0} (o : Outside Schema) (dir : String) (s : State Schema) where
  -- What a run has to apply: in the order of their versions, exactly the migrations of the directory that the table
  -- does not have.
  pub record Due (ms : List Migration) : Type 0 where
    pub ordered : InOrder ms
    pub exact :
        (m : Migration)
        → In m ms ↔ (
            In m (migrations_of o dir (listing (o.read_dir dir)))
            × (elem m.version (versions (entries_of s.rows)) ≡ false))

  missing : Migration → Bool
  missing m = not (elem m.version (versions (entries_of s.rows)))

  found-InOrder : (r : Result (List DirEntry)) → InOrder (found o (found_in o dir r))
  unfolding found_in sort_by_version
  found-InOrder (ok es) = sort-InOrder (migrations_of o dir es)
  found-InOrder (err e) =
      none_found (o.is_not_exist e || contains (o.to_lower (o.error_text e)) "file does not exist")
    where
      none_found : (b : Bool) → InOrder (found o (if b then ok [] else err e))
      none_found true = tt
      none_found false = tt

  found-In :
      (r : Result (List DirEntry)) (m : Migration)
      → In m (found o (found_in o dir r)) ↔ In m (migrations_of o dir (listing r))
  unfolding migrations_of found_in sort_by_version
  found-In (ok es) m = sort-In (migrations_of o dir es) m
  found-In (err e) m =
      none_found (o.is_not_exist e || contains (o.to_lower (o.error_text e)) "file does not exist")
    where
      none_found : (b : Bool) → In m (found o (if b then ok [] else err e)) ↔ In m []
      none_found true = (λ i. i, λ i. i)
      none_found false = (λ i. i, λ i. i)

  wanted-Due : Due (wanted o dir s)
  unfolding wanted pending discover
  wanted-Due = record {
    ordered = keep-InOrder _ _ (found-InOrder (o.read_dir dir));
    exact = λ m. (
      λ i.
          let (j, e) = keep-In _ (found o (found_in o dir (o.read_dir dir))) m i in
          ((found-In (o.read_dir dir) m).0 j, ground arith),
      λ (i, e). In-keep _ _ m ((found-In (o.read_dir dir) m).1 i) (ground arith),
    );
  }

-- A run is to apply, in the order of their versions, exactly those migrations of the directory that the table does
-- not have yet. It applies the first ones of them in this order, and all of them where it succeeds: whatever
-- fails on the way, the new schema is the old one with the texts of exactly these run on it, and the table has
-- exactly their rows more.
pub up_applied :
    {Schema : Type 0} (o : Outside Schema) (dir : String) (s : State Schema)
    → Due o dir s (wanted o dir s) × Applies o (wanted o dir s) s (up o dir s)
up_applied o dir s = (wanted-Due o dir s, run-Applies o dir s)
