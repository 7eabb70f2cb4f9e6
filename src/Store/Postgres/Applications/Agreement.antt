-- ===== src/Store/Postgres/Applications/Agreement.antt =====
-- internal/store: the two storages agree on UpsertApplication and GetApplication.
use mathlib.Core.Path.{subst}
use job_scout_ai.Prelude.{
  suc, String, ◌≡◌, refl, sym, ap, ◌∙◌, [], Bool, true, false, not, ◌&&◌, List, ◌∷◌, Option, none,
  some, any, find, Dict, map, lookup, insert, values, All, if◌then◌else◌, ◌==◌, eq_iff, Bool-cases,
  inl, inr, Result, ok, err, not_found,
}
use job_scout_ai.Strings.{is_nil}
use job_scout_ai.Core.Types.{Application, Time}
use job_scout_ai.Core.ApplicationStatus
use job_scout_ai.Core.ApplicationStatus.{ApplicationStatus}
use job_scout_ai.Store.{World}
use job_scout_ai.Store.Exec.{gets, raise, modify, pure, finds, or_error, new_id, now, ◌>>=◌}
use job_scout_ai.Store.Memory
use job_scout_ai.Store.Memory.{filled_application, save_application, conflicts_with, is_active}
use job_scout_ai.Store.Postgres.Columns.{application_row, is_indexed, is_checked}
use job_scout_ai.Store.Postgres.{
  Violation, continue, ran, Tables, Session, upsert, or_not_found, check, unique_violation,
  conflict_or_plain, is_conflict_error,
}
use job_scout_ai.Store.Postgres.Queries
use job_scout_ai.Store.Postgres.Writes.{refers}
use job_scout_ai.Store.Postgres.Applications.{
  method_valid, is_row, updated_row, has_key, store_application, upsert_application,
  application_violation,
}

-- The keys of the dictionary are the identifiers.
abbrev pub Keyed : Dict Application → Type 0
Keyed [] = Unit
Keyed ((k, a) ∷ d) = (a.id ≡ k) × Keyed d

-- The same applications, with declared states and with their times as the columns keep them; the same identifiers to
-- come, and the same clock.
pub record Agrees (w : World) (s : Session) : Type 0 where
  pub keyed : Keyed w.db.applications
  pub rows : map (application_row s.timestamp) (values w.db.applications) ≡ s.tables.applications
  pub valid : All (λ b. ApplicationStatus.valid b.status ≡ true) (values w.db.applications)
  pub ids : w.ids ≡ s.ids
  pub drawn : w.drawn ≡ s.drawn
  pub clock : w.clock ≡ s.clock
  pub read : w.read ≡ s.read

-- The row holds no other time of creation than what a column keeps of the new one, the state and the method are
-- declared, and what is referred to is there.
pub record Fits (new : Application) (timestamp : Time → Time) (t : Tables) : Type 0 where
  pub created : All (λ b. b.id ≡ new.id → b.created_at ≡ timestamp new.created_at) t.applications
  pub status : ApplicationStatus.valid new.status ≡ true
  pub method : method_valid new.application_method ≡ true
  pub vacancy : refers (λ v. v.id) t.vacancies new.vacancy_id ≡ true
  pub profile : refers (λ p. p.id) t.candidate_profiles new.candidate_profile_id ≡ true
  pub resume : refers (λ r. r.id) t.resumes new.resume_id ≡ true

-- Equal results, and worlds that agree.
abbrev pub Same : Result Application × World → Result Application × Session → Type 0
Same p q = (p.0 ≡ q.0) × Agrees p.1 q.1

valid_checked : (s : ApplicationStatus) → ApplicationStatus.valid s ≡ true → is_checked s ≡ true
unfolding ApplicationStatus.valid is_checked
valid_checked (ApplicationStatus.other s) v = absurd (cc)
valid_checked ApplicationStatus.draft v = refl
valid_checked _ v = refl

-- Go's IsActive and the condition of the index agree on declared states.
active-indexed :
    (s : ApplicationStatus) (a : Application)
    → a.status ≡ s
    → ApplicationStatus.valid s ≡ true
    → is_active a ≡ is_indexed a
unfolding ApplicationStatus.valid ApplicationStatus.is_active is_indexed
active-indexed (ApplicationStatus.other s) a e v = absurd (cc)
active-indexed ApplicationStatus.cancelled a e v = rw e refl
active-indexed ApplicationStatus.rejected a e v = rw e refl
active-indexed ApplicationStatus.draft a e v = rw e refl
active-indexed _ a e v = rw e refl

module _ (new : Application) (ts : Time → Time) where
  abbrev row : Application
  row = application_row ts new

  same_row :
      (b : Application)
      → (b.id ≡ new.id → b.created_at ≡ ts new.created_at)
      → b.id == new.id ≡ true
      → updated_row row b ≡ row
  unfolding application_row
  same_row b h e = ap (λ (t : Time). record row { created_at = t }) (h ((eq_iff b.id new.id).0 e))

  insert-upsert :
      (d : Dict Application)
      → Keyed d
      → All
          (λ b. b.id ≡ new.id → b.created_at ≡ ts new.created_at)
          (map (application_row ts) (values d))
      → map (application_row ts) (values (insert new.id new d))
        ≡ upsert (is_row new) (updated_row row) row (map (application_row ts) (values d))
  unfolding values insert upsert application_row
  insert-upsert [] k h = refl
  insert-upsert ((j, b) ∷ d) k h = elim (Bool-cases (b.id == new.id)) [
    | inl y ↦ rw y (
        rw (subst (λ i. i == new.id ≡ true) k.0 y) (
          ap (λ r. r ∷ map (application_row ts) (values d))
            (sym (same_row (application_row ts b) h.0 y))))
    | inr n ↦ rw n (
        rw (subst (λ i. i == new.id ≡ false) k.0 n)
          (ap (λ r. application_row ts b ∷ r) (insert-upsert d k.1 h.1)))
  ]

  insert-Keyed : (d : Dict Application) → Keyed d → Keyed (insert new.id new d)
  unfolding insert
  insert-Keyed [] k = (refl, tt)
  insert-Keyed ((j, b) ∷ d) k = elim (Bool-cases (j == new.id)) [
    | inl y ↦ rw y (sym ((eq_iff j new.id).0 y), k.1)
    | inr n ↦ rw n (k.0, insert-Keyed d k.1)
  ]

  insert-valid :
      (d : Dict Application)
      → All (λ b. ApplicationStatus.valid b.status ≡ true) (values d)
      → ApplicationStatus.valid new.status ≡ true
      → All (λ b. ApplicationStatus.valid b.status ≡ true) (values (insert new.id new d))
  unfolding values insert
  insert-valid [] h v = (v, tt)
  insert-valid ((j, b) ∷ d) h v = elim (Bool-cases (j == new.id)) [
    | inl y ↦ rw y (v, h.1)
    | inr n ↦ rw n (h.0, insert-valid d h.1 v)
  ]

  -- Another active application, for Go and for the index.
  taken : List Application → Bool
  unfolding any conflicts_with ApplicationStatus.is_active
  taken olds = is_active new && any (conflicts_with new) olds

  in_index : List Application → Bool
  unfolding any is_indexed
  in_index rows = is_indexed new && any (has_key new) rows

  conflicts-has_key :
      (b : Application)
      → ApplicationStatus.valid b.status ≡ true
      → conflicts_with new b ≡ has_key new (application_row ts b)
  unfolding conflicts_with Memory.is_active_for application_row is_indexed
  conflicts-has_key b v = rw (active-indexed b.status b refl v) refl

  any-has_key :
      (olds : List Application)
      → All (λ b. ApplicationStatus.valid b.status ≡ true) olds
      → any (conflicts_with new) olds ≡ any (has_key new) (map (application_row ts) olds)
  unfolding any
  any-has_key [] v = refl
  any-has_key (b ∷ bs) v = rw (conflicts-has_key b v.0, any-has_key bs v.1) refl

  taken-in_index :
      (olds : List Application)
      → ApplicationStatus.valid new.status ≡ true
      → All (λ b. ApplicationStatus.valid b.status ≡ true) olds
      → taken olds ≡ in_index (map (application_row ts) olds)
  unfolding taken in_index
  taken-in_index olds v h = rw (active-indexed new.status new refl v, any-has_key olds h) refl

  Fits-violation :
      (t : Tables)
      → Fits new ts t
      → application_violation new t ≡ check (not (in_index t.applications)) unique_violation none
  unfolding application_violation in_index
  Fits-violation t f =
      rw (valid_checked new.status f.status, f.method, f.vacancy, f.profile, f.resume) refl

store-Agrees :
    (new : Application) (w : World) (s : Session)
    → Agrees w s
    → Fits new s.timestamp s.tables
    → Same (save_application new w) (store_application new s)
unfolding save_application ◌>>=◌ gets raise modify pure store_application conflict_or_plain
    is_conflict_error taken
store-Agrees new w s a f =
    let same : taken new s.timestamp (values w.db.applications)
        ≡ in_index new s.timestamp s.tables.applications =
      taken-in_index new s.timestamp (values w.db.applications) f.status a.valid
      ∙ ap (in_index new s.timestamp) a.rows in
    rw (same, Fits-violation new s.timestamp s.tables f)
      (elim (Bool-cases (in_index new s.timestamp s.tables.applications)) [
        | inl y ↦ rw y (refl, a)
        | inr n ↦ rw n (
          refl,
          record {
            keyed = insert-Keyed new s.timestamp w.db.applications a.keyed;
            rows =
                insert-upsert new s.timestamp w.db.applications a.keyed (
                  subst (All λ b. b.id ≡ new.id → b.created_at ≡ s.timestamp new.created_at)
                    (sym a.rows) f.created)
                ∙ ap
                    (upsert (is_row new) (updated_row (application_row s.timestamp new))
                      (application_row s.timestamp new))
                    a.rows;
            valid = insert-valid new s.timestamp w.db.applications a.valid f.status;
            ids = a.ids;
            drawn = a.drawn;
            clock = a.clock;
            read = a.read;
          },
        )
      ])

-- What a read finds, with the times of the row.
abbrev pub read_as : (Time → Time) → Option Application → Option Application
unfolding application_row
read_as ts none = none
read_as ts (some a) = some (application_row ts a)

read_if :
    (ts : Time → Time) (b : Bool) (a : Application) (o : Option Application)
    → read_as ts (if b then some a else o)
      ≡ (if b then some (application_row ts a) else read_as ts o)
unfolding read_as
read_if ts true a o = refl
read_if ts false a o = refl

lookup-find :
    (ts : Time → Time) (id : String) (d : Dict Application)
    → Keyed d
    → read_as ts (lookup id d) ≡ find (λ a. a.id == id) (map (application_row ts) (values d))
unfolding lookup find values application_row
lookup-find ts id [] k = refl
lookup-find ts id ((j, a) ∷ d) k =
    subst
      (λ z.
        read_as ts (if z == id then some a else lookup id d)
        ≡ find (λ b. b.id == id) (map (application_row ts) (a ∷ values d)))
      k.0
      (read_if ts (a.id == id) a (lookup id d)
        ∙ ap (λ o. if a.id == id then some (application_row ts a) else o) (lookup-find ts id d k.1))

-- The result of a read, with the times of the row.
abbrev pub reads_as : (Time → Time) → Result Application → Result Application
unfolding application_row
reads_as ts (ok a) = ok (application_row ts a)
reads_as ts (err e) = err e

get-Agrees :
    (id : String) (w : World) (s : Session)
    → Agrees w s
    → reads_as s.timestamp (Memory.get_application id w).0 ≡ (Queries.get_application id s).0
unfolding Memory.get_application finds Queries.get_application reads_as read_as
get-Agrees id w s a =
    either (lookup id w.db.applications)
    ∙ ap or_not_found
        (lookup-find s.timestamp id w.db.applications a.keyed ∙ ap (find (λ b. b.id == id)) a.rows)
  where
    either :
        (o : Option Application)
        → reads_as s.timestamp (or_error not_found o) ≡ or_not_found (read_as s.timestamp o)
    either none = refl
    either (some b) = refl

-- The identifier that UpsertApplication stores under.
abbrev pub stored_id : World → String → String
stored_id w id = if is_nil id then w.ids w.drawn else id

module _ (a : Application) (w : World) (s : Session) (g : Agrees w s) where
  abbrev filled : Application
  filled = filled_application a (stored_id w a.id) (w.clock w.read)

  same_id : s.ids s.drawn ≡ w.ids w.drawn
  same_id = ap (λ f. f s.drawn) (sym g.ids) ∙ ap w.ids (sym g.drawn)

  same_time : s.clock s.read ≡ w.clock w.read
  same_time = ap (λ f. f s.read) (sym g.clock) ∙ ap w.clock (sym g.read)

  Fits-under :
      (id : String)
      → stored_id w a.id ≡ id
      → Fits filled s.timestamp s.tables
      → Fits (filled_application a id (w.clock w.read)) s.timestamp s.tables
  Fits-under id e =
      subst (λ i. Fits (filled_application a i (w.clock w.read)) s.timestamp s.tables) e

  upsert-Agrees :
      Fits filled s.timestamp s.tables
      → Same (Memory.upsert_application a w) (upsert_application a s)
  unfolding Memory.upsert_application upsert_application Memory.id_or_new ◌>>=◌ new_id now pure
  upsert-Agrees f = elim (Bool-cases (is_nil a.id)) [
    | inl y ↦
        rw (y, same_id, same_time)
          (store-Agrees (filled_application a (w.ids w.drawn) (w.clock w.read))
            (record w { drawn = suc w.drawn; read = suc w.read })
            (record s { drawn = suc s.drawn; read = suc s.read })
            (record {
              keyed = g.keyed;
              rows = g.rows;
              valid = g.valid;
              ids = g.ids;
              drawn = ap suc g.drawn;
              clock = g.clock;
              read = ap suc g.read;
            })
            (Fits-under (w.ids w.drawn) (rw y refl) f))
    | inr n ↦
        rw (n, same_time)
          (store-Agrees (filled_application a a.id (w.clock w.read))
            (record w { read = suc w.read }) (record s { read = suc s.read })
            (record {
              keyed = g.keyed;
              rows = g.rows;
              valid = g.valid;
              ids = g.ids;
              drawn = g.drawn;
              clock = g.clock;
              read = ap suc g.read;
            })
            (Fits-under a.id (rw n refl) f))
  ]

-- No statement changes what the columns keep.
stored-timestamp :
    (new : Application) (write : Tables → Tables) (s : Session) (o : Option Violation)
    → (continue (λ u t. (ok new, t)) (ran conflict_or_plain write o s)).1.timestamp ≡ s.timestamp
stored-timestamp new write s none = refl
stored-timestamp new write s (some v) = refl

upsert-timestamp :
    (a : Application) (s : Session) → (upsert_application a s).1.timestamp ≡ s.timestamp
unfolding upsert_application store_application
upsert-timestamp a s = elim (Bool-cases (is_nil a.id)) [
  | inl y ↦ rw y (stored-timestamp _ _ _ _)
  | inr n ↦ rw n (stored-timestamp _ _ _ _)
]

-- The store in memory and PostgreSQL agree on applications: from states with the same applications, identifiers to
-- come and clock, UpsertApplication gives the same result on both, a conflict included, and leaves states that
-- agree again, on which GetApplication gives the same for every identifier, but for the times, of which PostgreSQL
-- gives back what its columns keep. What is stored must have a declared state and method and refer to rows that are
-- there, and must not change a time of creation, which the table keeps and the store in memory overwrites.
pub storages_agree :
    (a : Application) (w : World) (s : Session)
    → Agrees w s
    → Fits (filled_application a (stored_id w a.id) (w.clock w.read)) s.timestamp s.tables
    → Same (Memory.upsert_application a w) (upsert_application a s)
      × ((id : String)
          → reads_as s.timestamp (Memory.get_application id (Memory.upsert_application a w).1).0
            ≡ (Queries.get_application id (upsert_application a s).1).0)
storages_agree a w s g f =
    let h = upsert-Agrees a w s g f in
    (
      h,
      λ id.
          ap (λ ts. reads_as ts (Memory.get_application id (Memory.upsert_application a w).1).0)
            (sym (upsert-timestamp a s))
          ∙ get-Agrees id (Memory.upsert_application a w).1 (upsert_application a s).1 h.1,
    )
