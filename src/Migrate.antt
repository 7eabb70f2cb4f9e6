-- ===== src/Migrate.antt =====
-- internal/migrate/migrate.go. A migration's text acts on the schema and not on the table of migrations, whose
-- `version` is its primary key. The n-th statement may fail, and a commit may be refused, or be done while
-- its answer is lost.
pub mod Order
pub mod Each
pub mod Applied
pub mod Again
use Prim.Native.String.{compare}
use Prim.Native.Nat.{Ordering}
use mathlib.Core.Option
use job_scout_ai.Prelude.{
  ℕ, suc, String, Bool, true, false, not, ◌&&◌, ◌||◌, List, [], ◌∷◌, ◌++◌, Option, none, some,
  if◌then◌else◌, elem, Result, ok, err, Error, message,
}
use job_scout_ai.Strings.{◌+++◌, contains}
use job_scout_ai.Strings.Affixes.{has_suffix, without_suffix, cut}

pub record Migration : Type 0 where
  pub version : String
  pub name : String
  pub path : String

pub record DirEntry : Type 0 where
  pub name : String
  pub is_dir : Bool

-- A row of schema_migrations.
pub record Row : Type 0 where
  pub version : String
  pub name : String

-- `rows` is none before the table is there.
pub record State (Schema : Type 0) : Type 0 where
  pub schema : Schema
  pub rows : Option (List Row)
  pub statements : ℕ

pub data Commit : Type 0 where
  done : Commit
  refused lost : Error → Commit

-- The file system, and PostgreSQL, which runs a text on a schema.
pub record Outside (Schema : Type 0) : Type 0 where
  pub read_dir : String → Result (List DirEntry)
  pub read_file : String → Result String
  pub join : String → String → String
  pub is_not_exist : Error → Bool
  pub error_text : Error → String
  pub to_lower : String → String
  pub execute : String → Schema → Result Schema
  pub trouble : ℕ → Option Error
  pub commit : ℕ → Commit

unfoldable pub insert_by_version : Migration → List Migration → List Migration
insert_by_version m [] = m ∷ []
insert_by_version m (n ∷ ns) = elim (compare m.version n.version) [
  | Ordering.gt ↦ n ∷ insert_by_version m ns
  | _ ↦ m ∷ n ∷ ns
]

-- sort.Slice by version; it is a stable insertion sort up to twelve files.
unfoldable pub sort_by_version : List Migration → List Migration
unfolding insert_by_version
sort_by_version [] = []
sort_by_version (m ∷ ms) = insert_by_version m (sort_by_version ms)

abbrev pub add_parts : String → Option (String × String) → List Migration → List Migration
add_parts path none ms = ms
add_parts path (some (version, name)) ms =
    record { version = version; name = name; path = path } ∷ ms

abbrev pub entries_of : Option (List Row) → List Row
entries_of none = []
entries_of (some rs) = rs

abbrev pub row_of : Migration → Row
row_of m = record { version = m.version; name = m.name }

unfoldable pub versions : List Row → List String
versions [] = []
versions (r ∷ rs) = r.version ∷ versions rs

abbrev pub told : Option Error → Result (Unit {0})
told none = ok tt
told (some e) = err e

abbrev pub selected : Option (List Row) → Result (List String)
selected none = err (message "relation \"schema_migrations\" does not exist")
selected (some rs) = ok (versions rs)

abbrev pub Act : (Schema A : Type 0) → Type 0
Act Schema A = State Schema → Result A × State Schema

module _ {Schema : Type 0} where
  module _ {A B : Type 0} where
    abbrev pub continue : (A → Act Schema B) → Result A × State Schema → Result B × State Schema
    continue f (ok a, s) = f a s
    continue f (err e, s) = (err e, s)

    infixl 10 ◌>>=◌ ◌>>◌
    abbrev pub ◌>>=◌ : Act Schema A → (A → Act Schema B) → Act Schema B
    m >>= f = λ s. continue f (m s)

    abbrev pub ◌>>◌ : Act Schema A → Act Schema B → Act Schema B
    m >> n = m >>= λ _. n

  abbrev pub lift : {A : Type 0} → Result A → Act Schema A
  lift r s = (r, s)

  abbrev pub counted : State Schema → State Schema
  counted s = record s { statements = suc s.statements }

  abbrev pub rolled_back : (before after : State Schema) → State Schema
  rolled_back s t = record s { statements = t.statements }

  module _ (o : Outside Schema) where
    abbrev pub statement : Act Schema (Unit {0})
    statement s = (told (o.trouble s.statements), counted s)

    unfoldable pub ensure_table : Act Schema (Unit {0})
    ensure_table = statement >> λ s. (ok tt, record s { rows = some (entries_of s.rows) })

    unfoldable pub applied_versions : Act Schema (List String)
    unfolding versions
    applied_versions = statement >> λ s. (selected s.rows, s)

    unfoldable pub migrations_of : String → List DirEntry → List Migration
    unfolding has_suffix without_suffix cut
    migrations_of dir [] = []
    migrations_of dir (entry ∷ es) =
        let rest = migrations_of dir es in
        if entry.is_dir || not (has_suffix entry.name ".sql") || has_suffix entry.name ".down.sql"
        then rest
        else add_parts (o.join dir entry.name) (cut "_" (without_suffix entry.name ".sql")) rest

    abbrev pub found_in : String → Result (List DirEntry) → Result (List Migration)
    unfolding migrations_of sort_by_version contains
    found_in dir (ok es) = ok (sort_by_version (migrations_of dir es))
    found_in dir (err e) =
        if o.is_not_exist e || contains (o.to_lower (o.error_text e)) "file does not exist"
        then ok []
        else err e

    unfoldable pub discover : String → Result (List Migration)
    unfolding found_in
    discover dir = found_in dir (o.read_dir dir)

    abbrev pub wrapped :
        String → Result (Unit {0}) × State Schema → Result (Unit {0}) × State Schema
    wrapped path (ok t, s) = (ok t, s)
    wrapped path (err e, s) =
        (err (message ("apply migration " +++ path +++ ": " +++ o.error_text e)), s)

    abbrev pub wrapping : String → Act Schema (Unit {0}) → Act Schema (Unit {0})
    wrapping path m = λ s. wrapped path (m s)

    abbrev pub executed : Result Schema → Act Schema (Unit {0})
    executed (ok schema) s = (ok tt, record s { schema = schema })
    executed (err e) s = (err e, s)

    unfoldable pub run_body : Migration → String → Act Schema (Unit {0})
    run_body m body = wrapping m.path (statement >> λ s. executed (o.execute body s.schema) s)

    abbrev pub inserted : Migration → Act Schema (Unit {0})
    unfolding versions elem
    inserted m s =
        if elem m.version (versions (entries_of s.rows))
        then (err (message "duplicate key value violates unique constraint"), s)
        else (ok tt, record s { rows = some (entries_of s.rows ++ row_of m ∷ []) })

    unfoldable pub insert_row : Migration → Act Schema (Unit {0})
    unfolding versions elem
    insert_row m = statement >> inserted m

    abbrev pub committed : (before after : State Schema) → Commit → Result (Unit {0}) × State Schema
    committed s t done = (ok tt, counted t)
    committed s t (refused e) = (err e, counted (rolled_back s t))
    committed s t (lost e) = (err e, counted t)

    abbrev pub ended :
        (before : State Schema)
        → Result (Unit {0}) × State Schema
        → Result (Unit {0}) × State Schema
    ended s (ok u, t) = committed s t (o.commit t.statements)
    ended s (err e, t) = (err e, rolled_back s t)

    -- What stands between BeginTx and Commit; an error rolls it back.
    unfoldable pub transaction : Act Schema (Unit {0}) → Act Schema (Unit {0})
    transaction body = statement >> λ s. ended s (body s)

    unfoldable pub apply_one : Migration → Act Schema (Unit {0})
    unfolding run_body insert_row transaction
    apply_one m =
        lift (o.read_file m.path) >>= λ body. transaction (run_body m body >> insert_row m)

    unfoldable pub apply_all : List String → List Migration → Act Schema (Unit {0})
    unfolding elem apply_one
    apply_all applied [] = λ s. (ok tt, s)
    apply_all applied (m ∷ ms) =
        (if elem m.version applied then (λ s. (ok tt, s)) else apply_one m) >> apply_all applied ms

    unfoldable pub up : String → Act Schema (Unit {0})
    unfolding ensure_table applied_versions discover apply_all
    up dir = ensure_table >> applied_versions >>= λ applied.
        lift (discover dir) >>= λ migrations. apply_all applied migrations
