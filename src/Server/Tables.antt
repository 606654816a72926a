-- ===== src/Server/Tables.antt =====
-- A PostgreSQL server that accepts the columns of a table's spec: what it answers to the statements
-- of `controllers/postgrestable_controller.go`, and what they do to the columns of the table.
pub mod Fitting
pub mod Statements
pub mod Requests
pub mod Again
mod Tests
use postgres_config_operator.Base.{
  ℕ, String, Bool, true, false, ◌||◌, ◌==◌, if◌then◌else◌, Option, none, some, List, [], ◌∷◌, ◌++◌,
  ◌≡◌, ◌≢◌, map, Listed,
}
use postgres_config_operator.Errors.{Err, ok, err, has_code}
use postgres_config_operator.Api.{PostgresColumn, PostgresTable}
use postgres_config_operator.Effects.{
  Argument, Request, History, begin_tx, commit, exec, text, tx_exec,
}
use postgres_config_operator.Effects.World.{World}
use postgres_config_operator.Table.{duplicate_table}
use postgres_config_operator.Table.Texts.{add_text, create_text, names_text, schema_text}
use postgres_config_operator.Server.{IsQuiet}

abbrev pub column_names : List PostgresColumn → List String
column_names cs = map (λ c. c.name) cs

abbrev pub name_arguments : PostgresTable → List Argument
name_arguments t = text t.spec.schema ∷ text t.spec.name ∷ []

-- After a history, `columns` are the names of the table's columns, if the table is there, and `added`
-- are those of the columns that were added in the open transaction. A table can be created once its
-- schema is there.
pub record ServesTable (w : World) (t : PostgresTable) (columns : History → Option (List String))
    (added : History → List String) : Type 0 where
  pub schema_there : History → Bool
  pub makes_schema : (h : History) → w.executed h (schema_text w t.spec.schema) [] ≡ ok tt
  pub creates :
      (h : History)
      → columns h ≡ none
      → schema_there h ≡ true
      → w.executed h (create_text w t.spec) [] ≡ ok tt
  pub refuses :
      (h : History) (names : List String)
      → columns h ≡ some names
      → (e : Err) × (w.executed h (create_text w t.spec) [] ≡ err e)
        × (has_code e duplicate_table ≡ true)
  pub lists :
      (h : History) (names : List String)
      → columns h ≡ some names
      → w.names_found h names_text (name_arguments t) ≡ ok names
  pub begins : (h : History) → w.tx_begun h ≡ ok tt
  pub adds :
      (h : History) (names : List String) (c : PostgresColumn)
      → columns h ≡ some names
      → Listed c t.spec.columns
      → ¬ Listed c.name (names ++ added h)
      → w.tx_executed h (add_text w t.spec c) ≡ ok tt
  pub commits : (h : History) → w.committed h ≡ ok tt
  -- what the requests do
  pub after_quiet : (q : Request) (h : History) → IsQuiet q → columns (q ∷ h) ≡ columns h
  pub after_schema : (h : History) → columns (exec (schema_text w t.spec.schema) [] ∷ h) ≡ columns h
  pub after_schema_there :
      (h : History) → schema_there (exec (schema_text w t.spec.schema) [] ∷ h) ≡ true
  pub after_create :
      (h : History)
      → columns h ≡ none
      → schema_there h ≡ true
      → columns (exec (create_text w t.spec) [] ∷ h) ≡ some (column_names t.spec.columns)
  pub after_refusal :
      (h : History) (names : List String)
      → columns h ≡ some names
      → columns (exec (create_text w t.spec) [] ∷ h) ≡ some names
  pub after_begin : (h : History) → added (begin_tx ∷ h) ≡ []
  pub after_add :
      (h : History) (c : PostgresColumn)
      → Listed c t.spec.columns
      → added (tx_exec (add_text w t.spec c) ∷ h) ≡ added h ++ (c.name ∷ [])
  pub after_commit :
      (h : History) (names : List String)
      → columns h ≡ some names
      → columns (commit ∷ h) ≡ some (names ++ added h)

-- Whether a name is among others, and the names that are not among others
unfoldable pub has_name : List String → String → Bool
has_name [] n = false
has_name (m ∷ ms) n = has_name ms n || (m == n)

unfoldable pub lacking : List String → List String → List String
unfolding has_name
lacking names [] = []
lacking names (n ∷ ns) = let rest = lacking names ns in if has_name names n then rest else n ∷ rest

-- The columns that a reconciliation leaves: those of the spec if the table is new, and otherwise
-- those that were there, and then those of the spec that were not.
unfoldable pub synced : Option (List String) → List PostgresColumn → List String
unfolding lacking
synced none cs = column_names cs
synced (some names) cs = names ++ lacking names (column_names cs)
