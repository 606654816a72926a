-- ===== src/Table.antt =====
-- `controllers/postgrestable_controller.go`
pub mod Columns
pub mod Texts
pub mod Transaction
pub mod Reports
pub mod Tests
use postgres_config_operator.Base.{
  String, ◌<>◌, Bool, true, false, List, [], ◌∷◌, ◌++◌, if◌then◌else◌, contains, join,
}
use postgres_config_operator.Errors.{wrapped, has_code}
use postgres_config_operator.Api.{
  NamespacedName, PostgresColumn, PostgresTable, PostgresTableSpec, qualified, single,
}
use postgres_config_operator.Effects.{
  M, ReconcileResult, answer, return, fail, attempt, begin_tx, commit, deferred, perform, query,
  rollback, text, wrap, ◌>>=◌, ◌>>◌,
}
use postgres_config_operator.Effects.World.{Log, World, do_exec, do_tx_exec}
use postgres_config_operator.Logging.{with_request_logger}
use postgres_config_operator.Events.{
  complain, successful_reconcile, success_connect_postgres, finished, again, get_or_stop,
  with_connection, report,
}

-- `pgerrcode.DuplicateTable`
abbrev pub duplicate_table : String
duplicate_table = "42P07"

abbrev pub column_names_query : String
column_names_query =
    "\n\t\tSELECT column_name FROM information_schema.columns\n\t\tWHERE table_schema = $1 AND table_name = $2\n\t\t"

-- The loop that collects `columnsToAdd`; the map `columnNames` is the list of its keys.
unfoldable pub columns_to_add : List String → List PostgresColumn → List PostgresColumn
unfolding contains
columns_to_add names [] = []
columns_to_add names (c ∷ cs) =
    let rest = columns_to_add names cs in if contains names c.name then rest else c ∷ rest

module _ (w : World) where
  -- The loop that collects `primaryKeys`
  unfoldable pub primary_keys : List PostgresColumn → List String
  primary_keys [] = []
  primary_keys (c ∷ cs) =
      let rest = primary_keys cs in
      if c.primary_key then w.sanitize (single c.name) ∷ rest else rest

  -- `sqlParts` of one column
  unfoldable pub column_parts : PostgresColumn → List String
  column_parts c =
      w.sanitize (single c.name)
      ∷ w.sanitize (single c.data_type)
      ∷ (if c.nullable then [] else "NOT NULL" ∷ [])

  -- The loop that collects `columnClauses`
  unfoldable pub column_clauses : List PostgresColumn → List String
  unfolding column_parts join
  column_clauses [] = []
  column_clauses (c ∷ cs) = join " " (column_parts c) ∷ column_clauses cs

  unfoldable pub with_primary_key : List String → List String → List String
  unfolding join
  with_primary_key [] clauses = clauses
  with_primary_key (k ∷ ks) clauses =
      clauses ++ (("PRIMARY KEY (" <> join ", " (k ∷ ks) <> ")") ∷ [])

  -- `buildCreateTableQuery`
  unfoldable pub build_create_table_query : PostgresTableSpec → String
  unfolding primary_keys column_clauses with_primary_key join
  build_create_table_query t =
      "CREATE TABLE "
      <> w.sanitize (qualified t.identifier)
      <> " ("
      <> join ",\n" (with_primary_key (primary_keys t.columns) (column_clauses t.columns))
      <> ")"

  unfoldable pub create_schema_query : String → String
  create_schema_query schema = "CREATE SCHEMA IF NOT EXISTS " <> w.sanitize (single schema)

  -- `ensureSchemaExists`
  unfoldable pub ensure_schema_exists : PostgresTable → M (Unit {0})
  unfolding create_schema_query
  ensure_schema_exists t =
      wrap "failed to execute query" (do_exec w (create_schema_query t.spec.schema) [])

  -- `createTable`
  unfoldable pub create_table : PostgresTable → M Bool
  unfolding ensure_schema_exists build_create_table_query has_code
  create_table t = do
    wrap "failed to ensure schema exists" (ensure_schema_exists t)
    attempt (do_exec w (build_create_table_query t.spec) [])
        (λ e.
          if has_code e duplicate_table
          then return false
          else fail (wrapped "failed to execute query" e))
        (λ _. return true)

  -- The statement that adds one column
  unfoldable pub add_column_query : PostgresTableSpec → PostgresColumn → String
  unfolding join
  add_column_query t c = join " " (
      ("ALTER TABLE "
        <> w.sanitize (qualified t.identifier)
        <> " ADD COLUMN "
        <> w.sanitize (single c.name)
        <> " "
        <> w.sanitize (single c.data_type))
      ∷ (if c.nullable then [] else "NOT NULL" ∷ []))

  -- The loop over `columnsToAdd`, inside the transaction
  unfoldable pub add_columns : PostgresTableSpec → List PostgresColumn → M (Unit {0})
  unfolding add_column_query
  add_columns t [] = return tt
  add_columns t (c ∷ cs) = do
    wrap "failed to ALTER TABLE" (do_tx_exec w (add_column_query t c))
    add_columns t cs

  -- From `BeginTx` on. The deferred `Rollback` comes after `Commit` too, where it does nothing.
  unfoldable pub add_in_transaction : PostgresTableSpec → List PostgresColumn → M (Unit {0})
  unfolding add_columns
  add_in_transaction t cs = do
    wrap "failed to begin transaction" (perform begin_tx (λ h. w.tx_begun h))
    deferred rollback
        (do add_columns t cs; wrap "failed to commit" (perform commit (λ h. w.committed h)))

  -- `alterExistingTable`
  unfoldable pub alter_existing_table : PostgresTable → M (Unit {0})
  unfolding columns_to_add add_in_transaction
  alter_existing_table t = do
    let args = text t.spec.schema ∷ text t.spec.name ∷ []
    names ←
        wrap "failed to get existing column names"
          (perform (query column_names_query args) (λ h. w.names_found h column_names_query args))
    add_in_transaction t.spec (columns_to_add names t.spec.columns)

  -- `reconcile`
  unfoldable pub reconcile : PostgresTable → M ReconcileResult
  unfolding create_table alter_existing_table
  reconcile t =
      attempt (create_table t) (complain t.metadata "failed to create table: %v") (λ created.
        if created
        then return finished
        else attempt (alter_existing_table t)
            (complain t.metadata "failed to alter existing table: %v") (λ _. return finished))

  -- `Reconcile`, once connected. The last message speaks of a publication in the source too.
  unfoldable pub reconcile_connected : PostgresTable → M ReconcileResult
  unfolding reconcile
  reconcile_connected t =
      report t.metadata success_connect_postgres "successfully connected to PostgreSQL"
      >> (wrap "failed to reconcile" (reconcile t) >>= λ result.
          if result.requeue then return result else (do
            report t.metadata successful_reconcile "successfully reconcilled publication"
            return finished))

  -- `Reconcile`, with the reconciler's `Log`, on a context without a request logger
  unfoldable pub reconcile_request : Log → NamespacedName → M ReconcileResult
  unfolding reconcile_connected with_request_logger
  reconcile_request log key = do
    answer (with_request_logger w.with_values [] key "postgrestable" log)
    get_or_stop w "PostgresTable" w.table_at key
        (λ t. with_connection w t.spec.postgres_ref t.metadata (reconcile_connected t))
