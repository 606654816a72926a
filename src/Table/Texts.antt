-- ===== src/Table/Texts.antt =====
-- The statements that the table controller is to send for a table, written down apart from the code.
use mathlib.Core.List.{append-nil}
use postgres_config_operator.Base.{
  String, ◌<>◌, Bool, true, false, List, [], ◌∷◌, ◌++◌, ◌≡◌, refl, sym, ap, map, join,
  if◌then◌else◌,
}
use postgres_config_operator.Api.{PostgresColumn, PostgresTableSpec}
use postgres_config_operator.Effects.World.{World}
use postgres_config_operator.Table.{
  add_column_query, build_create_table_query, column_clauses, column_parts, create_schema_query,
  primary_keys, with_primary_key,
}

-- The query for the names of the columns
abbrev pub names_text : String
names_text =
    "\n\t\tSELECT column_name FROM information_schema.columns\n\t\tWHERE table_schema = $1 AND table_name = $2\n\t\t"

abbrev null_text : Bool → String → String
null_text true type_text = type_text
null_text false type_text = type_text <> " NOT NULL"

-- The clause for the primary key, if there is one
abbrev key_clause : List String → List String
key_clause [] = []
key_clause (k ∷ ks) = ("PRIMARY KEY (" <> join ", " (k ∷ ks) <> ")") ∷ []

module _ (w : World) where
  abbrev pub schema_text : String → String
  schema_text schema = "CREATE SCHEMA IF NOT EXISTS " <> w.sanitize (schema ∷ [])

  pub create_schema_query_lem :
      (schema : String) → create_schema_query w schema ≡ schema_text schema
  unfolding create_schema_query
  create_schema_query_lem schema = refl

  abbrev pub column_text : PostgresColumn → String
  column_text c =
      w.sanitize (c.name ∷ []) <> " " <> null_text c.nullable (w.sanitize (c.data_type ∷ []))

  -- The columns of the primary key
  abbrev key_names : List PostgresColumn → List String
  key_names [] = []
  key_names (c ∷ cs) =
      let rest = key_names cs in if c.primary_key then w.sanitize (c.name ∷ []) ∷ rest else rest

  abbrev pub create_text : PostgresTableSpec → String
  create_text t =
      "CREATE TABLE "
      <> w.sanitize (t.schema ∷ t.name ∷ [])
      <> " ("
      <> join ",\n" (map column_text t.columns ++ key_clause (key_names t.columns))
      <> ")"

  abbrev pub add_text : PostgresTableSpec → PostgresColumn → String
  add_text t c = null_text c.nullable (
      "ALTER TABLE "
      <> w.sanitize (t.schema ∷ t.name ∷ [])
      <> " ADD COLUMN "
      <> w.sanitize (c.name ∷ [])
      <> " "
      <> w.sanitize (c.data_type ∷ []))

  null_parts :
      (b : Bool) (x : String) → join " " (x ∷ (if b then [] else "NOT NULL" ∷ [])) ≡ null_text b x
  unfolding join
  null_parts true x = refl
  null_parts false x = refl

  pub add_column_query_lem :
      (t : PostgresTableSpec) (c : PostgresColumn) → add_column_query w t c ≡ add_text t c
  unfolding add_column_query
  add_column_query_lem t c = null_parts c.nullable _

  column_parts_lem : (c : PostgresColumn) → join " " (column_parts w c) ≡ column_text c
  unfolding column_parts join
  column_parts_lem c =
      ap (λ x. w.sanitize (c.name ∷ []) <> " " <> x)
        (null_parts c.nullable (w.sanitize (c.data_type ∷ [])))

  column_clauses_lem : (cs : List PostgresColumn) → column_clauses w cs ≡ map column_text cs
  unfolding column_clauses
  column_clauses_lem [] = refl
  column_clauses_lem (c ∷ cs) = rw (column_parts_lem c, column_clauses_lem cs) refl

  primary_keys_lem : (cs : List PostgresColumn) → primary_keys w cs ≡ key_names cs
  unfolding primary_keys
  primary_keys_lem [] = refl
  primary_keys_lem (c ∷ cs) = rw (primary_keys_lem cs) refl

  with_primary_key_lem :
      (keys clauses : List String) → with_primary_key w keys clauses ≡ clauses ++ key_clause keys
  unfolding with_primary_key
  with_primary_key_lem [] clauses = sym (append-nil clauses)
  with_primary_key_lem (k ∷ ks) clauses = refl

  pub build_create_table_query_lem :
      (t : PostgresTableSpec) → build_create_table_query w t ≡ create_text t
  unfolding build_create_table_query
  build_create_table_query_lem t =
      rw
        (
          with_primary_key_lem (primary_keys w t.columns) (column_clauses w t.columns),
          column_clauses_lem t.columns,
          primary_keys_lem t.columns,
        )
        refl
