-- ===== src/Matcher.antt =====
-- `HaveColumns`, `controllers/utils/have_columns_matcher.go`: does a table have columns that match a
-- specification? `format.Object` of Gomega is a parameter.
pub mod Scan
pub mod Matches
pub mod Tests
use postgres_config_operator.Base.{
  String, ◌<>◌, Bool, true, false, Option, none, some, List, [], ◌∷◌, if◌then◌else◌, contains,
}
use postgres_config_operator.Base.GoMap.{GoMap, insert, lookup}
use postgres_config_operator.Errors.{Err, plain, prefixed, Result, ok, err}
use postgres_config_operator.Api.{PostgresColumn}
use postgres_config_operator.Effects.{
  Argument, M, answer, attempt, fail, perform, query, return, text, texts,
}
use postgres_config_operator.Effects.World.{ColumnRow, World}

-- The argument of `Match`: nil, a connection, or a value of another type, with its formatted text.
pub data Actual : Type 0 where
  nothing connection : Actual
  another : String → Actual

-- `columnsFromPg` and the keys of `primaryKeysFromPg`
pub record Found : Type 0 where
  pub nullable : GoMap Bool
  pub primary_keys : List String

abbrev pub none_found : Found
none_found = record { nullable = []; primary_keys = [] }

-- The function that `QueryFunc` calls for each row
unfoldable pub scan_row : ColumnRow → Found → Found
unfolding insert
scan_row row found = record {
  nullable = insert row.column_name row.is_nullable found.nullable;
  primary_keys =
      if row.is_primary_key then row.column_name ∷ found.primary_keys else found.primary_keys;
}

unfoldable pub scan_rows : List ColumnRow → Found → Found
unfolding scan_row
scan_rows [] found = found
scan_rows (row ∷ rows) found = scan_rows rows (scan_row row found)

abbrev pub same : Bool → Bool → Bool
same a b = if a then b else (if b then false else true)

-- One round of the loop of `Match`, by what the two maps hold for the column
unfoldable pub match_column : Option Bool → Bool → PostgresColumn → Result (Unit {0})
match_column none primary c = err (plain ("Expected column " <> c.name <> " to be found"))
match_column (some nullable) primary c =
    if same nullable c.nullable
    then if same c.primary_key primary
      then ok tt
      else if c.primary_key
      then err (plain ("Expected column " <> c.name <> " to be part of primary key, but it is not"))
      else err (plain ("Expected column " <> c.name <> " to not be part of primary key, but it is"))
    else if c.nullable
    then err (plain ("Expected column " <> c.name <> " to be nullable, but it is not"))
    else err (plain ("Expected column " <> c.name <> " to be non-nullable, but it is"))

-- The loop of `Match`, and what it returns behind it
unfoldable pub match_columns : Found → List PostgresColumn → Result Bool
unfolding match_column lookup contains
match_columns found [] = ok true
match_columns found (c ∷ cs) =
    elim (match_column (lookup c.name found.nullable) (contains found.primary_keys c.name) c) [
      | err e ↦ err e
      | ok _ ↦ match_columns found cs
    ]

-- `columnNames`
unfoldable pub wanted_names : List PostgresColumn → List String
wanted_names [] = []
wanted_names (c ∷ cs) = c.name ∷ wanted_names cs

abbrev pub column_data_query : String
column_data_query =
    "\n\t\tSELECT\n\t\t\tinformation_schema.columns.column_name,\n\t\t\tis_nullable = 'YES',\n\t\t\tinformation_schema.table_constraints.constraint_type IS NOT NULL AS is_primary_key\n\t\tFROM information_schema.columns\n\t\tLEFT OUTER JOIN information_schema.constraint_column_usage ON\n\t\t\tinformation_schema.constraint_column_usage.table_schema = information_schema.columns.table_schema AND\n\t\t\tinformation_schema.constraint_column_usage.table_name = information_schema.columns.table_name AND\n\t\t\tinformation_schema.constraint_column_usage.column_name = information_schema.columns.column_name\n\t\tLEFT OUTER JOIN information_schema.table_constraints ON\n\t\t\tinformation_schema.table_constraints.constraint_schema = information_schema.constraint_column_usage.constraint_schema AND\n\t\t\tinformation_schema.table_constraints.constraint_name = information_schema.constraint_column_usage.constraint_name AND\n\t\t\tinformation_schema.table_constraints.constraint_type = 'PRIMARY KEY'\n\t\tWHERE\n\t\t\tinformation_schema.columns.table_schema = $1 AND\n\t\t\tinformation_schema.columns.table_name = $2 AND\n\t\t\tinformation_schema.columns.column_name = ANY($3)\n\t\t"

abbrev pub query_arguments : String → String → List PostgresColumn → List Argument
query_arguments schema table cs = text schema ∷ text table ∷ texts (wanted_names cs) ∷ []

module _ (w : World) (format_object : Err → String) where
  -- `fetchColumnDataFromPg`
  unfoldable pub fetch_column_data_from_pg : String → String → List PostgresColumn → M Found
  unfolding scan_rows
  fetch_column_data_from_pg schema table cs =
      let args = query_arguments schema table cs in
      attempt
        (perform (query column_data_query args) (λ h. w.columns_found h column_data_query args))
        (λ e. fail (prefixed "Expected query to succeed. Got: \n" e))
        (λ rows. return (scan_rows rows none_found))

  -- `Match`
  unfoldable pub match : String → String → List PostgresColumn → Actual → M Bool
  unfolding fetch_column_data_from_pg match_columns
  match schema table cs nothing = return false
  match schema table cs (another shown) = fail (plain ("Expected *pgx.Conn. Got: \n" <> shown))
  match schema table cs connection =
      attempt (fetch_column_data_from_pg schema table cs)
        (λ e. fail (
          plain (
            "Expected to be able to fetch column data from PostgreSQL. Got: \n"
            <> format_object e)))
        (λ found. answer (match_columns found cs))

-- `FailureMessage` and `NegatedFailureMessage`, with `format.Object` of the map of columns
module _ (format_columns : GoMap Bool → String) where
  unfoldable pub failure_message : Found → String
  failure_message found =
      "Expected columns to match specification. Got:\n" <> format_columns found.nullable

  unfoldable pub negated_failure_message : Found → String
  negated_failure_message found =
      "Unexpected match of column specification. Got:\n" <> format_columns found.nullable
