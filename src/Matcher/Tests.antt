-- ===== src/Matcher/Tests.antt =====
-- Two rows for one column: it has two constraints, one of them the primary key.
use postgres_config_operator.Base.{String, Bool, true, false, List, [], ◌∷◌, ◌≡◌, refl, ◌↔◌, All}
use postgres_config_operator.Errors.{Err, error_text, ok}
use postgres_config_operator.Api.{PostgresColumn}
use postgres_config_operator.Effects.{done, query}
use postgres_config_operator.Effects.Hoare.{Post}
use postgres_config_operator.Effects.World.{ColumnRow, World}
use postgres_config_operator.Matcher.{column_data_query, connection, match, query_arguments}
use postgres_config_operator.Matcher.Matches.{IsMatch, match-connection, match-ok_iff}
use postgres_config_operator.Samples.{calm, column}

abbrev row : String → Bool → Bool → ColumnRow
row name nullable primary = record {
  column_name = name;
  is_nullable = nullable;
  is_primary_key = primary;
}

abbrev jobs_rows : List ColumnRow
jobs_rows = row "id" false true ∷ row "title" true false ∷ row "id" false false ∷ []

abbrev showing : World
showing = record calm { columns_found = λ h sql args. ok jobs_rows }

abbrev shown : Err → String
shown e = error_text e

abbrev jobs_columns : List PostgresColumn
jobs_columns = column "id" false true ∷ column "title" true false ∷ []

matched :
    match showing shown "public" "jobs" jobs_columns connection []
    ≡ done true (query column_data_query (query_arguments "public" "jobs" jobs_columns) ∷ [])
unfolding match
matched = refl

match-ok_iff_example :
    (match showing shown "public" "jobs" jobs_columns connection []
      ≡ done true (query column_data_query (query_arguments "public" "jobs" jobs_columns) ∷ []))
    ↔ All (IsMatch jobs_rows) jobs_columns
match-ok_iff_example = match-ok_iff showing shown "public" "jobs" jobs_columns [] jobs_rows refl

match-connection_example :
    Post
      (λ b h'.
        (b ≡ true)
        × (h' ≡ query column_data_query (query_arguments "public" "jobs" jobs_columns) ∷ []))
      (λ h'. h' ≡ query column_data_query (query_arguments "public" "jobs" jobs_columns) ∷ [])
      (match showing shown "public" "jobs" jobs_columns connection [])
match-connection_example = match-connection showing shown "public" "jobs" jobs_columns []
