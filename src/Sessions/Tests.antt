-- ===== src/Sessions/Tests.antt =====
-- The connection of each controller, at inputs.
use postgres_config_operator.Base.{[], some, ◌==◌, if◌then◌else◌, refl}
use postgres_config_operator.Errors.{err, ok, pg_error}
use postgres_config_operator.Effects.{history}
use postgres_config_operator.Effects.World.{World}
use postgres_config_operator.Publication
use postgres_config_operator.Table
use postgres_config_operator.Grant
use postgres_config_operator.Sessions.{Ends, offline}
use postgres_config_operator.Sessions.Publications.{publication_request-Ends}
use postgres_config_operator.Sessions.Tables.{table_request-Ends}
use postgres_config_operator.Sessions.Grants.{grant_request-Ends}
use postgres_config_operator.Samples.{answering, at, calm}

-- A server that has the table, so that its missing column is added in a transaction.
abbrev having_table : World
having_table = answering (λ sql.
    if sql
      == "CREATE TABLE \"public\".\"jobs\" (\"id\" \"text\" NOT NULL,\n\"title\" \"text\",\nPRIMARY KEY (\"id\"))"
    then err (pg_error "42P07" "relation already exists")
    else ok tt)

publication_request-Ends_example :
    Ends calm offline (history (Publication.reconcile_request calm (at "some-jobs") []))
publication_request-Ends_example = publication_request-Ends calm (at "some-jobs") [] (refl, tt)

table_request-Ends_example :
    Ends having_table offline
      (history (Table.reconcile_request having_table (some []) (at "jobs") []))
table_request-Ends_example = table_request-Ends having_table (some []) (at "jobs") [] (refl, tt)

grant_request-Ends_example :
    Ends calm offline (history (Grant.reconcile_request calm (some []) (at "reader") []))
grant_request-Ends_example = grant_request-Ends calm (some []) (at "reader") [] (refl, tt)
