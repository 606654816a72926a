-- ===== src/Server/Tables/Tests.antt =====
-- A server with a table of one column, where the spec has two.
use mathlib.Core.Option
use postgres_config_operator.Base.{
  join, Bool, true, false, String, Option, none, some, List, [], ◌∷◌, ◌++◌, ◌≡◌, inl, inr, refl, ap,
  Listed, Distinct, ◌==◌, if◌then◌else◌,
}
use postgres_config_operator.Errors.{Result, ok, err, pg_error, has_code}
use postgres_config_operator.Api.{PostgresColumn}
use postgres_config_operator.Effects.{Request, History, begin_tx, commit, done, exec, tx_exec}
use postgres_config_operator.Effects.World.{World}
use postgres_config_operator.Events.{finished}
use postgres_config_operator.Table.{reconcile_request}
use postgres_config_operator.Table.Texts.{add_text}
use postgres_config_operator.Server.{IsQuiet, Opens}
use postgres_config_operator.Server.Tables.{ServesTable, column_names, synced}
use postgres_config_operator.Server.Tables.Requests.{table_request-Synced}
use postgres_config_operator.Server.Tables.Again.{reconcile_times, reconcile_times-Synced}
use postgres_config_operator.Samples.{at, calm, jobs_table}

abbrev create_text : String
create_text =
    "CREATE TABLE \"public\".\"jobs\" (\"id\" \"text\" NOT NULL,\n\"title\" \"text\",\nPRIMARY KEY (\"id\"))"

abbrev id_text : String
id_text = "ALTER TABLE \"public\".\"jobs\" ADD COLUMN \"id\" \"text\" NOT NULL"

abbrev title_text : String
title_text = "ALTER TABLE \"public\".\"jobs\" ADD COLUMN \"title\" \"text\""

abbrev added_by : String → List String
added_by sql = if sql == id_text then "id" ∷ [] else if sql == title_text then "title" ∷ [] else []

abbrev new_columns : History → List String
new_columns [] = []
new_columns (begin_tx ∷ h) = []
new_columns (tx_exec sql ∷ h) = new_columns h ++ added_by sql
new_columns (q ∷ h) = new_columns h

abbrev after_creation : Option (List String) → Option (List String)
after_creation none = some ("id" ∷ "title" ∷ [])
after_creation (some names) = some names

abbrev columns_now : History → Option (List String)
columns_now [] = some ("id" ∷ [])
columns_now (exec sql args ∷ h) =
    let before = columns_now h in if sql == create_text then after_creation before else before
columns_now (commit ∷ h) = Option.map (λ names. names ++ new_columns h) (columns_now h)
columns_now (q ∷ h) = columns_now h

abbrev schema_now : History → Bool
schema_now [] = false
schema_now (exec sql args ∷ h) =
    let before = schema_now h in
    if sql == "CREATE SCHEMA IF NOT EXISTS \"public\"" then true else before
schema_now (q ∷ h) = schema_now h

abbrev creation : Bool → Option (List String) → Result (Unit {0})
creation false none = err (pg_error "3F000" "schema does not exist")
creation true none = ok tt
creation there (some names) = err (pg_error "42P07" "relation already exists")

refused_there :
    (there : Bool) (now : Option (List String)) (names : List String)
    → now ≡ some names
    → creation there now ≡ err (pg_error "42P07" "relation already exists")
refused_there true now names e = ap (creation true) e
refused_there false now names e = ap (creation false) e

abbrev names_of : Option (List String) → Result (List String)
names_of none = ok []
names_of (some names) = ok names

abbrev jobs_server : World
jobs_server = record calm {
  executed =
      λ h sql args. if sql == create_text then creation (schema_now h) (columns_now h) else ok tt;
  names_found = λ h sql args. names_of (columns_now h);
}

quiet_kept : (q : Request) (h : History) → IsQuiet q → columns_now (q ∷ h) ≡ columns_now h
quiet_kept (exec sql args) h quiet = absurd quiet
quiet_kept commit h quiet = absurd quiet
quiet_kept q h quiet = refl

jobs_added :
    (h : History) (c : PostgresColumn)
    → Listed c jobs_table.spec.columns
    → new_columns (tx_exec (add_text jobs_server jobs_table.spec c) ∷ h)
      ≡ new_columns h ++ (c.name ∷ [])
unfolding join
jobs_added h c (inl e) = rw e refl
jobs_added h c (inr (inl e)) = rw e refl
jobs_added h c (inr (inr nowhere)) = absurd nowhere

serves : ServesTable jobs_server jobs_table columns_now new_columns
unfolding join has_code
serves = record {
  makes_schema = λ h. refl;
  schema_there = schema_now;
  creates = λ h e there. rw (e, there) refl;
  refuses = λ h names e.
      (pg_error "42P07" "relation already exists", refused_there (schema_now h) _ names e, refl);
  lists = λ h names e. ap names_of e;
  begins = λ h. refl;
  adds = λ h names c e l new. refl;
  commits = λ h. refl;
  after_quiet = quiet_kept;
  after_schema = λ h. refl;
  after_schema_there = λ h. refl;
  after_create = λ h e there. ap after_creation e;
  after_refusal = λ h names e. ap after_creation e;
  after_begin = λ h. refl;
  after_add = jobs_added;
  after_commit = λ h names e. ap (Option.map (λ l. l ++ new_columns h)) e;
}

opens : Opens jobs_server jobs_table.spec.postgres_ref jobs_table.metadata
opens = record {
  secret = ("POSTGRES_USER", "ann") ∷ ("pass", "pw") ∷ [];
  reads = λ h. refl;
  connects = λ h. refl;
}

distinct : Distinct (column_names jobs_table.spec.columns)
distinct = (((λ e. cc), tt), (tt, tt))

table_request-Synced_example :
    (h' : History) × (reconcile_request jobs_server (some []) (at "jobs") [] ≡ done finished h')
    × (columns_now h' ≡ some (synced (columns_now []) jobs_table.spec.columns))
table_request-Synced_example =
    table_request-Synced jobs_server jobs_table columns_now new_columns serves (some [])
      (some ("postgrestable" ∷ [])) (at "jobs") [] refl distinct opens refl

reconcile_times-Synced_example :
    (h' : History) × (reconcile_times jobs_server (some []) (at "jobs") 3 [] ≡ done tt h')
    × (columns_now h' ≡ some (synced (columns_now []) jobs_table.spec.columns))
reconcile_times-Synced_example =
    reconcile_times-Synced jobs_server jobs_table columns_now new_columns serves 2 (some [])
      (some ("postgrestable" ∷ [])) (at "jobs") [] (refl) distinct opens (λ h. refl)

in_sync : synced (columns_now []) jobs_table.spec.columns ≡ "id" ∷ "title" ∷ []
unfolding synced
in_sync = refl
