-- ===== src/Samples.antt =====
-- Concrete worlds and objects, at which the theorems are tried out.
use postgres_config_operator.Base.{
  String, ◌<>◌, Bool, true, false, Option, none, some, List, [], ◌∷◌, ◌==◌, if◌then◌else◌,
}
use postgres_config_operator.Errors.{Err, Result, ok, err, not_found, panic, pg_error}
use postgres_config_operator.Api.{
  NamespacedName, ObjectMeta, OwnerReference, PostgresConfig, PostgresGrant, PostgresIdentifier,
  PostgresPublication, PostgresRef, PostgresTable, PostgresColumn, Publication,
}
use postgres_config_operator.Effects.World.{Log, World}

abbrev pub app_ref : PostgresRef
app_ref = record {
  host = "db";
  port = 5432;
  database = "app";
  secret_ref = record { secret_name = "creds"; username_key = ""; password_key = "pass" };
  variant = "";
}

abbrev pub named : String → ObjectMeta
named name = record {
  name = name;
  namespace = "default";
  finalizers = [];
  deletion_timestamp = none;
  owner_references = [];
}

abbrev pub at : String → NamespacedName
at name = record { name = name; namespace = "default" }

abbrev pub jobs : PostgresIdentifier
jobs = record { name = "jobs"; schema = "public" }

abbrev pub all_jobs : PostgresPublication
all_jobs = record {
  metadata = named "all-jobs";
  spec = record { postgres_ref = app_ref; name = "all_jobs"; tables = []; operations = [] };
}

abbrev pub some_jobs : PostgresPublication
some_jobs = record {
  metadata = named "some-jobs";
  spec = record {
    postgres_ref = app_ref;
    name = "some_jobs";
    tables = jobs ∷ [];
    operations = "insert" ∷ "update" ∷ [];
  };
}

-- The same, while it is being deleted.
abbrev pub leaving_jobs : PostgresPublication
leaving_jobs = record some_jobs {
  metadata = record (named "some-jobs") {
    finalizers = "postgres.glints.com/finalizer" ∷ [];
    deletion_timestamp = some 7;
  };
}

abbrev pub column : String → Bool → Bool → PostgresColumn
column name nullable primary_key = record {
  name = name;
  data_type = "text";
  nullable = nullable;
  primary_key = primary_key;
}

abbrev pub jobs_table : PostgresTable
jobs_table = record {
  metadata = named "jobs";
  spec = record {
    postgres_ref = app_ref;
    columns = column "id" false true ∷ column "title" true false ∷ [];
    identifier = jobs;
  };
}

abbrev pub reader_grant : PostgresGrant
reader_grant = record {
  metadata = named "reader";
  spec = record {
    postgres_ref = app_ref;
    role = "reader";
    tables = jobs ∷ [];
    table_privileges = "SELECT" ∷ "UPDATE" ∷ [];
    sequences = [];
    sequence_privileges = [];
    databases = "app" ∷ [];
    database_privileges = [];
    schemas = [];
    schema_privileges = [];
    functions = [];
    function_privileges = [];
  };
}

abbrev pub wanted : String → Publication
wanted name = record { name = name; tables = []; operations = [] }

abbrev pub app_config : PostgresConfig
app_config = record {
  type_meta = record { api_version = "postgres.glints.com/v1alpha1"; kind = "PostgresConfig" };
  metadata = named "app";
  spec = record {
    postgres_ref = app_ref;
    publications = wanted "some_jobs" ∷ wanted "new_jobs" ∷ wanted "new_jobs" ∷ [];
    tables = [];
  };
  status = record { configured = false };
}

abbrev pub new_jobs : PostgresPublication
new_jobs = record some_jobs { spec = record (some_jobs.spec) { name = "new_jobs" } }

abbrev quote : String → String
quote s = "\"" <> s <> "\""

-- Quoted parts with dots between them
abbrev pub sanitized : List String → String
sanitized [] = ""
sanitized (p ∷ []) = quote p
sanitized (p ∷ q ∷ ps) = quote p <> "." <> sanitized (q ∷ ps)

abbrev without : List String → String → List String
without [] f = []
without (x ∷ xs) f = if x == f then without xs f else x ∷ without xs f

abbrev first_owner : List OwnerReference → Option OwnerReference
first_owner [] = none
first_owner (o ∷ os) = some o

abbrev unless_missing : Err → Result (Unit {0})
unless_missing (not_found _) = ok tt
unless_missing e = err e

abbrev with_value : Log → String → Result Log
with_value none kind = err (panic "invalid memory address or nil pointer dereference")
with_value (some values) kind = ok (some (kind ∷ values))

-- A world in which the Kubernetes API accepts everything and the server answers statements by a
-- function of their text.
abbrev pub answering : (String → Result (Unit {0})) → World
answering reply = record {
  sanitize = sanitized;
  escape_string = λ h s. ok s;
  add_finalizer = λ fs f. f ∷ fs;
  remove_finalizer = without;
  new_controller_ref = λ m t. record {
    api_version = t.api_version;
    kind = t.kind;
    name = m.name;
    controller = true;
  };
  get_controller_of = first_owner;
  ignore_not_found = unless_missing;
  config_at = λ h key. ok app_config;
  publication_at = λ h key. ok leaving_jobs;
  table_at = λ h key. ok jobs_table;
  grant_at = λ h key. ok reader_grant;
  secret_at = λ h key. ok (("POSTGRES_USER", "ann") ∷ ("pass", "pw") ∷ []);
  publications_of = λ h owner namespace. ok (some_jobs ∷ all_jobs ∷ []);
  created = λ h p. ok tt;
  updated = λ h p. ok p;
  deleted = λ h p. ok tt;
  connected = λ h url. ok tt;
  executed = λ h sql args. reply sql;
  names_found = λ h sql args. ok ("id" ∷ []);
  columns_found = λ h sql args. ok [];
  tx_begun = λ h. ok tt;
  tx_executed = λ h sql. reply sql;
  committed = λ h. ok tt;
  with_values = λ log kind key. with_value log kind;
  booted = λ h s. ok tt;
}

abbrev pub calm : World
calm = answering (λ sql. ok tt)

-- A server that has the publication for all tables, and refuses to set no tables.
abbrev pub knowing : World
knowing = answering (λ sql.
    if sql == "CREATE PUBLICATION \"all_jobs\" FOR ALL TABLES "
    then err (pg_error "42710" "publication already exists")
    else if sql == "ALTER PUBLICATION \"all_jobs\" SET TABLE "
    then err (pg_error "42601" "syntax error at end of input")
    else ok tt)
