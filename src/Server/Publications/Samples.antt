-- ===== src/Server/Publications/Samples.antt =====
-- A server with a publication that publishes too little, and a config that lists it.
use mathlib.Core.Option
use postgres_config_operator.Base.{
  String, Option, none, some, [], ◌∷◌, ◌≡◌, refl, ap, ◌==◌, if◌then◌else◌, join,
}
use postgres_config_operator.Errors.{Result, ok, err, pg_error, has_code}
use postgres_config_operator.Api.{PostgresConfig, PostgresPublication, Publication}
use postgres_config_operator.Effects.{Request, History, exec}
use postgres_config_operator.Effects.World.{World}
use postgres_config_operator.Manager.Aiven.{create_query}
use postgres_config_operator.Server.{IsQuiet, Opens}
use postgres_config_operator.Server.Publications.{
  Creates, Published, ServesPublication, create_arguments, wanted,
}
use postgres_config_operator.Samples.{app_config, calm, some_jobs}

abbrev by_statement : String
by_statement =
    "CREATE PUBLICATION \"some_jobs\" FOR TABLE \"public\".\"jobs\" WITH (publish = 'insert, update')"

abbrev set_tables : String
set_tables = "ALTER PUBLICATION \"some_jobs\" SET TABLE \"public\".\"jobs\""

abbrev set_operations : String
set_operations = "ALTER PUBLICATION \"some_jobs\" SET (publish = 'insert, update')"

abbrev drop : String
drop = "DROP PUBLICATION \"some_jobs\""

abbrev pub poor : Published
poor = record { tables = []; operations = "delete" }

abbrev pub asked : Published
asked = wanted some_jobs.spec

abbrev after_creation : Option Published → Option Published
after_creation none = some asked
after_creation (some now) = some now

abbrev with_tables : Published → Published
with_tables s = record s { tables = asked.tables }

abbrev with_operations : Published → Published
with_operations s = record s { operations = asked.operations }

abbrev after : String → Option Published → Option Published
after sql now =
    if sql == by_statement
    then after_creation now
    else if sql == create_query
    then after_creation now
    else if sql == set_tables
    then Option.map with_tables now
    else if sql == set_operations
    then Option.map with_operations now
    else if sql == drop
    then none
    else now

abbrev pub published : History → Option Published
published [] = some poor
published (exec sql args ∷ h) = let before = published h in after sql before
published (q ∷ h) = published h

abbrev creation : Option Published → Result (Unit {0})
creation none = ok tt
creation (some now) = err (pg_error "42710" "publication already exists")

-- A config that lists the publication, and the resource that it makes of it
abbrev listed_jobs : Publication
listed_jobs = record {
  name = "some_jobs";
  tables = some_jobs.spec.tables;
  operations = some_jobs.spec.operations;
}

abbrev pub jobs_config : PostgresConfig
jobs_config = record app_config {
  spec = record (app_config.spec) { publications = listed_jobs ∷ [] };
}

abbrev pub stored_jobs : PostgresPublication
stored_jobs = record {
  metadata = record {
    name = "app-some-jobs";
    namespace = app_config.metadata.namespace;
    finalizers = [];
    deletion_timestamp = none;
    owner_references = calm.new_controller_ref app_config.metadata app_config.type_meta ∷ [];
  };
  spec = some_jobs.spec;
}

abbrev pub jobs_server : World
jobs_server = record calm {
  publication_at = λ h key. if key.name == "some-jobs" then ok some_jobs else ok stored_jobs;
  config_at = λ h key. ok jobs_config;
  publications_of = λ h owner namespace. ok [];
  executed = λ h sql args.
      if sql == by_statement
      then creation (published h)
      else if sql == create_query
      then creation (published h)
      else ok tt;
}

quiet_kept : (q : Request) (h : History) → IsQuiet q → published (q ∷ h) ≡ published h
quiet_kept (exec sql args) h quiet = absurd quiet
quiet_kept q h quiet = refl

statement_creates : Creates jobs_server (λ x. x) some_jobs.spec published by_statement []
unfolding has_code
statement_creates = record {
  accepts = λ h e. ap creation e;
  refuses = λ h now e. (pg_error "42710" "publication already exists", ap creation e, refl);
  after_new = λ h e. ap after_creation e;
  after_old = λ h now e. ap after_creation e;
}

function_creates :
    Creates jobs_server
      (λ x. x)
      some_jobs.spec
      published
      create_query
      (create_arguments jobs_server (λ x. x) some_jobs.spec)
unfolding has_code
function_creates = record {
  accepts = λ h e. ap creation e;
  refuses = λ h now e. (pg_error "42710" "publication already exists", ap creation e, refl);
  after_new = λ h e. ap after_creation e;
  after_old = λ h now e. ap after_creation e;
}

pub serves : ServesPublication jobs_server (λ x. x) some_jobs.spec published
unfolding join
serves = record {
  escapes = λ h x. refl;
  by_statement = λ _. statement_creates;
  by_function = λ _. function_creates;
  sets_tables = λ h now tables e. refl;
  sets_operations = λ h now e. refl;
  drops = λ h now e. refl;
  after_quiet = quiet_kept;
  after_tables = λ h now e. ap (Option.map with_tables) e;
  after_operations = λ h now e. ap (Option.map with_operations) e;
  after_drop = λ h. refl;
}

pub opens : Opens jobs_server some_jobs.spec.postgres_ref some_jobs.metadata
opens = record {
  secret = ("POSTGRES_USER", "ann") ∷ ("pass", "pw") ∷ [];
  reads = λ h. refl;
  connects = λ h. refl;
}
