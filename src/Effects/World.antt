-- ===== src/Effects/World.antt =====
-- The code outside of this repository that the controllers call: the Kubernetes API, the PostgreSQL
-- server, and some functions of pgx, of the Kubernetes libraries and of logr. Each answer may
-- depend on every request made before, so a world stands for any server in any state, with whatever
-- else goes on in it.
use postgres_config_operator.Base.{String, List, Option, Bool}
use postgres_config_operator.Errors.{Err, Result}
use postgres_config_operator.Api.{
  NamespacedName, ObjectMeta, TypeMeta, OwnerReference, PostgresConfig, PostgresPublication,
  PostgresTable, PostgresGrant, Identifier,
}
use postgres_config_operator.Effects.{
  Startup, Url, Argument, History, M, perform, create_resource, update_resource, delete_resource,
  exec, tx_exec, boot,
}

-- A row of the query for the columns of a table: name, nullable, part of the primary key.
pub record ColumnRow : Type 0 where
  pub column_name : String
  pub is_nullable : Bool
  pub is_primary_key : Bool

-- A `logr.Logger` as a reconciler's `Log` has it: unset, or with the values that it takes along
abbrev pub Log : Type 0
Log = Option (List String)

pub record World : Type 0 where
  -- `pgx.Identifier.Sanitize`
  pub sanitize : Identifier → String
  -- `pgconn.PgConn.EscapeString`, which fails by the state of the connection
  pub escape_string : History → String → Result String
  -- `controllerutil.AddFinalizer` and `RemoveFinalizer`, on the list of finalizers
  pub add_finalizer : List String → String → List String
  pub remove_finalizer : List String → String → List String
  -- `metav1.NewControllerRef` and `metav1.GetControllerOf`
  pub new_controller_ref : ObjectMeta → TypeMeta → OwnerReference
  pub get_controller_of : List OwnerReference → Option OwnerReference
  -- `client.IgnoreNotFound`
  pub ignore_not_found : Err → Result (Unit {0})
  pub config_at : History → NamespacedName → Result PostgresConfig
  pub publication_at : History → NamespacedName → Result PostgresPublication
  pub table_at : History → NamespacedName → Result PostgresTable
  pub grant_at : History → NamespacedName → Result PostgresGrant
  -- the data of a Secret
  pub secret_at : History → NamespacedName → Result (List (String × String))
  pub publications_of : History → String → String → Result (List PostgresPublication)
  pub created : History → PostgresPublication → Result (Unit {0})
  -- the object that the API server returns, which the client stores over the one that was sent
  pub updated : History → PostgresPublication → Result PostgresPublication
  pub deleted : History → PostgresPublication → Result (Unit {0})
  pub connected : History → Url → Result (Unit {0})
  pub executed : History → String → List Argument → Result (Unit {0})
  pub names_found : History → String → List Argument → Result (List String)
  pub columns_found : History → String → List Argument → Result (List ColumnRow)
  pub tx_begun : History → Result (Unit {0})
  pub tx_executed : History → String → Result (Unit {0})
  pub committed : History → Result (Unit {0})
  -- `logr.Logger.WithValues`, which may panic on a logger that is unset
  pub with_values : Log → String → NamespacedName → Result Log
  -- the calls of controller-runtime while the process starts up
  pub booted : History → Startup → Result (Unit {0})

module _ (w : World) where
  abbrev pub do_exec : String → List Argument → M (Unit {0})
  do_exec sql args = perform (exec sql args) (λ h. w.executed h sql args)

  abbrev pub do_tx_exec : String → M (Unit {0})
  do_tx_exec sql = perform (tx_exec sql) (λ h. w.tx_executed h sql)

  abbrev pub do_update : PostgresPublication → M PostgresPublication
  do_update p = perform (update_resource p) (λ h. w.updated h p)

  abbrev pub do_create : PostgresPublication → M (Unit {0})
  do_create p = perform (create_resource p) (λ h. w.created h p)

  abbrev pub do_delete : PostgresPublication → M (Unit {0})
  do_delete p = perform (delete_resource p) (λ h. w.deleted h p)

  abbrev pub do_boot : Startup → M (Unit {0})
  do_boot s = perform (boot s) (λ h. w.booted h s)
