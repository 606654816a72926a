-- ===== src/Api/TableTypes.antt =====
-- `api/v1alpha1/postgrestable_types.go`
use postgres_config_operator.Base.{List}
use postgres_config_operator.Api.Common.{
  PostgresRef, PostgresColumn, PostgresIdentifier, ObjectMeta,
}

-- The embedded `PostgresIdentifier` lends its fields: `spec.name` and `spec.schema`.
pub record PostgresTableSpec : Type 0 where
  pub postgres_ref : PostgresRef
  pub columns : List PostgresColumn
  pub identifier : PostgresIdentifier
  pub open identifier use *

-- No field yet
pub record PostgresTableStatus : Type 0 where

pub record PostgresTable : Type 0 where
  pub metadata : ObjectMeta
  pub spec : PostgresTableSpec
