-- ===== src/Api/ConfigTypes.antt =====
-- `api/v1alpha1/postgresconfig_types.go`
use postgres_config_operator.Base.{String, List, Bool}
use postgres_config_operator.Api.Common.{
  PostgresRef, PostgresColumn, PostgresIdentifier, ObjectMeta, TypeMeta,
}

pub record Publication : Type 0 where
  pub name : String
  pub tables : List PostgresIdentifier
  pub operations : List String

pub record Table : Type 0 where
  pub columns : List PostgresColumn
  pub identifier : PostgresIdentifier

pub record PostgresConfigSpec : Type 0 where
  pub postgres_ref : PostgresRef
  pub publications : List Publication
  pub tables : List Table

pub record PostgresConfigStatus : Type 0 where
  pub configured : Bool

pub record PostgresConfig : Type 0 where
  pub type_meta : TypeMeta
  pub metadata : ObjectMeta
  pub spec : PostgresConfigSpec
  pub status : PostgresConfigStatus
