-- ===== src/Api/PublicationTypes.antt =====
-- `api/v1alpha1/postgrespublication_types.go`. The status of a publication,
-- a table or a grant has no field, and is left out of the objects that have one.
use postgres_config_operator.Base.{String, List}
use postgres_config_operator.Api.Common.{PostgresRef, PostgresIdentifier, ObjectMeta}

pub record PostgresPublicationSpec : Type 0 where
  pub postgres_ref : PostgresRef
  pub name : String
  pub tables : List PostgresIdentifier
  pub operations : List String

-- No field yet
pub record PostgresPublicationStatus : Type 0 where

pub record PostgresPublication : Type 0 where
  pub metadata : ObjectMeta
  pub spec : PostgresPublicationSpec
