-- ===== src/Api/GrantTypes.antt =====
-- `api/v1alpha1/postgresgrant_types.go`, with the object types of `postgresgrant_webhook.go`.
use postgres_config_operator.Base.{String, List, [], ◌∷◌, ◌==◌, if◌then◌else◌, map}
use postgres_config_operator.Api.Common.{PostgresRef, PostgresIdentifier, ObjectMeta}

pub record PostgresGrantSpec : Type 0 where
  pub postgres_ref : PostgresRef
  pub role : String
  pub tables : List PostgresIdentifier
  pub table_privileges : List String
  pub sequences : List PostgresIdentifier
  pub sequence_privileges : List String
  pub databases : List String
  pub database_privileges : List String
  pub schemas : List String
  pub schema_privileges : List String
  pub functions : List PostgresIdentifier
  pub function_privileges : List String

-- No field yet
pub record PostgresGrantStatus : Type 0 where

pub record PostgresGrant : Type 0 where
  pub metadata : ObjectMeta
  pub spec : PostgresGrantSpec

-- `type ObjectType string`: any text is a value, and five have names.
abbrev pub ObjectType : Type 0
ObjectType = String

abbrev pub object_type_table : ObjectType
object_type_table = "table"

abbrev pub object_type_sequence : ObjectType
object_type_sequence = "sequence"

abbrev pub object_type_database : ObjectType
object_type_database = "database"

abbrev pub object_type_schema : ObjectType
object_type_schema = "schema"

abbrev pub object_type_function : ObjectType
object_type_function = "function"

-- `PrivilegesForType`
unfoldable pub privileges_for_type : PostgresGrant → ObjectType → List String
privileges_for_type g o =
    if o == object_type_table
    then g.spec.table_privileges
    else if o == object_type_sequence
    then g.spec.sequence_privileges
    else if o == object_type_function
    then g.spec.function_privileges
    else if o == object_type_schema
    then g.spec.schema_privileges
    else if o == object_type_database
    then g.spec.database_privileges
    else []

-- A `pgx.Identifier` is the list of its parts.
abbrev pub Identifier : Type 0
Identifier = List String

abbrev pub qualified : PostgresIdentifier → Identifier
qualified t = t.schema ∷ t.name ∷ []

abbrev pub single : String → Identifier
single name = name ∷ []

-- `IdentifiersForType`
unfoldable pub identifiers_for_type : PostgresGrant → ObjectType → List Identifier
identifiers_for_type g o =
    if o == object_type_table
    then map qualified g.spec.tables
    else if o == object_type_sequence
    then map qualified g.spec.sequences
    else if o == object_type_function
    then map qualified g.spec.functions
    else if o == object_type_schema
    then map single g.spec.schemas
    else if o == object_type_database
    then map single g.spec.databases
    else []
