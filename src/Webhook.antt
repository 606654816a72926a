-- ===== src/Webhook.antt =====
-- The admission webhook of PostgresGrant, `api/v1alpha1/postgresgrant_webhook.go`. A Go map used as
-- a set is the list of its keys. The order in which `range` visits a map is not specified by Go, so
-- it is an argument.
pub mod Verdict
pub mod Accepts
pub mod Bounds
pub mod Tests
use postgres_config_operator.Base.{
  String, ◌<>◌, Bool, true, false, List, [], ◌∷◌, ◌==◌, ◌&&◌, if◌then◌else◌, contains, length, ltb,
}
use postgres_config_operator.Errors.{Err, plain, Result, ok, err}
use postgres_config_operator.Api.{
  PostgresGrant, ObjectType, object_type_table, object_type_sequence, object_type_database,
  object_type_schema, object_type_function,
}

-- `ValidPrivileges`; a nil map has no key.
unfoldable pub valid_privileges : ObjectType → List String
valid_privileges o =
    if o == object_type_table
    then "SELECT" ∷ "INSERT" ∷ "UPDATE" ∷ "DELETE" ∷ "TRUNCATE" ∷ "REFERENCES" ∷ "TRIGGER" ∷ "ALL"
      ∷ []
    else if o == object_type_sequence
    then "USAGE" ∷ "SELECT" ∷ "UPDATE" ∷ "ALL" ∷ []
    else if o == object_type_database
    then "CREATE" ∷ "CONNECT" ∷ "TEMPORARY" ∷ "TEMP" ∷ "ALL" ∷ []
    else if o == object_type_schema
    then "CREATE" ∷ "USAGE" ∷ "ALL" ∷ []
    else if o == object_type_function
    then "EXECUTE" ∷ "ALL" ∷ []
    else []

abbrev pub invalid_privilege : ObjectType → String → Err
invalid_privilege o p = plain ("invalid " <> o <> " privilege \"" <> p <> "\"")

abbrev pub duplicate_privilege : ObjectType → String → Err
duplicate_privilege o p = plain ("duplicate " <> o <> " privilege \"" <> p <> "\"")

abbrev pub all_not_alone : Err
all_not_alone = plain "\"ALL\" cannot be specified alongside other privileges"

-- The loop of `validatePrivilegesForType`, with its variables `wantedPrivileges` and `hasAll`; the
-- result is the last value of `hasAll`.
unfoldable pub validate_loop : ObjectType → List String → List String → Bool → Result Bool
unfolding contains
validate_loop o [] wanted has_all = ok has_all
validate_loop o (p ∷ ps) wanted has_all =
    let rest = validate_loop o ps (p ∷ wanted) (if p == "ALL" then true else has_all) in
    if contains (valid_privileges o) p
    then if contains wanted p then err (duplicate_privilege o p) else rest
    else err (invalid_privilege o p)

-- The test after the loop.
unfoldable pub check_all_alone : List String → Result Bool → Result (Unit {0})
check_all_alone ps (err e) = err e
check_all_alone ps (ok has_all) = if has_all && ltb 1 (length ps) then err all_not_alone else ok tt

-- `validatePrivilegesForType`
unfoldable pub validate_privileges_for_type : List String → ObjectType → Result (Unit {0})
unfolding validate_loop check_all_alone valid_privileges
validate_privileges_for_type ps o = check_all_alone ps (validate_loop o ps [] false)

-- The map `validationInputs`, read at a key.
unfoldable pub validation_input : PostgresGrant → ObjectType → List String
validation_input g o =
    if o == object_type_table
    then g.spec.table_privileges
    else if o == object_type_sequence
    then g.spec.sequence_privileges
    else if o == object_type_database
    then g.spec.database_privileges
    else if o == object_type_schema
    then g.spec.schema_privileges
    else if o == object_type_function
    then g.spec.function_privileges
    else []

-- The keys of `validationInputs`, as they are written.
abbrev pub validated_types : List ObjectType
validated_types =
    object_type_table ∷ object_type_sequence ∷ object_type_database ∷ object_type_schema
    ∷ object_type_function ∷ []

-- `validatePrivileges`, where `range` visits the keys in the given order.
unfoldable pub validate_privileges : List ObjectType → PostgresGrant → Result (Unit {0})
unfolding validate_privileges_for_type validation_input
validate_privileges [] g = ok tt
validate_privileges (o ∷ order) g = elim (validate_privileges_for_type (validation_input g o) o) [
  | err e ↦ err e
  | ok _ ↦ validate_privileges order g
]

-- `ValidateCreate`
unfoldable pub validate_create : List ObjectType → PostgresGrant → Result (Unit {0})
unfolding validate_privileges
validate_create order g = validate_privileges order g

-- `ValidateUpdate`, which does not look at the old object
unfoldable pub validate_update : List ObjectType → PostgresGrant → PostgresGrant → Result (Unit {0})
unfolding validate_privileges
validate_update order g old = validate_privileges order g

-- `ValidateDelete`
unfoldable pub validate_delete : PostgresGrant → Result (Unit {0})
validate_delete g = ok tt
