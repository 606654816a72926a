-- ===== src/Grant.antt =====
-- `controllers/postgresgrant_controller.go`
pub mod Requests
pub mod Privileges
pub mod Tests
use postgres_config_operator.Base.{String, ◌<>◌, true, false, List, [], ◌∷◌, if◌then◌else◌, join}
use postgres_config_operator.Errors.{error_text}
use postgres_config_operator.Api.{
  Identifier, NamespacedName, ObjectType, PostgresGrant, object_key, identifiers_for_type,
  object_type_database, object_type_function, object_type_schema, object_type_sequence,
  object_type_table, privileges_for_type, single,
}
use postgres_config_operator.Effects.{
  M, ReconcileResult, answer, return, attempt, emit, eventf, warning, ◌>>=◌, ◌>>◌,
}
use postgres_config_operator.Effects.World.{Log, World, do_exec}
use postgres_config_operator.Logging.{with_request_logger}
use postgres_config_operator.Events.{
  failed_reconcile, successful_reconcile, finished, again, get_or_stop, with_connection, report,
}

-- `objectTypesToReconcile`
abbrev pub object_types_to_reconcile : List ObjectType
object_types_to_reconcile =
    object_type_database ∷ object_type_function ∷ object_type_schema ∷ object_type_sequence
    ∷ object_type_table ∷ []

-- `if len(privileges) == 0 { privileges = []string{"ALL"} }`
unfoldable pub wanted_privileges : List String → List String
wanted_privileges [] = "ALL" ∷ []
wanted_privileges (p ∷ ps) = p ∷ ps

module _ (w : World) where
  unfoldable pub grant_query : List String → Identifier → String → String
  unfolding join
  grant_query privileges object role =
      "GRANT "
      <> join ", " privileges
      <> " ON "
      <> w.sanitize object
      <> " TO "
      <> w.sanitize (single role)

  -- The loop of `reconcileObjectGrants`
  unfoldable pub grant_objects :
      PostgresGrant → ObjectType → List String → List Identifier → M ReconcileResult
  unfolding grant_query error_text
  grant_objects g o privileges [] = return finished
  grant_objects g o privileges (i ∷ is) =
      attempt (do_exec w (grant_query privileges i g.spec.role) [])
        (λ e. do
          emit (
              eventf (object_key g.metadata) warning failed_reconcile
                "failed to reconcile %s grant: %v" (o ∷ error_text e ∷ []))
          return again)
        (λ _. grant_objects g o privileges is)

  -- `reconcileObjectGrants`
  unfoldable pub reconcile_object_grants : PostgresGrant → ObjectType → M ReconcileResult
  unfolding grant_objects wanted_privileges privileges_for_type identifiers_for_type
  reconcile_object_grants g o =
      grant_objects g o (wanted_privileges (privileges_for_type g o)) (identifiers_for_type g o)

  -- The loop of `Reconcile`, and what follows it
  unfoldable pub reconcile_types : PostgresGrant → List ObjectType → M ReconcileResult
  unfolding reconcile_object_grants
  reconcile_types g [] = do
    report g.metadata successful_reconcile "successfully reconcilled grant"
    return finished
  reconcile_types g (o ∷ os) = reconcile_object_grants g o >>= λ result.
      if result.requeue then return result else reconcile_types g os

  -- `Reconcile`, with the reconciler's `Log`, on a context without a request logger
  unfoldable pub reconcile_request : Log → NamespacedName → M ReconcileResult
  unfolding reconcile_types with_request_logger
  reconcile_request log key = do
    answer (with_request_logger w.with_values [] key "postgresgrant" log)
    get_or_stop w "PostgresGrant" w.grant_at key (λ g.
        with_connection w g.spec.postgres_ref g.metadata
          (reconcile_types g object_types_to_reconcile))
