-- ===== src/Publication.antt =====
-- `controllers/postgrespublication_controller.go`
pub mod Finalizers
pub mod Reports
pub mod AllTables
pub mod Holding
pub mod Tests
use postgres_config_operator.Base.{
  ℕ, String, ◌<>◌, Bool, true, false, Option, none, some, List, [], ◌∷◌, ◌==◌, if◌then◌else◌,
  contains,
}
use postgres_config_operator.Errors.{Err, plain, Result, ok, err, error_text}
use postgres_config_operator.Api.{NamespacedName, ObjectMeta, PostgresPublication, object_key}
use postgres_config_operator.Effects.{
  M, ReconcileResult, return, attempt, emit, eventf, warning, wrap, ◌>>=◌, ◌>>◌,
}
use postgres_config_operator.Effects.World.{World, do_update}
use postgres_config_operator.Events.{
  complain, successful_reconcile, success_connect_postgres, finished, again, get_or_stop,
  with_connection, report,
}
use postgres_config_operator.Manager.{Manager}
use postgres_config_operator.Manager.Std.{std_manager}
use postgres_config_operator.Manager.Aiven.{aiven_manager}

abbrev pub invalid_variant : String
invalid_variant = "InvalidVariant"

abbrev pub variant_standard : String
variant_standard = "standard"

abbrev pub variant_aiven : String
variant_aiven = "aiven"

abbrev pub finalizer_name : String
finalizer_name = "postgres.glints.com/finalizer"

abbrev pub with_finalizers : PostgresPublication → List String → PostgresPublication
with_finalizers p fs = record p { metadata = record (p.metadata) { finalizers = fs } }

-- `reconcile`, with any manager
unfoldable pub reconcile : Manager → PostgresPublication → M ReconcileResult
reconcile m p =
    attempt (m.create_publication p) (complain p.metadata "failed to create publication: %v")
      (λ created.
        if created
        then return finished
        else attempt (m.alter_existing_publication p)
            (complain p.metadata "failed to alter existing publication: %v") (λ _. return finished))

-- `deleteExternalResources`
unfoldable pub delete_external_resources : Manager → PostgresPublication → M (Unit {0})
delete_external_resources m p = wrap "failed to drop publication" (m.drop_publication p.spec.name)

module _ (w : World) where
  -- `publicationManager`
  unfoldable pub publication_manager : PostgresPublication → Result Manager
  unfolding std_manager aiven_manager
  publication_manager p =
      let variant = p.spec.postgres_ref.variant in
      if variant == variant_standard
      then ok (std_manager w)
      else if variant == ""
      then ok (std_manager w)
      else if variant == variant_aiven
      then ok (aiven_manager w)
      else err (plain ("unrecognized publication manager \"" <> variant <> "\""))

  unfoldable pub ensure_finalizer : PostgresPublication → M (Bool × PostgresPublication)
  unfolding contains
  ensure_finalizer p =
      if contains p.metadata.finalizers finalizer_name then return (false, p) else do
        p' ← do_update w (with_finalizers p (w.add_finalizer p.metadata.finalizers finalizer_name))
        return (false, p')

  unfoldable pub release_finalizer : Manager → PostgresPublication → M (Bool × PostgresPublication)
  unfolding contains delete_external_resources
  release_finalizer m p =
      if contains p.metadata.finalizers finalizer_name
      then (do
        delete_external_resources m p
        p' ←
            do_update w
              (with_finalizers p (w.remove_finalizer p.metadata.finalizers finalizer_name))
        return (true, p'))
      else return (true, p)

  -- The branches of `handleFinalizers`, on the deletion timestamp.
  unfoldable pub finalizers_at :
      Option ℕ → Manager → PostgresPublication → M (Bool × PostgresPublication)
  unfolding ensure_finalizer release_finalizer
  finalizers_at none m p = ensure_finalizer p
  finalizers_at (some _) m p = release_finalizer m p

  -- `handleFinalizers`. The result is `stopReconcilation`, with the object as the API server
  -- returned it.
  unfoldable pub handle_finalizers : Manager → PostgresPublication → M (Bool × PostgresPublication)
  unfolding finalizers_at
  handle_finalizers m p = finalizers_at p.metadata.deletion_timestamp m p

  -- `Reconcile`, from the finalizers on
  unfoldable pub reconcile_managed : Manager → PostgresPublication → M ReconcileResult
  unfolding handle_finalizers reconcile
  reconcile_managed m p = handle_finalizers m p >>= λ handled.
      if handled.0
      then return finished
      else wrap "failed to reconcile" (reconcile m handled.1) >>= λ result.
          if result.requeue then return result else (do
            report handled.1.metadata successful_reconcile "successfully reconcilled publication"
            return finished)

  -- `Reconcile`, from the result of `publicationManager` on
  unfoldable pub reconcile_with : Result Manager → PostgresPublication → M ReconcileResult
  unfolding reconcile_managed error_text
  reconcile_with (err e) p = do
    emit (
        eventf (object_key p.metadata) warning invalid_variant "invalid variant configured: %v"
          (error_text e ∷ []))
    return again
  reconcile_with (ok m) p = do
    report p.metadata success_connect_postgres "successfully connected to PostgreSQL"
    reconcile_managed m p

  -- `Reconcile`, once connected
  unfoldable pub reconcile_connected : PostgresPublication → M ReconcileResult
  unfolding publication_manager reconcile_with
  reconcile_connected p = reconcile_with (publication_manager p) p

  -- `Reconcile`
  unfoldable pub reconcile_request : NamespacedName → M ReconcileResult
  unfolding reconcile_connected
  reconcile_request key =
      get_or_stop w "PostgresPublication" w.publication_at key
        (λ p. with_connection w p.spec.postgres_ref p.metadata (reconcile_connected p))
