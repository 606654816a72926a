-- ===== src/Events.antt =====
-- The reasons of the events that the controllers record, and what a reconciliation starts with.
pub mod Laws
pub mod Reports
use postgres_config_operator.Base.{String, true, false, [], ◌∷◌}
use postgres_config_operator.Errors.{Err, Result, error_text}
use postgres_config_operator.Api.{NamespacedName, PostgresRef, ObjectMeta, object_key}
use postgres_config_operator.Effects.{
  M, ReconcileResult, answer, attempt, close, deferred, emit, event, eventf, get, normal, perform,
  return, warning, History, ◌>>◌, ◌>>=◌,
}
use postgres_config_operator.Effects.World.{World}
use postgres_config_operator.Connection.{setup_postgres_connection}

abbrev pub failed_setup_postgres_connection : String
failed_setup_postgres_connection = "FailedSetupPostgresConnection"

abbrev pub success_connect_postgres : String
success_connect_postgres = "SuccessConnectPostgres"

abbrev pub failed_reconcile : String
failed_reconcile = "FailedReconcile"

abbrev pub successful_reconcile : String
successful_reconcile = "SuccessfulReconcile"

-- `ctrl.Result{}` and `ctrl.Result{Requeue: true}`
abbrev pub finished : ReconcileResult
finished = record { requeue = false }

abbrev pub again : ReconcileResult
again = record { requeue = true }

-- `r.Get`, and what each `Reconcile` does with its error: a missing object is no error.
abbrev pub get_or_stop :
    {A : Type 0}
    → World
    → String
    → (History → NamespacedName → Result A)
    → NamespacedName
    → (A → M ReconcileResult)
    → M ReconcileResult
get_or_stop w kind reply key k =
    attempt (perform (get kind key) (λ h. reply h key))
      (λ e. answer (w.ignore_not_found e) >> return finished) k

-- Connect, and close the connection behind the rest. A failure to connect is reported, and the
-- object is queued again.
abbrev pub with_connection :
    World → PostgresRef → ObjectMeta → M ReconcileResult → M ReconcileResult
with_connection w ref obj k =
    attempt (setup_postgres_connection w ref obj)
      (λ e. do
        emit (eventf (object_key obj) warning failed_setup_postgres_connection (error_text e) [])
        return again)
      (λ _. deferred close k)

abbrev pub report : ObjectMeta → String → String → M (Unit {0})
report obj reason message = emit (event (object_key obj) normal reason message)

-- `Eventf(object, Warning, FailedReconcile, format, err)`, and the object is queued again.
abbrev pub complain : ObjectMeta → String → Err → M ReconcileResult
complain obj format e = do
  emit (eventf (object_key obj) warning failed_reconcile format (error_text e ∷ []))
  return again
