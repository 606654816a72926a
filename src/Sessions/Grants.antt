-- ===== src/Sessions/Grants.antt =====
-- The grant controller and its connection.
use postgres_config_operator.Base.{String, List, [], ◌∷◌}
use postgres_config_operator.Api.{
  Identifier, NamespacedName, ObjectType, PostgresGrant, identifiers_for_type, privileges_for_type,
}
use postgres_config_operator.Effects.{History, answer, history}
use postgres_config_operator.Effects.Hoare.{
  Keeps, Keeps-history, answer-Keeps, attempt-Keeps, bind-Keeps, if-Keeps,
}
use postgres_config_operator.Effects.World.{Log, World, do_exec}
use postgres_config_operator.Manager.Keeping.{exec-Keeps}
use postgres_config_operator.Grant.{
  grant_objects, grant_query, reconcile_object_grants, reconcile_types, reconcile_request,
  object_types_to_reconcile, wanted_privileges,
}
use postgres_config_operator.Logging.{with_request_logger}
use postgres_config_operator.Sessions.{Ends, offline, online, online-exec}
use postgres_config_operator.Sessions.Connecting.{get_or_stop-Keeps, with_connection-Keeps}

module _ (w : World) where
  grant_objects-Keeps :
      (g : PostgresGrant) (o : ObjectType) (privileges : List String) (is : List Identifier)
      → Keeps (Ends w online) (grant_objects w g o privileges is)
  unfolding grant_objects
  grant_objects-Keeps g o privileges [] = λ h e. e
  grant_objects-Keeps g o privileges (i ∷ is) =
      attempt-Keeps (Ends w online) (do_exec w (grant_query w privileges i g.spec.role) []) _ _
        (exec-Keeps (Ends w online) (online-exec w) w _ []) (λ _ h e. (e.0, (tt, e.1)))
        (λ _. grant_objects-Keeps g o privileges is)

  reconcile_types-Keeps :
      (g : PostgresGrant) (os : List ObjectType) → Keeps (Ends w online) (reconcile_types w g os)
  unfolding reconcile_types reconcile_object_grants
  reconcile_types-Keeps g [] = λ h e. (e.0, (tt, e.1))
  reconcile_types-Keeps g (o ∷ os) =
      bind-Keeps (Ends w online)
        (grant_objects w g o (wanted_privileges (privileges_for_type g o))
          (identifiers_for_type g o))
        _
        (grant_objects-Keeps g o (wanted_privileges (privileges_for_type g o))
          (identifiers_for_type g o))
        (λ result.
          if-Keeps (Ends w online) result.requeue _ _ (λ h e. e) (reconcile_types-Keeps g os))

  -- After requests that respect the state of the connection and leave none open, `Reconcile` of a
  -- grant sends statements only while its connection is open, and leaves none open, however it ends.
  pub grant_request-Ends :
      (log : Log) (key : NamespacedName) (h : History)
      → Ends w offline h
      → Ends w offline (history (reconcile_request w log key h))
  unfolding reconcile_request
  grant_request-Ends log key h e = Keeps-history (Ends w offline) _ (
      bind-Keeps (Ends w offline)
        (answer (with_request_logger w.with_values [] key "postgresgrant" log)) _
        (answer-Keeps (Ends w offline)
          (with_request_logger w.with_values [] key "postgresgrant" log))
        (λ _. get_or_stop-Keeps w "PostgresGrant" w.grant_at key _ (λ g.
          with_connection-Keeps w g.spec.postgres_ref g.metadata _
            (reconcile_types-Keeps g object_types_to_reconcile)))
        h e)
