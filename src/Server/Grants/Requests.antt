-- ===== src/Server/Grants/Requests.antt =====
-- What `Reconcile` of a grant leaves on a server that accepts it.
use postgres_config_operator.Base.{String, List, [], ◌∷◌, ◌≡◌, refl, ap, ◌∙◌, map, Listed}
use postgres_config_operator.Errors.{ok}
use postgres_config_operator.Api.{
  NamespacedName, ObjectType, PostgresGrant, PostgresIdentifier, identifiers_for_type,
  object_type_database, object_type_function, object_type_schema, object_type_sequence,
  object_type_table, privileges_for_type, qualified,
}
use postgres_config_operator.Effects.{History, ReconcileResult, done}
use postgres_config_operator.Effects.Hoare.{bind-Triple}
use postgres_config_operator.Effects.World.{Log, World}
use postgres_config_operator.Events.{finished}
use postgres_config_operator.Logging.{with_request_logger}
use postgres_config_operator.Grant.{
  grant_objects, object_types_to_reconcile, reconcile_object_grants, reconcile_request,
  reconcile_types, wanted_privileges,
}
use postgres_config_operator.Server.{
  Ends, KeptQuiet, Never, Opens, ended, get_or_stop-Ends, with_connection-Ends,
}
use postgres_config_operator.Server.Grants.{Asked, IsAboutTables, IsGrantable, ServesGrant}
use postgres_config_operator.Server.Grants.Wanted.{wanted_privileges-IsGrantable}
use postgres_config_operator.Webhook.{validate_create}
use postgres_config_operator.Webhook.Accepts.{IsIterationOrder}
use postgres_config_operator.Server.Grants.Statements.{AllowsAll, grant_objects-Ends}

abbrev Anything : History → Type 0
Anything h = Unit

module _ (w : World) (g : PostgresGrant) where
  no_objects-Ends :
      (o : ObjectType)
      → identifiers_for_type g o ≡ []
      → Ends Anything (reconcile_object_grants w g o) (λ r h. (r ≡ finished) × Anything h)
  unfolding reconcile_object_grants grant_objects
  no_objects-Ends o e h p = rw e (refl, p)

  next-Ends :
      (o : ObjectType) (os : List ObjectType) (Q : History → Type 0)
      (R : ReconcileResult → History → Type 0)
      → Ends Anything (reconcile_object_grants w g o) (λ r h. (r ≡ finished) × Q h)
      → Ends Q (reconcile_types w g os) R
      → Ends Anything (reconcile_types w g (o ∷ os)) R
  unfolding reconcile_types
  next-Ends o os Q R now rest =
      bind-Triple (λ r h. (r ≡ finished) × Q h) Never R Anything (reconcile_object_grants w g o) _
        now (λ r h p. rw p.0 (rest h p.1))

  module _ (Allows : PostgresIdentifier → String → History → Type 0)
      (server : ServesGrant w g.spec.role g.spec.tables Allows) (about : IsAboutTables g)
      (order : List ObjectType) (visits : IsIterationOrder order)
      (accepted : validate_create order g ≡ ok tt) where
    abbrev grantable : IsGrantable (wanted_privileges g.spec.table_privileges)
    grantable = wanted_privileges-IsGrantable order g visits accepted

    abbrev Allowed : History → Type 0
    Allowed h = AllowsAll w g Allows server grantable g.spec.tables h

    Allowed-KeptQuiet : KeptQuiet Allowed
    Allowed-KeptQuiet q h quiet all t x lt lx = server.after_quiet q h t x quiet (all t x lt lx)

    abbrev After : ReconcileResult → History → Type 0
    After r h = (r ≡ finished) × Allowed h

    tables-Ends :
        Ends Anything
          (reconcile_object_grants w g object_type_table)
          (λ r h. (r ≡ finished) × (Anything h × Allowed h))
    unfolding reconcile_object_grants privileges_for_type identifiers_for_type
    tables-Ends =
        grant_objects-Ends w g Allows server grantable object_type_table Anything g.spec.tables
          (λ h u l p. tt) (λ t l. l)

    report-Ends : Ends (λ h. Anything h × Allowed h) (reconcile_types w g []) After
    unfolding reconcile_types
    report-Ends h p = (refl, Allowed-KeptQuiet _ h tt p.1)

    reconcile_types-Ends : Ends Anything (reconcile_types w g object_types_to_reconcile) After
    unfolding identifiers_for_type
    reconcile_types-Ends =
        next-Ends object_type_database _ Anything After
          (no_objects-Ends object_type_database (ap (map _) about.databases))
          (next-Ends object_type_function _ Anything After
            (no_objects-Ends object_type_function (ap (map qualified) about.functions))
            (next-Ends object_type_schema _ Anything After
              (no_objects-Ends object_type_schema (ap (map _) about.schemas))
              (next-Ends object_type_sequence _ Anything After
                (no_objects-Ends object_type_sequence (ap (map qualified) about.sequences))
                (next-Ends object_type_table [] (λ h. Anything h × Allowed h) After tables-Ends
                  report-Ends))))

    -- The grant lists tables only, and the webhook accepted it. The logger of the reconciler takes
    -- the values of the request; the grant can be read, as can the secret of its server, which accepts
    -- connections, and serves statements that grant rights on these tables. Then `Reconcile` ends
    -- without an error, and not queued again, and on each of the tables the role has each of the
    -- rights that the grant lists, or every right on tables, if the grant lists "ALL" or nothing.
    pub grant_request-AllowsAll :
        (log l : Log) (key : NamespacedName) (h : History)
        → w.with_values log "postgresgrant" key ≡ ok l
        → Opens w g.spec.postgres_ref g.metadata
        → w.grant_at h key ≡ ok g
        → (h' : History) × (reconcile_request w log key h ≡ done finished h')
          × ((t : PostgresIdentifier) (x : String)
              → Listed t g.spec.tables
              → Asked g.spec.table_privileges x
              → Allows t x h')
    unfolding reconcile_request with_request_logger
    grant_request-AllowsAll log l key h logs opens there =
        let any : KeptQuiet Anything = λ q h u p. tt in
        let (r, h', e, end) = ended After (reconcile_request w log key h) (
          rw logs (
            get_or_stop-Ends Anything any w After "PostgresGrant" w.grant_at key _ g h there
              (with_connection-Ends Anything any w After g.spec.postgres_ref g.metadata
                (reconcile_types w g object_types_to_reconcile) opens
                (λ r q h u p. (p.0, Allowed-KeptQuiet q h u p.1)) reconcile_types-Ends)
              tt)) in
        (h', e ∙ ap (λ x. done x h') end.0, end.1)
