-- ===== src/Startup.antt =====
-- `main.go`, the functions `SetupWithManager` and `SetupWebhookWithManager`, and the registration of
-- the kinds in `api/v1alpha1`. The command line is given as the parsed flags.
pub mod Order
pub mod Tests
use postgres_config_operator.Base.{String, Bool, false, Option, none, some, List, [], ◌∷◌, ◌++◌}
use postgres_config_operator.Errors.{error_text, panic}
use postgres_config_operator.Effects.{
  M, ManagerOptions, Reconciler, Startup, add_client_go, add_healthz_check, add_kinds,
  add_readyz_check, attempt, boot, complete_controller, complete_webhook, config_reconciler, emit,
  exit, fail, grant_reconciler, index_field, new_manager, publication_reconciler, return, start,
  table_reconciler, ◌>>=◌, ◌>>◌,
}
use postgres_config_operator.Effects.World.{World, do_boot}
use postgres_config_operator.Api.{group_version}

-- What the function `init` of each of the API's files registers
abbrev pub config_kinds : List String
config_kinds = "PostgresConfig" ∷ "PostgresConfigList" ∷ []

abbrev pub grant_kinds : List String
grant_kinds = "PostgresGrant" ∷ "PostgresGrantList" ∷ []

abbrev pub publication_kinds : List String
publication_kinds = "PostgresPublication" ∷ "PostgresPublicationList" ∷ []

abbrev pub table_kinds : List String
table_kinds = "PostgresTable" ∷ "PostgresTableList" ∷ []

-- What the scheme builder holds then; the files are initialised in the order of their names.
abbrev pub registered_kinds : List String
registered_kinds = config_kinds ++ grant_kinds ++ publication_kinds ++ table_kinds

abbrev pub publication_owner_key : String
publication_owner_key = ".metadata.controller"

pub record Flags : Type 0 where
  pub metrics_addr : String
  pub probe_addr : String
  pub enable_leader_election : Bool

abbrev pub default_flags : Flags
default_flags = record {
  metrics_addr = ":8080";
  probe_addr = ":8081";
  enable_leader_election = false;
}

abbrev pub manager_options : Flags → ManagerOptions
manager_options flags = record {
  metrics_bind_address = flags.metrics_addr;
  port = 9443;
  health_probe_bind_address = flags.probe_addr;
  leader_election = flags.enable_leader_election;
  leader_election_id = "573592a1.glints.com";
}

-- `if err != nil { os.Exit(1) }`: nothing runs after it.
abbrev pub exit_on_error : {A : Type 0} → M A → M A
exit_on_error m = attempt m (λ e. emit (boot (exit 1)) >> fail e) return

-- `utilruntime.Must`
abbrev pub must : M (Unit {0}) → M (Unit {0})
must m = attempt m (λ e. fail (panic (error_text e))) return

module _ (w : World) where
  -- `AddToScheme` of the API group
  unfoldable pub add_to_scheme : M (Unit {0})
  add_to_scheme = do_boot w (add_kinds group_version.group group_version.version registered_kinds)

  -- `init`
  unfoldable pub init : M (Unit {0})
  unfolding add_to_scheme
  init = do must (do_boot w add_client_go); must add_to_scheme

  -- `PostgresConfigReconciler.SetupWithManager`
  unfoldable pub setup_config : Option (List String) → M (Unit {0})
  setup_config log = do
    do_boot w (index_field "PostgresPublication" publication_owner_key)
    do_boot w
        (complete_controller config_reconciler log "PostgresConfig" ("PostgresPublication" ∷ []))

  -- `PostgresPublicationReconciler.SetupWithManager`
  unfoldable pub setup_publication : Option (List String) → M (Unit {0})
  setup_publication log =
      do_boot w (complete_controller publication_reconciler log "PostgresPublication" [])

  -- `PostgresGrantReconciler.SetupWithManager`
  unfoldable pub setup_grant : Option (List String) → M (Unit {0})
  setup_grant log = do_boot w (complete_controller grant_reconciler log "PostgresGrant" [])

  -- `PostgresGrant.SetupWebhookWithManager`
  unfoldable pub setup_webhook : M (Unit {0})
  setup_webhook = do_boot w (complete_webhook "PostgresGrant")

  -- `PostgresTableReconciler.SetupWithManager`
  unfoldable pub setup_table : Option (List String) → M (Unit {0})
  setup_table log = do_boot w (complete_controller table_reconciler log "PostgresTable" [])

  -- `main`. The reconcilers of grants and tables get no `Log`.
  unfoldable pub main : Flags → M (Unit {0})
  unfolding setup_config setup_publication setup_grant setup_webhook setup_table
  main flags = do
    exit_on_error (do_boot w (new_manager (manager_options flags)))
    exit_on_error (setup_config (some ("controllers" ∷ "PostgresConfig" ∷ [])))
    exit_on_error (setup_publication (some ("controllers" ∷ "PostgresPublication" ∷ [])))
    exit_on_error (setup_grant none)
    exit_on_error setup_webhook
    exit_on_error (setup_table none)
    exit_on_error (do_boot w (add_healthz_check "healthz"))
    exit_on_error (do_boot w (add_readyz_check "readyz"))
    exit_on_error (do_boot w start)
