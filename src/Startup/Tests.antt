-- ===== src/Startup/Tests.antt =====
-- A start with the default flags, and one that stops.
use postgres_config_operator.Base.{[], ◌∷◌, ◌≡◌, refl}
use postgres_config_operator.Errors.{err, plain}
use postgres_config_operator.Effects.{
  add_client_go, add_kinds, boot, done, exit, failed, new_manager,
}
use postgres_config_operator.Effects.Runs.{sent}
use postgres_config_operator.Effects.World.{World}
use postgres_config_operator.Startup.{default_flags, init, main, manager_options}
use postgres_config_operator.Startup.Order.{Boots, main-Boots, startup_requests}
use postgres_config_operator.Samples.{calm}

started : main calm default_flags [] ≡ done tt (sent (startup_requests default_flags) [])
unfolding main
started = refl

abbrev refusing : World
refusing = record calm { booted = λ h t. err (plain "no cluster") }

stops_at_once :
    main refusing default_flags []
    ≡ failed
        (plain "no cluster")
        (boot (exit 1) ∷ boot (new_manager (manager_options default_flags)) ∷ [])
unfolding main
stops_at_once = refl

main-Boots_example : Boots calm (startup_requests default_flags) (main calm default_flags)
main-Boots_example = main-Boots calm default_flags

registered :
    init calm []
    ≡ done tt (
        boot (
          add_kinds "postgres.glints.com" "v1alpha1" (
            "PostgresConfig" ∷ "PostgresConfigList" ∷ "PostgresGrant" ∷ "PostgresGrantList"
            ∷ "PostgresPublication" ∷ "PostgresPublicationList" ∷ "PostgresTable"
            ∷ "PostgresTableList" ∷ []))
        ∷ boot add_client_go
        ∷ [])
unfolding init
registered = refl
