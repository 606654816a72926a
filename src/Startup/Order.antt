-- ===== src/Startup/Order.antt =====
-- The order in which the process starts up, and where it stops.
use postgres_config_operator.Base.{List, [], ◌∷◌, ◌++◌, ◌≡◌, refl, some, none, Option, String}
use postgres_config_operator.Effects.{
  History, M, Outcome, Request, Startup, add_healthz_check, add_readyz_check, boot,
  complete_controller, complete_webhook, config_reconciler, done, emit, exit, fail, failed,
  grant_reconciler, index_field, new_manager, publication_reconciler, start, table_reconciler, ◌>>◌,
}
use postgres_config_operator.Effects.Hoare.{Post, bind-Triple, weaken-Post}
use postgres_config_operator.Effects.Runs.{
  Ran, Runs, SentAll, SentAll-append, StopsIn, StopsIn-append, bind-Runs, later-StopsIn,
  perform-Runs,
}
use postgres_config_operator.Effects.World.{World, do_boot}
use postgres_config_operator.Startup.{
  Flags, exit_on_error, main, setup_publication, setup_grant, setup_webhook, setup_table,
  manager_options, publication_owner_key, setup_config,
}

-- The requests before one of them were accepted, that one was refused, and then the process ended
-- with the exit code 1.
pub record ExitsIn (w : World) (qs : List Request) (h h' : History) : Type 0 where
  pub stopped : History
  pub stops : StopsIn w qs h stopped
  pub now : h' ≡ boot (exit 1) ∷ stopped

-- The process takes the steps in order, each successfully, or exits behind the first that fails.
pub record Boots {A : Type 0} (w : World) (qs : List Request) (m : M A) : Type 0 where
  pub run : (h : History) → Post (λ _. SentAll w qs h) (ExitsIn w qs h) (m h)

module _ (w : World) where
  exit_on_error-Boots :
      {A : Type 0} (qs : List Request) (m : M A) → Runs w qs m → Boots w qs (exit_on_error m)
  exit_on_error-Boots {A} qs m runs = record { run = λ h. ended h (m h) (runs h) }
    where
      ended :
          (h : History) (r : Outcome A)
          → Ran w qs h r
          → Post
              (λ _. SentAll w qs h)
              (ExitsIn w qs h)
              (elim r [
                | done a h' ↦ done a h'
                | failed e h' ↦ (emit (boot (exit 1)) >> fail {A = A} e) h'
              ])
      ended h (done a h') s = s
      ended h (failed e h') s = record { stopped = h'; stops = s; now = refl }

  later-Boots :
      {B : Type 0} (qs rs : List Request) (h h' : History) (r : Outcome B)
      → SentAll w qs h h'
      → Post (λ _. SentAll w rs h') (ExitsIn w rs h') r
      → Post (λ _. SentAll w (qs ++ rs) h) (ExitsIn w (qs ++ rs) h) r
  later-Boots qs rs h h' (done b h'') now s = SentAll-append w qs rs h h' h'' now s
  later-Boots qs rs h h' (failed e h'') now x = record {
    stopped = x.stopped;
    stops = later-StopsIn w qs rs h h' x.stopped now x.stops;
    now = x.now;
  }

  bind-Boots :
      {A B : Type 0} (qs rs : List Request) (m : M A) (k : M B)
      → Boots w qs m
      → Boots w rs k
      → Boots w (qs ++ rs) (m >> k)
  bind-Boots {A} {B} qs rs m k f g = record {
    run = λ h.
        bind-Triple (λ _. SentAll w qs h) (ExitsIn w (qs ++ rs) h) (λ _. SentAll w (qs ++ rs) h)
          (λ h'. h' ≡ h) m (λ _. k)
          (λ h' same.
            weaken-Post (λ h'. h' ≡ h) (λ _. SentAll w qs h) (ExitsIn w qs h)
              (ExitsIn w (qs ++ rs) h)
              (λ h'' x. record {
                stopped = x.stopped;
                stops = StopsIn-append w qs rs h x.stopped x.stops;
                now = x.now;
              })
              (m h') (rw same (f.run h)))
          (λ _ h' now. later-Boots qs rs h h' (k h') now (g.run h')) h refl;
  }

one-Boots :
    {B : Type 0} (w : World) (s : Startup) (rs : List Request) (k : M B)
    → Boots w rs k
    → Boots w (boot s ∷ rs) (exit_on_error (do_boot w s) >> k)
one-Boots w s rs k = bind-Boots w (boot s ∷ []) rs (exit_on_error (do_boot w s)) k (
    exit_on_error-Boots w (boot s ∷ []) (do_boot w s)
      (perform-Runs w (boot s) (λ h. w.booted h s) (λ _. refl)))

abbrev pub owner_index : Startup
owner_index = index_field "PostgresPublication" publication_owner_key

abbrev pub config_controller : Option (List String) → Startup
config_controller log =
    complete_controller config_reconciler log "PostgresConfig" ("PostgresPublication" ∷ [])

abbrev pub config_steps : Option (List String) → List Request
config_steps log = boot owner_index ∷ boot (config_controller log) ∷ []

abbrev pub logger : String → Option (List String)
logger kind = some ("controllers" ∷ kind ∷ [])

-- The steps of `main`, in order
abbrev pub startup_requests : Flags → List Request
startup_requests flags =
    boot (new_manager (manager_options flags)) ∷ config_steps (logger "PostgresConfig")
    ++ boot (
        complete_controller publication_reconciler (logger "PostgresPublication")
          "PostgresPublication" [])
      ∷ boot (complete_controller grant_reconciler none "PostgresGrant" [])
      ∷ boot (complete_webhook "PostgresGrant")
      ∷ boot (complete_controller table_reconciler none "PostgresTable" [])
      ∷ boot (add_healthz_check "healthz")
      ∷ boot (add_readyz_check "readyz")
      ∷ boot start
      ∷ []

setup_config-Runs :
    (w : World) (log : Option (List String)) → Runs w (config_steps log) (setup_config w log)
unfolding setup_config
setup_config-Runs w log =
    bind-Runs w (boot owner_index ∷ []) (boot (config_controller log) ∷ []) (do_boot w owner_index)
      _ (perform-Runs w (boot owner_index) (λ h. w.booted h owner_index) (λ _. refl))
      (λ _.
        perform-Runs w (boot (config_controller log)) (λ h. w.booted h (config_controller log))
          (λ _. refl))

-- `main` takes its steps in order: it returns only after the manager was made, the index, the four
-- controllers, the webhook and the two checks were set up, and the manager was started, each of them
-- successfully. Otherwise one step failed, those before it having succeeded, and the process exits
-- with the code 1 right behind it.
pub main-Boots : (w : World) (flags : Flags) → Boots w (startup_requests flags) (main w flags)
unfolding main setup_publication setup_grant setup_webhook setup_table
main-Boots w flags = one-Boots w (new_manager (manager_options flags)) _ _ (
    bind-Boots w (config_steps (logger "PostgresConfig")) _
      (exit_on_error (setup_config w (logger "PostgresConfig"))) _
      (exit_on_error-Boots w (config_steps (logger "PostgresConfig"))
        (setup_config w (logger "PostgresConfig")) (setup_config-Runs w (logger "PostgresConfig")))
      (one-Boots w _ _ _ (
        one-Boots w _ _ _ (
          one-Boots w _ _ _ (
            one-Boots w _ _ _ (
              one-Boots w _ _ _ (
                one-Boots w _ _ _ (
                  exit_on_error-Boots w (boot start ∷ []) (do_boot w start)
                    (perform-Runs w (boot start) (λ h. w.booted h start) (λ _. refl))))))))))
