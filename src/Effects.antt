-- ===== src/Effects.antt =====
-- What a controller does to the world outside: the requests that it sends to the Kubernetes API and
-- to the PostgreSQL server, in the order in which it sends them.
pub mod Hoare
pub mod Runs
pub mod Steps
pub mod World
use postgres_config_operator.Base.{ℕ, String, Bool, Option, List, ◌∷◌}
use postgres_config_operator.Errors.{Err, wrapped, Result, ok, err}
use postgres_config_operator.Api.{NamespacedName, PostgresPublication}

-- The fields of the `url.URL` that the connection string is made from.
pub record Url : Type 0 where
  pub scheme : String
  pub username : String
  pub password : String
  pub host : String
  pub path : String
  pub raw_path : String

-- An argument of a parameterised statement.
pub data Argument : Type 0 where
  text : String → Argument
  texts : List String → Argument

-- `corev1.EventTypeNormal` and `corev1.EventTypeWarning`
pub data EventKind : Type 0 where
  normal warning : EventKind

-- The reconcilers that `main` sets up
pub data Reconciler : Type 0 where
  config_reconciler publication_reconciler grant_reconciler table_reconciler : Reconciler

-- `ctrl.Options`, of which the scheme is left out
pub record ManagerOptions : Type 0 where
  pub metrics_bind_address : String
  pub port : ℕ
  pub health_probe_bind_address : String
  pub leader_election : Bool
  pub leader_election_id : String

-- The calls that start the process up.
pub data Startup : Type 0 where
  -- `AddToScheme` of client-go
  add_client_go : Startup
  -- The scheme builder's `AddToScheme` for a group and a version, with the kinds that were registered
  add_kinds : String → String → List String → Startup
  new_manager : ManagerOptions → Startup
  -- `IndexField` of a kind by a key
  index_field : String → String → Startup
  -- `Complete`, for a reconciler with the names of its logger (none where `Log` is not set), a kind,
  -- and the kinds that it owns
  complete_controller : Reconciler → Option (List String) → String → List String → Startup
  complete_webhook : String → Startup
  add_healthz_check add_readyz_check : String → Startup
  start : Startup
  exit : ℕ → Startup

-- One call that leaves the process. Logging is left out.
pub data Request : Type 0 where
  -- `client.Get` of a custom resource, by its kind
  get : String → NamespacedName → Request
  get_secret : NamespacedName → Request
  -- `client.List` of publications by the name of their owner, within a namespace
  list_publications : String → String → Request
  create_resource : PostgresPublication → Request
  update_resource : PostgresPublication → Request
  delete_resource : PostgresPublication → Request
  -- `recorder.Event(object, kind, reason, message)`
  event : NamespacedName → EventKind → String → String → Request
  -- `recorder.Eventf(object, kind, reason, format, args...)`
  eventf : NamespacedName → EventKind → String → String → List String → Request
  connect : Url → Request
  close : Request
  exec : String → List Argument → Request
  query : String → List Argument → Request
  begin_tx : Request
  tx_exec : String → Request
  commit : Request
  rollback : Request
  boot : Startup → Request

-- The requests so far, the latest first.
abbrev pub History : Type 0
History = List Request

-- How a call ends: with a value or with a Go error, and with the requests made until then.
pub data Outcome (A : Type 0) : Type 0 where
  done : A → History → Outcome A
  failed : Err → History → Outcome A

abbrev pub M : Type 0 → Type 0
M A = History → Outcome A

abbrev pub return : {A : Type 0} → A → M A
return a h = done a h

abbrev pub fail : {A : Type 0} → Err → M A
fail e h = failed e h

-- `v, err := m; if err != nil { handle err }; k v`
abbrev pub attempt : {A B : Type 0} → M A → (Err → M B) → (A → M B) → M B
attempt m handle k h = elim (m h) [ done a h' ↦ k a h' | failed e h' ↦ handle e h' ]

-- `v, err := m; if err != nil { return err }; k v`
infixl 5 ◌>>=◌ ◌>>◌
abbrev pub ◌>>=◌ : {A B : Type 0} → M A → (A → M B) → M B
◌>>=◌ m k h = elim (m h) [ done a h' ↦ k a h' | failed e h' ↦ failed e h' ]

abbrev pub ◌>>◌ : {A B : Type 0} → M A → M B → M B
m >> k = m >>= λ _. k

-- `if err := m; err != nil { return fmt.Errorf(prefix + ": %w", err) }`
abbrev pub wrap : {A : Type 0} → String → M A → M A
wrap prefix m h = elim (m h) [ done a h' ↦ done a h' | failed e h' ↦ failed (wrapped prefix e) h' ]

-- `defer cleanup`, where the error of the cleanup is dropped: one request more, however `m` ends.
abbrev pub deferred : {A : Type 0} → Request → M A → M A
deferred cleanup m h = elim (m h) [
  | done a h' ↦ done a (cleanup ∷ h')
  | failed e h' ↦ failed e (cleanup ∷ h')
]

abbrev pub answer : {A : Type 0} → Result A → M A
answer (ok a) h = done a h
answer (err e) h = failed e h

-- Send a request that is answered in view of all requests before it.
abbrev pub perform : {A : Type 0} → Request → (History → Result A) → M A
perform q reply h = answer (reply h) (q ∷ h)

-- A call without a result that the caller looks at.
abbrev pub emit : Request → M (Unit {0})
emit q h = done tt (q ∷ h)

-- The requests made until a call ends.
abbrev pub history : {A : Type 0} → Outcome A → History
history (done _ h) = h
history (failed _ h) = h

-- `ctrl.Result`, of which the controllers set `Requeue` alone.
pub record ReconcileResult : Type 0 where
  pub requeue : Bool
