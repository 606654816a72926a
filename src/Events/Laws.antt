-- ===== src/Events/Laws.antt =====
-- Properties of the history that connecting and reporting keep.
use postgres_config_operator.Base.{String, List, ◌∷◌}
use postgres_config_operator.Errors.{Err, Result}
use postgres_config_operator.Api.{NamespacedName, PostgresRef, ObjectMeta}
use postgres_config_operator.Effects.{
  EventKind, History, M, ReconcileResult, Url, close, connect, event, eventf, get, get_secret,
  perform,
}
use postgres_config_operator.Effects.Hoare.{
  Keeps, attempt-Keeps, bind-Keeps, perform-Keeps, answer-Keeps, deferred-Triple,
}
use postgres_config_operator.Effects.World.{World}
use postgres_config_operator.Connection.{setup_postgres_connection, secret_name, connection_url}
use postgres_config_operator.Events.{get_or_stop, with_connection, complain}

-- A property that the requests which every reconciliation makes leave alone.
pub record IsQuiet (P : History → Type 0) : Type 0 where
  pub on_get : (kind : String) (key : NamespacedName) (h : History) → P h → P (get kind key ∷ h)
  pub on_get_secret : (key : NamespacedName) (h : History) → P h → P (get_secret key ∷ h)
  pub on_connect : (url : Url) (h : History) → P h → P (connect url ∷ h)
  pub on_close : (h : History) → P h → P (close ∷ h)
  pub on_event :
      (key : NamespacedName) (kind : EventKind) (reason message : String) (h : History)
      → P h
      → P (event key kind reason message ∷ h)
  pub on_eventf :
      (key : NamespacedName) (kind : EventKind) (reason format : String) (args : List String)
      (h : History)
      → P h
      → P (eventf key kind reason format args ∷ h)

module _ (P : History → Type 0) (quiet : IsQuiet P) (w : World) where
  pub setup-Keeps :
      (ref : PostgresRef) (obj : ObjectMeta) → Keeps P (setup_postgres_connection w ref obj)
  unfolding setup_postgres_connection
  setup-Keeps ref obj =
      let name = secret_name ref obj in
      attempt-Keeps P (perform (get_secret name) (λ h. w.secret_at h name)) _ _
        (perform-Keeps P _ (λ h. w.secret_at h name) (quiet.on_get_secret name)) (λ e h p. p)
        (λ secret.
          let url = connection_url ref secret in
          attempt-Keeps P (perform (connect url) (λ h. w.connected h url)) _ _
            (perform-Keeps P _ (λ h. w.connected h url) (quiet.on_connect url)) (λ e h p. p)
            (λ _ h p. p))

  pub with_connection-Keeps :
      (ref : PostgresRef) (obj : ObjectMeta) (k : M ReconcileResult)
      → Keeps P k
      → Keeps P (with_connection w ref obj k)
  with_connection-Keeps ref obj k keep =
      attempt-Keeps P (setup_postgres_connection w ref obj) _ _ (setup-Keeps ref obj)
        (λ e h p. quiet.on_eventf _ _ _ _ _ h p)
        (λ _.
          deferred-Triple (λ _ h. P h) P (λ _ h. P h) P P close k (λ _. quiet.on_close)
            quiet.on_close keep)

  pub get_or_stop-Keeps :
      {A : Type 0} (kind : String) (reply : History → NamespacedName → Result A)
      (key : NamespacedName) (k : A → M ReconcileResult)
      → ((a : A) → Keeps P (k a))
      → Keeps P (get_or_stop w kind reply key k)
  get_or_stop-Keeps kind reply key k keep =
      attempt-Keeps P (perform (get kind key) (λ h. reply h key)) _ k
        (perform-Keeps P _ (λ h. reply h key) (quiet.on_get kind key))
        (λ e. bind-Keeps P _ _ (answer-Keeps P (w.ignore_not_found e)) (λ _ h p. p)) keep

module _ (P : History → Type 0) (quiet : IsQuiet P) where
  pub complain-Keeps :
      (obj : ObjectMeta) (format : String) (e : Err) → Keeps P (complain obj format e)
  complain-Keeps obj format e h p = quiet.on_eventf _ _ _ _ _ h p
