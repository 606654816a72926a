-- ===== src/Sessions/Connecting.antt =====
-- Connecting, and closing the connection behind the rest.
use postgres_config_operator.Base.{String, refl}
use postgres_config_operator.Errors.{Result}
use postgres_config_operator.Api.{NamespacedName, ObjectMeta, PostgresRef}
use postgres_config_operator.Effects.{
  History, M, ReconcileResult, close, connect, get, get_secret, perform,
}
use postgres_config_operator.Effects.Hoare.{
  Keeps, Triple, attempt-Triple, attempt-Keeps, bind-Keeps, perform-Keeps, perform-Triple,
  answer-Keeps, deferred-Triple,
}
use postgres_config_operator.Effects.World.{World}
use postgres_config_operator.Connection.{setup_postgres_connection, secret_name, connection_url}
use postgres_config_operator.Events.{get_or_stop, with_connection}
use postgres_config_operator.Sessions.{Ends, offline, online}

module _ (w : World) where
  setup-Triple :
      (ref : PostgresRef) (obj : ObjectMeta)
      → Triple
          (Ends w offline)
          (setup_postgres_connection w ref obj)
          (λ _. Ends w online)
          (Ends w offline)
  unfolding setup_postgres_connection
  setup-Triple ref obj =
      let name = secret_name ref obj in
      attempt-Triple (λ _. Ends w offline) (Ends w offline) (Ends w offline) (λ _. Ends w online)
        (Ends w offline) (perform (get_secret name) (λ h. w.secret_at h name)) _ _
        (perform-Keeps (Ends w offline) _ (λ h. w.secret_at h name) (λ h g. (g.0, (tt, g.1))))
        (λ e h g. g)
        (λ secret.
          let url = connection_url ref secret in
          attempt-Triple (λ _. Ends w online) (Ends w offline) (Ends w offline) (λ _. Ends w online)
            (Ends w offline) (perform (connect url) (λ h. w.connected h url)) _ _
            (perform-Triple (Ends w offline) (λ _. Ends w online) (Ends w offline) (connect url)
              (λ h. w.connected h url) (λ _ h g s. (rw s refl, (g.0, g.1)))
              (λ _ h g s. (rw s g.0, (g.0, g.1))))
            (λ e h g. g) (λ _ h g. g))

  pub with_connection-Keeps :
      (ref : PostgresRef) (obj : ObjectMeta) (k : M ReconcileResult)
      → Keeps (Ends w online) k
      → Keeps (Ends w offline) (with_connection w ref obj k)
  with_connection-Keeps ref obj k keep =
      attempt-Triple (λ _. Ends w online) (Ends w offline) (Ends w offline) (λ _. Ends w offline)
        (Ends w offline) (setup_postgres_connection w ref obj) _ _ (setup-Triple ref obj)
        (λ e h g. (g.0, (tt, g.1)))
        (λ _.
          deferred-Triple (λ _. Ends w online) (Ends w online) (λ _. Ends w offline)
            (Ends w offline) (Ends w online) close k (λ _ h g. (refl, (g.0, g.1)))
            (λ h g. (refl, (g.0, g.1))) keep)

  pub get_or_stop-Keeps :
      {A : Type 0} (kind : String) (reply : History → NamespacedName → Result A)
      (key : NamespacedName) (k : A → M ReconcileResult)
      → ((a : A) → Keeps (Ends w offline) (k a))
      → Keeps (Ends w offline) (get_or_stop w kind reply key k)
  get_or_stop-Keeps kind reply key k keep =
      attempt-Keeps (Ends w offline) (perform (get kind key) (λ h. reply h key)) _ k
        (perform-Keeps (Ends w offline) _ (λ h. reply h key) (λ h g. (g.0, (tt, g.1))))
        (λ e.
          bind-Keeps (Ends w offline) _ _ (answer-Keeps (Ends w offline) (w.ignore_not_found e))
            (λ _ h g. g))
        keep
