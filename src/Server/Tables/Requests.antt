-- ===== src/Server/Tables/Requests.antt =====
-- What `Reconcile` of a table leaves on a server that accepts its columns.
use postgres_config_operator.Base.{String, Option, some, List, ◌≡◌, refl, ap, ◌∙◌, Distinct}
use postgres_config_operator.Errors.{ok}
use postgres_config_operator.Api.{NamespacedName, PostgresTable}
use postgres_config_operator.Effects.{History, done, wrap, ReconcileResult}
use postgres_config_operator.Effects.Hoare.{bind-Triple, wrap-Triple}
use postgres_config_operator.Events.{finished}
use postgres_config_operator.Effects.World.{Log, World}
use postgres_config_operator.Logging.{with_request_logger}
use postgres_config_operator.Table.{reconcile, reconcile_connected, reconcile_request}
use postgres_config_operator.Server.{
  Ends, Never, KeptQuiet, ended, get_or_stop-Ends, with_connection-Ends, Opens,
}
use postgres_config_operator.Server.Tables.{ServesTable, column_names, synced}
use postgres_config_operator.Server.Tables.Statements.{Has, Synced, reconcile-Ends}

module _ (w : World) (t : PostgresTable) (columns : History → Option (List String))
    (added : History → List String) (server : ServesTable w t columns added) where
  Synced-KeptQuiet :
      (s : Option (List String)) (r : ReconcileResult)
      → KeptQuiet (Synced w t columns added server s r)
  Synced-KeptQuiet s r q h quiet p = (p.0, server.after_quiet q h quiet ∙ p.1)

  reconcile_connected-Ends :
      (s : Option (List String))
      → Distinct (column_names t.spec.columns)
      → Ends
          (Has w t columns added server s)
          (reconcile_connected w t)
          (Synced w t columns added server s)
  unfolding reconcile_connected
  reconcile_connected-Ends s distinct h p =
      bind-Triple (Synced w t columns added server s) Never (Synced w t columns added server s)
        (Has w t columns added server s) (wrap "failed to reconcile" (reconcile w t)) _
        (wrap-Triple (Synced w t columns added server s) Never (Has w t columns added server s) _ _
          (reconcile-Ends w t columns added server s distinct))
        (λ r h p. rw p.0 (refl, server.after_quiet _ h tt ∙ p.1)) _ (server.after_quiet _ h tt ∙ p)

  -- The logger of the reconciler takes the values of the request, and the table can be read, as can
  -- the secret of its server, which accepts connections; and the server accepts the spec, whose
  -- columns have distinct names. Then `Reconcile` ends without an error, and not queued again. It
  -- leaves the columns of the spec if the table is new, and otherwise those that were there and,
  -- behind them, those of the spec that were missing.
  pub table_request-Synced :
      (log l : Log) (key : NamespacedName) (h : History)
      → w.with_values log "postgrestable" key ≡ ok l
      → Distinct (column_names t.spec.columns)
      → Opens w t.spec.postgres_ref t.metadata
      → w.table_at h key ≡ ok t
      → (h' : History) × (reconcile_request w log key h ≡ done finished h')
        × (columns h' ≡ some (synced (columns h) t.spec.columns))
  unfolding reconcile_request with_request_logger
  table_request-Synced log l key h logs distinct opens there =
      let s : Option (List String) = columns h in
      let quiet : KeptQuiet (Has w t columns added server s) =
        λ q h u e. server.after_quiet q h u ∙ e in
      let (r, h', e, end) =
        ended (Synced w t columns added server s) (reconcile_request w log key h) (
          rw logs (
            get_or_stop-Ends (Has w t columns added server s) quiet w
              (Synced w t columns added server s) "PostgresTable" w.table_at key _ t h there
              (with_connection-Ends (Has w t columns added server s) quiet w
                (Synced w t columns added server s) t.spec.postgres_ref t.metadata
                (reconcile_connected w t) opens (Synced-KeptQuiet s)
                (reconcile_connected-Ends s distinct))
              refl)) in
      (h', e ∙ ap (λ x. done x h') end.0, end.1)
