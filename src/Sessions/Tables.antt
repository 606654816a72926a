-- ===== src/Sessions/Tables.antt =====
-- The table controller, its connection and its transaction.
use postgres_config_operator.Base.{List, [], ◌∷◌, ◌⊎◌, inl, inr, refl, ap}
use postgres_config_operator.Errors.{has_code}
use postgres_config_operator.Api.{NamespacedName, PostgresColumn, PostgresTable, PostgresTableSpec}
use postgres_config_operator.Effects.{
  History, answer, begin_tx, commit, history, perform, query, rollback, text, wrap,
}
use postgres_config_operator.Effects.Hoare.{
  Keeps, Keeps-history, answer-Keeps, attempt-Keeps, bind-Keeps, bind-Triple, deferred-Triple,
  if-Keeps, perform-Keeps, perform-Triple, weaken-Triple, wrap-Keeps, wrap-Triple,
}
use postgres_config_operator.Effects.World.{Log, World, do_exec, do_tx_exec}
use postgres_config_operator.Manager.Keeping.{exec-Keeps}
use postgres_config_operator.Table.{
  add_column_query, add_columns, add_in_transaction, alter_existing_table, build_create_table_query,
  column_names_query, columns_to_add, create_table, duplicate_table, ensure_schema_exists,
  reconcile, reconcile_connected, reconcile_request,
}
use postgres_config_operator.Logging.{with_request_logger}
use postgres_config_operator.Sessions.{
  Ends, after_rollback, offline, online, in_transaction, online-exec,
}
use postgres_config_operator.Sessions.Connecting.{get_or_stop-Keeps, with_connection-Keeps}

module _ (w : World) where
  add_columns-Keeps :
      (t : PostgresTableSpec) (cs : List PostgresColumn)
      → Keeps (Ends w in_transaction) (add_columns w t cs)
  unfolding add_columns
  add_columns-Keeps t [] = λ h e. e
  add_columns-Keeps t (c ∷ cs) =
      bind-Keeps (Ends w in_transaction)
        (wrap "failed to ALTER TABLE" (do_tx_exec w (add_column_query w t c))) _
        (wrap-Keeps (Ends w in_transaction) _ _ (
          perform-Keeps (Ends w in_transaction) _ (λ h. w.tx_executed h (add_column_query w t c))
            (λ h e. (e.0, (e.0, e.1)))))
        (λ _. add_columns-Keeps t cs)

  -- The connection is open, perhaps with a transaction.
  IsUp : History → Type 0
  IsUp h = Ends w online h ⊎ Ends w in_transaction h

  IsUp-rollback : (h : History) → IsUp h → Ends w online (rollback ∷ h)
  unfolding IsUp
  IsUp-rollback h (inl e) = (ap after_rollback e.0, ((λ off. cc), e.1))
  IsUp-rollback h (inr e) = (ap after_rollback e.0, ((λ off. cc), e.1))

  add_in_transaction-Keeps :
      (t : PostgresTableSpec) (cs : List PostgresColumn)
      → Keeps (Ends w online) (add_in_transaction w t cs)
  unfolding add_in_transaction IsUp
  add_in_transaction-Keeps t cs =
      bind-Triple (λ _. Ends w in_transaction) (Ends w online) (λ _. Ends w online) (Ends w online)
        (wrap "failed to begin transaction" (perform begin_tx (λ h. w.tx_begun h))) _
        (wrap-Triple (λ _. Ends w in_transaction) (Ends w online) (Ends w online) _ _
          (perform-Triple (Ends w online) (λ _. Ends w in_transaction) (Ends w online) begin_tx
            (λ h. w.tx_begun h) (λ _ h e s. (rw s refl, (e.0, e.1)))
            (λ _ h e s. (rw s e.0, (e.0, e.1)))))
        (λ _.
          deferred-Triple (λ _. Ends w online) IsUp (λ _. Ends w online) (Ends w online)
            (Ends w in_transaction) rollback _ (λ _ h e. IsUp-rollback h (inl e)) IsUp-rollback
            (bind-Triple (λ _. Ends w in_transaction) IsUp (λ _. Ends w online)
              (Ends w in_transaction) (add_columns w t cs)
              (λ _. wrap "failed to commit" (perform commit (λ h. w.committed h)))
              (weaken-Triple (Ends w in_transaction) (λ _. Ends w in_transaction)
                (Ends w in_transaction) IsUp (λ h e. inr e) (add_columns w t cs)
                (add_columns-Keeps t cs))
              (λ _.
                wrap-Triple (λ _. Ends w online) IsUp (Ends w in_transaction) "failed to commit" _
                  (perform-Triple (Ends w in_transaction) (λ _. Ends w online) IsUp commit
                    (λ h. w.committed h) (λ _ h e s. (refl, (e.0, e.1)))
                    (λ _ h e s. inl (refl, (e.0, e.1)))))))

  alter_existing_table-Keeps :
      (t : PostgresTable) → Keeps (Ends w online) (alter_existing_table w t)
  unfolding alter_existing_table
  alter_existing_table-Keeps t =
      let args = text t.spec.schema ∷ text t.spec.name ∷ [] in
      bind-Keeps (Ends w online)
        (wrap "failed to get existing column names"
          (perform (query column_names_query args) (λ h. w.names_found h column_names_query args)))
        _
        (wrap-Keeps (Ends w online) _ _ (
          perform-Keeps (Ends w online) _ (λ h. w.names_found h column_names_query args)
            (λ h e. (e.0, (e.0, e.1)))))
        (λ names. add_in_transaction-Keeps t.spec (columns_to_add names t.spec.columns))

  create_table-Keeps : (t : PostgresTable) → Keeps (Ends w online) (create_table w t)
  unfolding create_table ensure_schema_exists
  create_table-Keeps t =
      bind-Keeps (Ends w online) (wrap "failed to ensure schema exists" (ensure_schema_exists w t))
        _
        (wrap-Keeps (Ends w online) _ _
          (wrap-Keeps (Ends w online) _ _ (exec-Keeps (Ends w online) (online-exec w) w _ [])))
        (λ _.
          attempt-Keeps (Ends w online) (do_exec w (build_create_table_query w t.spec) []) _ _
            (exec-Keeps (Ends w online) (online-exec w) w _ [])
            (λ e. if-Keeps (Ends w online) (has_code e duplicate_table) _ _ (λ h g. g) (λ h g. g))
            (λ _ h g. g))

  reconcile-Keeps : (t : PostgresTable) → Keeps (Ends w online) (reconcile w t)
  unfolding reconcile
  reconcile-Keeps t =
      attempt-Keeps (Ends w online) (create_table w t) _ _ (create_table-Keeps t)
        (λ _ h e. (e.0, (tt, e.1)))
        (λ created.
          if-Keeps (Ends w online) created _ _ (λ h e. e)
            (attempt-Keeps (Ends w online) (alter_existing_table w t) _ _
              (alter_existing_table-Keeps t) (λ _ h e. (e.0, (tt, e.1))) (λ _ h e. e)))

  reconcile_connected-Keeps : (t : PostgresTable) → Keeps (Ends w online) (reconcile_connected w t)
  unfolding reconcile_connected
  reconcile_connected-Keeps t h e =
      bind-Keeps (Ends w online) (wrap "failed to reconcile" (reconcile w t)) _
        (wrap-Keeps (Ends w online) _ _ (reconcile-Keeps t))
        (λ result. if-Keeps (Ends w online) result.requeue _ _ (λ h e. e) (λ h e. (e.0, (tt, e.1))))
        _ (e.0, (tt, e.1))

  -- After requests that respect the state of the connection and leave none open, `Reconcile` of a
  -- table sends statements only while its connection is open, adds columns only within a
  -- transaction, and leaves neither a transaction nor a connection open, however it ends.
  pub table_request-Ends :
      (log : Log) (key : NamespacedName) (h : History)
      → Ends w offline h
      → Ends w offline (history (reconcile_request w log key h))
  unfolding reconcile_request
  table_request-Ends log key h e = Keeps-history (Ends w offline) _ (
      bind-Keeps (Ends w offline)
        (answer (with_request_logger w.with_values [] key "postgrestable" log)) _
        (answer-Keeps (Ends w offline)
          (with_request_logger w.with_values [] key "postgrestable" log))
        (λ _. get_or_stop-Keeps w "PostgresTable" w.table_at key _ (λ t.
          with_connection-Keeps w t.spec.postgres_ref t.metadata _ (reconcile_connected-Keeps t)))
        h e)
