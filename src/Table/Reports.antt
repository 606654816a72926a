-- ===== src/Table/Reports.antt =====
-- What `Reconcile` of a PostgresTable returns and reports.
use postgres_config_operator.Base.{refl, inl, inr, if◌then◌else◌}
use postgres_config_operator.Api.{PostgresTable}
use postgres_config_operator.Effects.{History, ReconcileResult, wrap, ◌>>◌, return}
use postgres_config_operator.Effects.Hoare.{
  Always, Post, Triple, anything, attempt-Triple, bind-Triple, wrap-Triple, if-Triple,
}
use postgres_config_operator.Effects.World.{World}
use postgres_config_operator.Events.{complain, report, successful_reconcile, finished}
use postgres_config_operator.Events.Reports.{EndsInSuccess, Reports, Reports-requeued}
use postgres_config_operator.Table.{
  alter_existing_table, create_table, reconcile, reconcile_connected,
}

module _ (w : World) (t : PostgresTable) where
  reconcile-Reports : Triple Always (reconcile w t) (Reports Always) (λ _. ⊥)
  unfolding reconcile
  reconcile-Reports =
      attempt-Triple (λ _. Always) (λ _. ⊥) Always (Reports Always) Always (create_table w t)
        (complain t.metadata "failed to create table: %v") _ (anything Always (create_table w t))
        (λ e h _. inl (refl, tt))
        (λ created.
          if-Triple Always (Reports Always) (λ _. ⊥) created _ _ (λ _ h _. inr (refl, tt))
            (λ _.
              attempt-Triple (λ _. Always) (λ _. ⊥) Always (Reports Always) Always
                (alter_existing_table w t)
                (complain t.metadata "failed to alter existing table: %v") _
                (anything Always (alter_existing_table w t)) (λ e h _. inl (refl, tt))
                (λ _ h _. inr (refl, tt))))

  finish-Reports :
      (result : ReconcileResult)
      → Triple
          (Reports Always result)
          (if result.requeue
            then return result
            else (report t.metadata successful_reconcile "successfully reconcilled publication"
                >> return finished))
          (Reports EndsInSuccess)
          (λ _. ⊥)
  finish-Reports result =
      if-Triple (Reports Always result) (Reports EndsInSuccess) (λ _. ⊥) result.requeue _ _
        (λ again h s. Reports-requeued Always EndsInSuccess result h again s)
        (λ fine h s. inr (refl, refl))

  -- Once connected, the reconciliation of a table never ends in an error: it is queued again and its
  -- last event is a warning, or it is not queued again and its last event reports success.
  pub table_reconcile-Reports :
      (h : History) → Post (Reports EndsInSuccess) (λ _. ⊥) (reconcile_connected w t h)
  unfolding reconcile_connected
  table_reconcile-Reports h =
      bind-Triple (Reports Always) (λ _. ⊥) (Reports EndsInSuccess) Always
        (wrap "failed to reconcile" (reconcile w t)) _
        (wrap-Triple (Reports Always) (λ _. ⊥) Always _ _ reconcile-Reports) finish-Reports _ tt
