-- ===== src/Table/Transaction.antt =====
-- The transaction in which `alterExistingTable` adds columns.
use postgres_config_operator.Base.{List, [], ◌∷◌, ◌++◌, ◌≡◌, refl, ◌⊎◌, inl, inr, ap, sym, subst}
use postgres_config_operator.Errors.{Err, ok, err}
use postgres_config_operator.Api.{PostgresColumn, PostgresTableSpec}
use postgres_config_operator.Effects.{
  Request, History, M, begin_tx, commit, perform, rollback, tx_exec, wrap, deferred, ◌>>◌,
}
use postgres_config_operator.Effects.Hoare.{
  Post, Triple, bind-Triple, deferred-Triple, perform-Triple, wrap-Triple,
}
use postgres_config_operator.Effects.Runs.{
  Runs, StopsIn, SentAll, step-Runs, bind-Runs, perform-Runs, wrap-Runs,
}
use postgres_config_operator.Effects.World.{World}
use postgres_config_operator.Table.{add_column_query, add_columns, add_in_transaction}

module _ (w : World) (t : PostgresTableSpec) where
  abbrev pub add_requests : List PostgresColumn → List Request
  add_requests [] = []
  add_requests (c ∷ cs) = tx_exec (add_column_query w t c) ∷ add_requests cs

  -- What the transaction holds, in order
  abbrev pub transaction_requests : List PostgresColumn → List Request
  transaction_requests cs = add_requests cs ++ commit ∷ []

  add_columns-Runs : (cs : List PostgresColumn) → Runs w (add_requests cs) (add_columns w t cs)
  unfolding add_columns
  add_columns-Runs [] h = (refl, tt)
  add_columns-Runs (c ∷ cs) h =
      step-Runs w _ (add_requests cs) _ (λ h'. w.tx_executed h' (add_column_query w t c)) _
        (λ _. refl) (λ _. add_columns-Runs cs) h

  -- The transaction was begun, its statements and the commit were sent and accepted, in order, and
  -- the deferred rollback is behind them.
  abbrev pub Committed : List PostgresColumn → History → History → Type 0
  Committed cs h h' =
      (before : History) × (h' ≡ rollback ∷ before)
      × (w.tx_begun h ≡ ok tt)
      × SentAll w (transaction_requests cs) (begin_tx ∷ h) before

  -- How it may fail: the transaction is refused, or it is begun and one of its statements or the
  -- commit is refused, those before it being accepted, and it is rolled back right behind that.
  abbrev pub Undone : List PostgresColumn → History → History → Type 0
  Undone cs h h' =
      ((e : Err) × (w.tx_begun h ≡ err e) × (h' ≡ begin_tx ∷ h))
      ⊎ ((before : History) × (h' ≡ rollback ∷ before)
          × (w.tx_begun h ≡ ok tt)
          × StopsIn w (transaction_requests cs) (begin_tx ∷ h) before)

  -- What the transaction holds, before the deferred rollback
  body : List PostgresColumn → M (Unit {0})
  body cs = add_columns w t cs >> wrap "failed to commit" (perform commit w.committed)

  body-Runs : (cs : List PostgresColumn) → Runs w (transaction_requests cs) (body cs)
  unfolding body
  body-Runs cs =
      bind-Runs w (add_requests cs) (commit ∷ []) (add_columns w t cs) _ (add_columns-Runs cs)
        (λ _. wrap-Runs w (commit ∷ []) _ _ (perform-Runs w commit w.committed (λ _. refl)))

  abbrev Begun : History → History → Type 0
  Begun h h' = (h' ≡ begin_tx ∷ h) × (w.tx_begun h ≡ ok tt)

  Begun-Triple :
      (cs : List PostgresColumn) (h : History)
      → Triple (Begun h) (deferred rollback (body cs)) (λ _. Committed cs h) (Undone cs h)
  Begun-Triple cs h h' begun =
      let qs = transaction_requests cs in
      let Q : Unit {0} → History → Type 0 = λ _. SentAll w qs (begin_tx ∷ h) in
      let E : History → Type 0 = StopsIn w qs (begin_tx ∷ h) in
      deferred-Triple Q E (λ _. Committed cs h) (Undone cs h) (λ h'. h' ≡ begin_tx ∷ h) rollback
        (body cs) (λ _ before all. (before, refl, begun.1, all))
        (λ before stops. inr (before, refl, begun.1, stops))
        (λ h' e. subst (λ x. Post Q E (body cs x)) (sym e) (body-Runs cs (begin_tx ∷ h))) h' begun.0

  -- The columns are added in one transaction. If that succeeds, the server accepted the transaction,
  -- the statement for each column, in order, and the commit; the rollback behind it is the deferred
  -- one. If it fails, either the server refused the transaction at once; or it refused one of the
  -- statements or the commit, having accepted those before it, and what follows is the rollback.
  pub add_in_transaction_lem :
      (cs : List PostgresColumn) (h : History)
      → Post (λ _. Committed cs h) (Undone cs h) (add_in_transaction w t cs h)
  unfolding add_in_transaction body
  add_in_transaction_lem cs h =
      bind-Triple (λ _. Begun h) (Undone cs h) (λ _. Committed cs h) (λ h'. h' ≡ h)
        (wrap "failed to begin transaction" (perform begin_tx w.tx_begun))
        (λ _. deferred rollback (body cs))
        (wrap-Triple (λ _. Begun h) (Undone cs h) _ _ _
          (perform-Triple (λ h'. h' ≡ h) (λ _. Begun h) (Undone cs h) begin_tx w.tx_begun
            (λ _ h' e s. (ap (λ l. begin_tx ∷ l) e, rw e at s))
            (λ x h' e s. inl (x, rw e at s, ap (λ l. begin_tx ∷ l) e))))
        (λ _. Begun-Triple cs h) h refl
