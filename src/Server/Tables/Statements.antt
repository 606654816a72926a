-- ===== src/Server/Tables/Statements.antt =====
-- What the reconciliation of a table leaves on a server that accepts its columns.
use mathlib.Core.List.{append-nil, append_assoc}
use postgres_config_operator.Base.{
  String, Bool, true, false, Option, none, some, List, [], ◌∷◌, ◌++◌, ◌≡◌, refl, sym, ap, ◌∙◌,
  subst, Distinct,
}
use postgres_config_operator.Api.{PostgresColumn, PostgresTable}
use postgres_config_operator.Effects.{
  History, begin_tx, commit, exec, query, rollback, perform, wrap, ReconcileResult,
}
use postgres_config_operator.Effects.Hoare.{
  attempt-Triple, bind-Triple, deferred-Triple, wrap-Triple,
}
use postgres_config_operator.Events.{finished}
use postgres_config_operator.Effects.World.{World, do_exec, do_tx_exec}
use postgres_config_operator.Table.{
  add_columns, add_in_transaction, alter_existing_table, column_names_query, columns_to_add,
  create_schema_query, create_table, ensure_schema_exists, reconcile,
}
use postgres_config_operator.Table.Texts.{
  add_column_query_lem, add_text, build_create_table_query_lem, create_text, schema_text,
}
use postgres_config_operator.Server.{Ends, Never, perform-Ends, refused-Ends}
use postgres_config_operator.Server.Tables.Fitting.{
  Fits, columns_to_add-Fits, columns_to_add-lacking,
}
use postgres_config_operator.Server.Tables.{ServesTable, column_names, name_arguments, synced}

module _ (w : World) (t : PostgresTable) (columns : History → Option (List String))
    (added : History → List String) (server : ServesTable w t columns added) where
  -- The table has these columns, or is not there.
  abbrev pub Has : Option (List String) → History → Type 0
  Has s h = columns h ≡ s

  -- A transaction is open, in which these columns were added.
  abbrev Adds : List String → List String → History → Type 0
  Adds names new h = (columns h ≡ some names) × (added h ≡ new)

  add_columns-Ends :
      (names new : List String) (cs : List PostgresColumn)
      → Fits t.spec.columns names new cs
      → Ends (Adds names new) (add_columns w t.spec cs) (λ _. Adds names (new ++ column_names cs))
  unfolding add_columns
  add_columns-Ends names new [] fits = λ h p. (p.0, p.1 ∙ sym (append-nil new))
  add_columns-Ends names new (c ∷ cs) fits = rw (add_column_query_lem w t.spec c) (
      bind-Triple (λ _. Adds names (new ++ (c.name ∷ []))) Never
        (λ _. Adds names (new ++ column_names (c ∷ cs))) (Adds names new)
        (wrap "failed to ALTER TABLE" (do_tx_exec w (add_text w t.spec c))) _
        (wrap-Triple (λ _. Adds names (new ++ (c.name ∷ []))) Never (Adds names new) _ _
          (perform-Ends (Adds names new) (λ _. Adds names (new ++ (c.name ∷ []))) _
            (λ h. w.tx_executed h (add_text w t.spec c)) tt
            (λ h p. server.adds h names c p.0 fits.0 (rw p.1 fits.1))
            (λ h p. (
              server.after_quiet _ h tt ∙ p.0,
              server.after_add h c fits.0 ∙ ap (λ l. l ++ (c.name ∷ [])) p.1,
            ))))
        (λ _.
          subst
            (λ l.
              Ends (Adds names (new ++ (c.name ∷ []))) (add_columns w t.spec cs)
                (λ _. Adds names l))
            (append_assoc new (c.name ∷ []) (column_names cs))
            (add_columns-Ends names (new ++ (c.name ∷ [])) cs fits.2)))

  add_in_transaction-Ends :
      (names : List String) (cs : List PostgresColumn)
      → Fits t.spec.columns names [] cs
      → Ends
          (Has (some names))
          (add_in_transaction w t.spec cs)
          (λ _. Has (some (names ++ column_names cs)))
  unfolding add_in_transaction
  add_in_transaction-Ends names cs fits =
      bind-Triple (λ _. Adds names []) Never (λ _. Has (some (names ++ column_names cs)))
        (Has (some names))
        (wrap "failed to begin transaction" (perform begin_tx (λ h. w.tx_begun h))) _
        (wrap-Triple (λ _. Adds names []) Never (Has (some names)) _ _
          (perform-Ends (Has (some names)) (λ _. Adds names []) begin_tx (λ h. w.tx_begun h) tt
            (λ h p. server.begins h)
            (λ h p. (server.after_quiet begin_tx h tt ∙ p, server.after_begin h))))
        (λ _.
          deferred-Triple (λ _. Has (some (names ++ column_names cs))) Never
            (λ _. Has (some (names ++ column_names cs))) Never (Adds names []) rollback _
            (λ _ h p. server.after_quiet rollback h tt ∙ p) (λ h never. never)
            (bind-Triple (λ _. Adds names (column_names cs)) Never
              (λ _. Has (some (names ++ column_names cs))) (Adds names []) (add_columns w t.spec cs)
              _ (add_columns-Ends names [] cs fits)
              (λ _.
                wrap-Triple (λ _. Has (some (names ++ column_names cs))) Never
                  (Adds names (column_names cs)) "failed to commit" _
                  (perform-Ends (Adds names (column_names cs))
                    (λ _. Has (some (names ++ column_names cs))) commit (λ h. w.committed h) tt
                    (λ h p. server.commits h)
                    (λ h p. server.after_commit h names p.0 ∙ ap (λ l. some (names ++ l)) p.1)))))

  alter_existing_table-Ends :
      (names : List String)
      → Distinct (column_names t.spec.columns)
      → Ends
          (Has (some names))
          (alter_existing_table w t)
          (λ _. Has (some (synced (some names) t.spec.columns)))
  unfolding alter_existing_table synced
  alter_existing_table-Ends names distinct =
      let args = name_arguments t in
      let cs = t.spec.columns in
      bind-Triple (λ found h. (found ≡ names) × Has (some names) h) Never
        (λ _. Has (some (synced (some names) cs))) (Has (some names))
        (wrap "failed to get existing column names"
          (perform (query column_names_query args) (λ h. w.names_found h column_names_query args)))
        _
        (wrap-Triple (λ found h. (found ≡ names) × Has (some names) h) Never (Has (some names)) _ _
          (perform-Ends (Has (some names)) (λ found h. (found ≡ names) × Has (some names) h) _
            (λ h. w.names_found h column_names_query args) names (λ h p. server.lists h names p)
            (λ h p. (refl, server.after_quiet (query column_names_query args) h tt ∙ p))))
        (λ found h p.
          rw (p.0, sym (columns_to_add-lacking names cs))
            (add_in_transaction-Ends names (columns_to_add names cs)
              (columns_to_add-Fits names cs distinct) h p.1))

  -- The same, and the schema is there.
  abbrev Ready : Option (List String) → History → Type 0
  Ready s h = Has s h × (server.schema_there h ≡ true)

  ensure_schema_exists-Ends :
      (s : Option (List String)) → Ends (Has s) (ensure_schema_exists w t) (λ _. Ready s)
  unfolding ensure_schema_exists create_schema_query
  ensure_schema_exists-Ends s =
      wrap-Triple (λ _. Ready s) Never (Has s) _ _
        (perform-Ends (Has s) (λ _. Ready s) _ (λ h. w.executed h (schema_text w t.spec.schema) [])
          tt (λ h p. server.makes_schema h)
          (λ h p. (server.after_schema h ∙ p, server.after_schema_there h)))

  -- The rest of `create_table`, behind the schema
  abbrev Created : Option (List String) → Bool → History → Type 0
  Created none created h = (created ≡ true) × Has (some (column_names t.spec.columns)) h
  Created (some names) created h = (created ≡ false) × Has (some names) h

  create_table-Ends : (s : Option (List String)) → Ends (Has s) (create_table w t) (Created s)
  unfolding create_table
  create_table-Ends none = rw (build_create_table_query_lem w t.spec) (
      bind-Triple (λ _. Ready none) Never (Created none) (Has none)
        (wrap "failed to ensure schema exists" (ensure_schema_exists w t)) _
        (wrap-Triple (λ _. Ready none) Never (Has none) _ _ (ensure_schema_exists-Ends none))
        (λ _.
          attempt-Triple (λ _. Has (some (column_names t.spec.columns))) Never Never (Created none)
            (Ready none) (do_exec w (create_text w t.spec) []) _ _
            (perform-Ends (Ready none) (λ _. Has (some (column_names t.spec.columns))) _
              (λ h. w.executed h (create_text w t.spec) []) tt (λ h p. server.creates h p.0 p.1)
              (λ h p. server.after_create h p.0 p.1))
            (λ e h never. absurd never) (λ _ h p. (refl, p))))
  create_table-Ends (some names) = rw (build_create_table_query_lem w t.spec) (
      bind-Triple (λ _. Ready (some names)) Never (Created (some names)) (Has (some names))
        (wrap "failed to ensure schema exists" (ensure_schema_exists w t)) _
        (wrap-Triple (λ _. Ready (some names)) Never (Has (some names)) _ _
          (ensure_schema_exists-Ends (some names)))
        (λ _.
          refused-Ends (Ready (some names)) (Created (some names)) (exec (create_text w t.spec) [])
            (λ h. w.executed h (create_text w t.spec) []) _ _
            (λ h p.
              let (e, refused, duplicate) = server.refuses h names p.0 in
              (e, refused, rw duplicate (refl, server.after_refusal h names p.0)))))

  -- A reconciliation that is not queued again, and the columns that it leaves
  abbrev pub Synced : Option (List String) → ReconcileResult → History → Type 0
  Synced s r h = (r ≡ finished) × Has (some (synced s t.spec.columns)) h

  pub reconcile-Ends :
      (s : Option (List String))
      → Distinct (column_names t.spec.columns)
      → Ends (Has s) (reconcile w t) (Synced s)
  unfolding reconcile synced
  reconcile-Ends none distinct =
      attempt-Triple (Created none) Never Never (Synced none) (Has none) (create_table w t) _ _
        (create_table-Ends none) (λ e h never. absurd never) (λ created h p. rw p.0 (refl, p.1))
  reconcile-Ends (some names) distinct =
      attempt-Triple (Created (some names)) Never Never (Synced (some names)) (Has (some names))
        (create_table w t) _ _ (create_table-Ends (some names)) (λ e h never. absurd never)
        (λ created h p. rw p.0 (
          attempt-Triple (λ _. Has (some (synced (some names) t.spec.columns))) Never Never
            (Synced (some names)) (Has (some names)) (alter_existing_table w t) _ _
            (alter_existing_table-Ends names distinct) (λ e h never. absurd never)
            (λ _ h p. (refl, p)) h p.1))
