-- ===== src/Server/Tables/Again.antt =====
-- Reconciling a table again and again: `Reconcile` is called once more after each end, as the
-- controller runtime does at every resynchronisation.
use mathlib.Core.List.{append-nil}
use postgres_config_operator.Base.{
  ℕ, zero, suc, String, Option, none, some, List, [], ◌++◌, ◌≡◌, refl, sym, ap, ◌∙◌, Listed-map,
  Listed-append_left, Listed-append_right, Distinct,
}
use postgres_config_operator.Errors.{ok}
use postgres_config_operator.Api.{NamespacedName, PostgresColumn, PostgresTable}
use postgres_config_operator.Effects.{History, M, done, return, ◌>>◌}
use postgres_config_operator.Effects.Steps.{bind-done}
use postgres_config_operator.Effects.World.{Log, World}
use postgres_config_operator.Table.{columns_to_add, reconcile_request}
use postgres_config_operator.Table.Columns.{columns_to_add_iff, columns_to_add-settled}
use postgres_config_operator.Server.{Opens}
use postgres_config_operator.Server.Tables.{ServesTable, column_names, synced}
use postgres_config_operator.Server.Tables.Fitting.{columns_to_add-lacking}
use postgres_config_operator.Server.Tables.Requests.{table_request-Synced}

name_of : PostgresColumn → String
name_of c = c.name

nothing_left_new : (cs : List PostgresColumn) → columns_to_add (column_names cs) cs ≡ []
nothing_left_new cs =
    columns_to_add-settled [] (column_names cs) cs (λ n l. elim l [ ])
      (λ c l. Listed-map (λ d. d.name) c cs ((columns_to_add_iff [] c cs).0 l).0)

nothing_left_old :
    (names : List String) (cs : List PostgresColumn)
    → columns_to_add (names ++ column_names (columns_to_add names cs)) cs ≡ []
nothing_left_old names cs =
    let new = columns_to_add names cs in
    columns_to_add-settled names (names ++ column_names new) cs
      (λ n l. Listed-append_left n names (column_names new) l)
      (λ c l.
        Listed-append_right c.name names (column_names new) (Listed-map (λ d. d.name) c new l))

-- A table that is in sync stays as it is.
synced-synced :
    (s : Option (List String)) (cs : List PostgresColumn)
    → synced (some (synced s cs)) cs ≡ synced s cs
unfolding synced
synced-synced none cs =
    rw (sym (columns_to_add-lacking (column_names cs) cs), nothing_left_new cs)
      (append-nil (column_names cs))
synced-synced (some names) cs =
    let now = names ++ column_names (columns_to_add names cs) in
    rw
      (
        sym (columns_to_add-lacking names cs),
        sym (columns_to_add-lacking now cs),
        nothing_left_old names cs,
      )
      (append-nil now)

unfoldable pub reconcile_times : World → Log → NamespacedName → ℕ → M (Unit {0})
reconcile_times w log key zero = return tt
reconcile_times w log key (suc n) = reconcile_request w log key >> reconcile_times w log key n

module _ (w : World) (t : PostgresTable) (columns : History → Option (List String))
    (added : History → List String) (server : ServesTable w t columns added) where
  stays-Synced :
      (n : ℕ) (s : Option (List String)) (log l : Log) (key : NamespacedName) (h : History)
      → w.with_values log "postgrestable" key ≡ ok l
      → Distinct (column_names t.spec.columns)
      → Opens w t.spec.postgres_ref t.metadata
      → ((h : History) → w.table_at h key ≡ ok t)
      → columns h ≡ some (synced s t.spec.columns)
      → (h' : History) × (reconcile_times w log key n h ≡ done tt h')
        × (columns h' ≡ some (synced s t.spec.columns))
  unfolding reconcile_times
  stays-Synced zero s log l key h logs distinct opens there now = (h, refl, now)
  stays-Synced (suc n) s log l key h logs distinct opens there now =
      let (h', e, then) =
        table_request-Synced w t columns added server log l key h logs distinct opens (there h) in
      let same : columns h' ≡ some (synced s t.spec.columns) =
        then
        ∙ ap (λ x. some (synced x t.spec.columns)) now
        ∙ ap some (synced-synced s t.spec.columns) in
      let (h'', e', end) = stays-Synced n s log l key h' logs distinct opens there same in
      (h'', bind-done (reconcile_request w log key) (λ _. reconcile_times w log key n) e ∙ e', end)

  -- The logger of the reconciler takes the values of the request, and the table can be read
  -- whenever it is asked for, as can the secret of its server, which accepts connections; and the
  -- server accepts the spec, whose columns have distinct names. Then `Reconcile` of the table any
  -- number of times in a row, once or more, ends each time without an error, and in the end the
  -- table has the columns that the first time left: those of the spec if it was new, and otherwise
  -- those that were there and, behind them, those of the spec that were missing.
  pub reconcile_times-Synced :
      (n : ℕ) (log l : Log) (key : NamespacedName) (h : History)
      → w.with_values log "postgrestable" key ≡ ok l
      → Distinct (column_names t.spec.columns)
      → Opens w t.spec.postgres_ref t.metadata
      → ((h : History) → w.table_at h key ≡ ok t)
      → (h' : History) × (reconcile_times w log key (suc n) h ≡ done tt h')
        × (columns h' ≡ some (synced (columns h) t.spec.columns))
  unfolding reconcile_times
  reconcile_times-Synced n log l key h logs distinct opens there =
      let (h', e, then) =
        table_request-Synced w t columns added server log l key h logs distinct opens (there h) in
      let (h'', e', end) = stays-Synced n (columns h) log l key h' logs distinct opens there then in
      (h'', bind-done (reconcile_request w log key) (λ _. reconcile_times w log key n) e ∙ e', end)
