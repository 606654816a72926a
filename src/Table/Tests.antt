-- ===== src/Table/Tests.antt =====
-- Statements for tables, and the theorems at inputs.
use postgres_config_operator.Base.{String, true, false, [], ◌∷◌, ◌≡◌, refl, ◌↔◌, Listed, inl, inr}
use postgres_config_operator.Effects.Hoare.{Post}
use postgres_config_operator.Events.Reports.{EndsInSuccess, Reports}
use postgres_config_operator.Samples.{calm, column, jobs_table}
use postgres_config_operator.Table.{
  add_column_query, add_in_transaction, build_create_table_query, columns_to_add,
  reconcile_connected,
}
use postgres_config_operator.Table.Columns.{columns_to_add-settled, columns_to_add_iff}
use postgres_config_operator.Table.Reports.{table_reconcile-Reports}
use postgres_config_operator.Table.Transaction.{Committed, Undone, add_in_transaction_lem}

creation :
    build_create_table_query calm jobs_table.spec
    ≡ "CREATE TABLE \"public\".\"jobs\" (\"id\" \"text\" NOT NULL,\n\"title\" \"text\",\nPRIMARY KEY (\"id\"))"
unfolding build_create_table_query
creation = refl

addition :
    add_column_query calm jobs_table.spec (column "age" false false)
    ≡ "ALTER TABLE \"public\".\"jobs\" ADD COLUMN \"age\" \"text\" NOT NULL"
unfolding add_column_query
addition = refl

missing : columns_to_add ("id" ∷ []) jobs_table.spec.columns ≡ column "title" true false ∷ []
unfolding columns_to_add
missing = refl

columns_to_add_iff_example :
    Listed (column "title" true false) (columns_to_add ("id" ∷ []) jobs_table.spec.columns) ↔ (
      Listed (column "title" true false) jobs_table.spec.columns
      × (¬ Listed {A = String} "title" ("id" ∷ [])))
columns_to_add_iff_example =
    columns_to_add_iff ("id" ∷ []) (column "title" true false) jobs_table.spec.columns

nothing_twice : columns_to_add ("id" ∷ "title" ∷ []) jobs_table.spec.columns ≡ []
unfolding columns_to_add
nothing_twice =
    columns_to_add-settled ("id" ∷ []) ("id" ∷ "title" ∷ []) jobs_table.spec.columns
      (λ n. elim [ inl e ↦ inl e | inr l ↦ elim l [ ] ])
      (λ c. elim [ inl e ↦ inr (inl (cc)) | inr l ↦ elim l [ ] ])

add_in_transaction_lem_example :
    let cs = column "age" false false ∷ [] in
    Post
      (λ _. Committed calm jobs_table.spec cs [])
      (Undone calm jobs_table.spec cs [])
      (add_in_transaction calm jobs_table.spec cs [])
add_in_transaction_lem_example =
    add_in_transaction_lem calm jobs_table.spec (column "age" false false ∷ []) []

table_reconcile-Reports_example :
    Post (Reports EndsInSuccess) (λ _. ⊥) (reconcile_connected calm jobs_table [])
table_reconcile-Reports_example = table_reconcile-Reports calm jobs_table []
