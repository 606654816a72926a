-- ===== src/DeepCopy/Specs.antt =====
-- The structs without metadata: what they stand for in memory, and that they are copied right.
use postgres_config_operator.Base.{ℕ, ◌≡◌}
use postgres_config_operator.Api.{
  PostgresConfigSpec, PostgresPublicationSpec, PostgresTableSpec, Publication, Table,
}
use postgres_config_operator.DeepCopy.Parts.{copy_value, copy_slice}
use postgres_config_operator.DeepCopy.Structs.{
  copy_config_spec, copy_publication, copy_publication_spec, copy_table, copy_table_spec,
}
use postgres_config_operator.DeepCopy.Memory.{
  Library, Heap, StoredConfigSpec, StoredPublication, StoredPublicationSpec, StoredTable,
  StoredTableSpec,
}
use postgres_config_operator.DeepCopy.Kinds.{
  column_kind, identifier_kind, publication_kind, string_kind, table_kind,
}
use postgres_config_operator.DeepCopy.Gives.{return-Gives, bind-Gives}
use postgres_config_operator.DeepCopy.Copier.{HoldsSlice, IsCopier, IsValue, copy_value-IsCopier}
use postgres_config_operator.DeepCopy.Slices.{copy_slice-IsCopier}

module _ {lib : Library} where
  pub strings-IsCopier :
      IsCopier {lib = lib} (HoldsSlice string_kind IsValue) (copy_slice string_kind copy_value)
  strings-IsCopier = copy_slice-IsCopier copy_value-IsCopier string_kind

  pub identifiers-IsCopier :
      IsCopier {lib = lib}
        (HoldsSlice identifier_kind IsValue)
        (copy_slice identifier_kind copy_value)
  identifiers-IsCopier = copy_slice-IsCopier copy_value-IsCopier identifier_kind

  columns-IsCopier :
      IsCopier {lib = lib} (HoldsSlice column_kind IsValue) (copy_slice column_kind copy_value)
  columns-IsCopier = copy_slice-IsCopier copy_value-IsCopier column_kind

  pub record HoldsPublication (lo : ℕ) (h : Heap lib) (t : StoredPublication) (v : Publication)
      : Type 0 where
    pub name : t.name ≡ v.name
    pub tables : HoldsSlice identifier_kind IsValue lo h t.tables v.tables
    pub operations : HoldsSlice string_kind IsValue lo h t.operations v.operations

  pub copy_publication-IsCopier : IsCopier HoldsPublication copy_publication
  unfolding copy_publication
  copy_publication-IsCopier = record {
    stable = λ lo h h' t v keeps held. record {
      name = held.name;
      tables = identifiers-IsCopier.stable lo h h' t.tables v.tables keeps held.tables;
      operations = strings-IsCopier.stable lo h h' t.operations v.operations keeps held.operations;
    };
    copies = λ base t v held.
        bind-Gives (identifiers-IsCopier.copies base t.tables v.tables held.tables) (λ new0.
          bind-Gives (strings-IsCopier.copies base t.operations v.operations held.operations)
            (λ new1. return-Gives base _ _ (λ h ext held1 held0. record {
              name = held.name;
              tables = held0;
              operations = held1;
            })));
  }

  publications-IsCopier :
      IsCopier {lib = lib}
        (HoldsSlice publication_kind HoldsPublication)
        (copy_slice publication_kind copy_publication)
  publications-IsCopier = copy_slice-IsCopier copy_publication-IsCopier publication_kind

  pub record HoldsTable (lo : ℕ) (h : Heap lib) (t : StoredTable) (v : Table) : Type 0 where
    pub identifier : t.identifier ≡ v.identifier
    pub columns : HoldsSlice column_kind IsValue lo h t.columns v.columns

  pub copy_table-IsCopier : IsCopier HoldsTable copy_table
  unfolding copy_table
  copy_table-IsCopier = record {
    stable = λ lo h h' t v keeps held. record {
      identifier = held.identifier;
      columns = columns-IsCopier.stable lo h h' t.columns v.columns keeps held.columns;
    };
    copies = λ base t v held.
        bind-Gives (columns-IsCopier.copies base t.columns v.columns held.columns) (λ new0.
          return-Gives base _ _
            (λ h ext held0. record { identifier = held.identifier; columns = held0 }));
  }

  tables-IsCopier :
      IsCopier {lib = lib} (HoldsSlice table_kind HoldsTable) (copy_slice table_kind copy_table)
  tables-IsCopier = copy_slice-IsCopier copy_table-IsCopier table_kind

  pub record HoldsConfigSpec (lo : ℕ) (h : Heap lib) (t : StoredConfigSpec) (v : PostgresConfigSpec)
      : Type 0 where
    pub postgres_ref : t.postgres_ref ≡ v.postgres_ref
    pub publications :
        HoldsSlice publication_kind HoldsPublication lo h t.publications v.publications
    pub tables : HoldsSlice table_kind HoldsTable lo h t.tables v.tables

  pub copy_config_spec-IsCopier : IsCopier HoldsConfigSpec copy_config_spec
  unfolding copy_config_spec
  copy_config_spec-IsCopier = record {
    stable = λ lo h h' t v keeps held. record {
      postgres_ref = held.postgres_ref;
      publications =
          publications-IsCopier.stable lo h h' t.publications v.publications keeps
            held.publications;
      tables = tables-IsCopier.stable lo h h' t.tables v.tables keeps held.tables;
    };
    copies = λ base t v held.
        bind-Gives
          (publications-IsCopier.copies base t.publications v.publications held.publications)
          (λ new0. bind-Gives (tables-IsCopier.copies base t.tables v.tables held.tables) (λ new1.
            return-Gives base _ _ (λ h ext held1 held0. record {
              postgres_ref = held.postgres_ref;
              publications = held0;
              tables = held1;
            })));
  }

  pub record HoldsPublicationSpec (lo : ℕ) (h : Heap lib) (t : StoredPublicationSpec)
      (v : PostgresPublicationSpec) : Type 0 where
    pub postgres_ref : t.postgres_ref ≡ v.postgres_ref
    pub name : t.name ≡ v.name
    pub tables : HoldsSlice identifier_kind IsValue lo h t.tables v.tables
    pub operations : HoldsSlice string_kind IsValue lo h t.operations v.operations

  pub copy_publication_spec-IsCopier : IsCopier HoldsPublicationSpec copy_publication_spec
  unfolding copy_publication_spec
  copy_publication_spec-IsCopier = record {
    stable = λ lo h h' t v keeps held. record {
      postgres_ref = held.postgres_ref;
      name = held.name;
      tables = identifiers-IsCopier.stable lo h h' t.tables v.tables keeps held.tables;
      operations = strings-IsCopier.stable lo h h' t.operations v.operations keeps held.operations;
    };
    copies = λ base t v held.
        bind-Gives (identifiers-IsCopier.copies base t.tables v.tables held.tables) (λ new0.
          bind-Gives (strings-IsCopier.copies base t.operations v.operations held.operations)
            (λ new1. return-Gives base _ _ (λ h ext held1 held0. record {
              postgres_ref = held.postgres_ref;
              name = held.name;
              tables = held0;
              operations = held1;
            })));
  }

  pub record HoldsTableSpec (lo : ℕ) (h : Heap lib) (t : StoredTableSpec) (v : PostgresTableSpec)
      : Type 0 where
    pub postgres_ref : t.postgres_ref ≡ v.postgres_ref
    pub identifier : t.identifier ≡ v.identifier
    pub columns : HoldsSlice column_kind IsValue lo h t.columns v.columns

  pub copy_table_spec-IsCopier : IsCopier HoldsTableSpec copy_table_spec
  unfolding copy_table_spec
  copy_table_spec-IsCopier = record {
    stable = λ lo h h' t v keeps held. record {
      postgres_ref = held.postgres_ref;
      identifier = held.identifier;
      columns = columns-IsCopier.stable lo h h' t.columns v.columns keeps held.columns;
    };
    copies = λ base t v held.
        bind-Gives (columns-IsCopier.copies base t.columns v.columns held.columns) (λ new0.
          return-Gives base _ _ (λ h ext held0. record {
            postgres_ref = held.postgres_ref;
            identifier = held.identifier;
            columns = held0;
          }));
  }
