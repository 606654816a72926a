-- ===== src/DeepCopy/Grants.antt =====
-- The spec of a grant, with its ten slices.
use postgres_config_operator.Base.{length, ℕ, ◌≡◌}
use postgres_config_operator.Api.{PostgresGrantSpec}
use postgres_config_operator.DeepCopy.Structs.{copy_grant_spec}
use postgres_config_operator.DeepCopy.Memory.{Library, Heap, StoredGrantSpec}
use postgres_config_operator.DeepCopy.Kinds.{identifier_kind, string_kind}
use postgres_config_operator.DeepCopy.Gives.{Keeps, Gives, return-Gives, bind-Gives}
use postgres_config_operator.DeepCopy.Copier.{HoldsSlice, IsCopier, IsValue}
use postgres_config_operator.DeepCopy.Specs.{identifiers-IsCopier, strings-IsCopier}

module _ {lib : Library} where
  pub record HoldsGrantSpec (lo : ℕ) (h : Heap lib) (t : StoredGrantSpec) (v : PostgresGrantSpec)
      : Type 0 where
    pub postgres_ref : t.postgres_ref ≡ v.postgres_ref
    pub role : t.role ≡ v.role
    pub tables : HoldsSlice identifier_kind IsValue lo h t.tables v.tables
    pub table_privileges : HoldsSlice string_kind IsValue lo h t.table_privileges v.table_privileges
    pub sequences : HoldsSlice identifier_kind IsValue lo h t.sequences v.sequences
    pub sequence_privileges :
        HoldsSlice string_kind IsValue lo h t.sequence_privileges v.sequence_privileges
    pub databases : HoldsSlice string_kind IsValue lo h t.databases v.databases
    pub database_privileges :
        HoldsSlice string_kind IsValue lo h t.database_privileges v.database_privileges
    pub schemas : HoldsSlice string_kind IsValue lo h t.schemas v.schemas
    pub schema_privileges :
        HoldsSlice string_kind IsValue lo h t.schema_privileges v.schema_privileges
    pub functions : HoldsSlice identifier_kind IsValue lo h t.functions v.functions
    pub function_privileges :
        HoldsSlice string_kind IsValue lo h t.function_privileges v.function_privileges

  HoldsGrantSpec-stable :
      (lo : ℕ) (h h' : Heap lib) (t : StoredGrantSpec) (v : PostgresGrantSpec)
      → Keeps lo h h'
      → HoldsGrantSpec lo h t v
      → HoldsGrantSpec lo h' t v
  HoldsGrantSpec-stable lo h h' t v keeps held = record {
    postgres_ref = held.postgres_ref;
    role = held.role;
    tables = identifiers-IsCopier.stable lo h h' t.tables v.tables keeps held.tables;
    table_privileges =
        strings-IsCopier.stable lo h h' t.table_privileges v.table_privileges keeps
          held.table_privileges;
    sequences = identifiers-IsCopier.stable lo h h' t.sequences v.sequences keeps held.sequences;
    sequence_privileges =
        strings-IsCopier.stable lo h h' t.sequence_privileges v.sequence_privileges keeps
          held.sequence_privileges;
    databases = strings-IsCopier.stable lo h h' t.databases v.databases keeps held.databases;
    database_privileges =
        strings-IsCopier.stable lo h h' t.database_privileges v.database_privileges keeps
          held.database_privileges;
    schemas = strings-IsCopier.stable lo h h' t.schemas v.schemas keeps held.schemas;
    schema_privileges =
        strings-IsCopier.stable lo h h' t.schema_privileges v.schema_privileges keeps
          held.schema_privileges;
    functions = identifiers-IsCopier.stable lo h h' t.functions v.functions keeps held.functions;
    function_privileges =
        strings-IsCopier.stable lo h h' t.function_privileges v.function_privileges keeps
          held.function_privileges;
  }

  copy_grant_spec-Gives :
      (base : Heap lib) (t : StoredGrantSpec) (v : PostgresGrantSpec)
      → HoldsGrantSpec 0 base t v
      → Gives base (copy_grant_spec t) (λ h t'. HoldsGrantSpec (length base) h t' v)
  unfolding copy_grant_spec
  copy_grant_spec-Gives base t v held =
      bind-Gives (identifiers-IsCopier.copies base t.tables v.tables held.tables) (λ new0.
        bind-Gives
          (strings-IsCopier.copies base t.table_privileges v.table_privileges held.table_privileges)
          (λ new1.
            bind-Gives (identifiers-IsCopier.copies base t.sequences v.sequences held.sequences)
              (λ new2.
                bind-Gives
                  (strings-IsCopier.copies base t.sequence_privileges v.sequence_privileges
                    held.sequence_privileges)
                  (λ new3.
                    bind-Gives (strings-IsCopier.copies base t.databases v.databases held.databases)
                      (λ new4.
                        bind-Gives
                          (strings-IsCopier.copies base t.database_privileges v.database_privileges
                            held.database_privileges)
                          (λ new5.
                            bind-Gives
                              (strings-IsCopier.copies base t.schemas v.schemas held.schemas)
                              (λ new6.
                                bind-Gives
                                  (strings-IsCopier.copies base t.schema_privileges
                                    v.schema_privileges held.schema_privileges)
                                  (λ new7.
                                    bind-Gives
                                      (identifiers-IsCopier.copies base t.functions v.functions
                                        held.functions)
                                      (λ new8.
                                        bind-Gives
                                          (strings-IsCopier.copies base t.function_privileges
                                            v.function_privileges held.function_privileges)
                                          (λ new9.
                                            return-Gives base _ _
                                              (λ h ext held9 held8 held7 held6 held5 held4 held3
                                                  held2 held1 held0.
                                                record {
                                                  postgres_ref = held.postgres_ref;
                                                  role = held.role;
                                                  tables = held0;
                                                  table_privileges = held1;
                                                  sequences = held2;
                                                  sequence_privileges = held3;
                                                  databases = held4;
                                                  database_privileges = held5;
                                                  schemas = held6;
                                                  schema_privileges = held7;
                                                  functions = held8;
                                                  function_privileges = held9;
                                                })))))))))))

  pub copy_grant_spec-IsCopier : IsCopier HoldsGrantSpec copy_grant_spec
  copy_grant_spec-IsCopier = record {
    stable = HoldsGrantSpec-stable;
    copies = copy_grant_spec-Gives;
  }
