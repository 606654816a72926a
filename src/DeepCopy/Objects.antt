-- ===== src/DeepCopy/Objects.antt =====
-- The objects and their lists: what they stand for in memory, and that they are copied right if the
-- library copies their metadata right.
use postgres_config_operator.Base.{ℕ, List, ◌≡◌}
use postgres_config_operator.Api.{
  ObjectMeta, PostgresConfig, PostgresGrant, PostgresPublication, PostgresTable, TypeMeta,
}
use postgres_config_operator.DeepCopy.Parts.{copy_slice}
use postgres_config_operator.DeepCopy.Resources.{
  copy_config, copy_config_list, copy_grant, copy_grant_list, copy_publication_object,
  copy_publication_object_list, copy_table_object, copy_table_object_list,
}
use postgres_config_operator.DeepCopy.Memory.{
  Library, Heap, Kind, M, return, ◌>>=◌, StoredConfig, StoredGrant, StoredList,
  StoredPublicationObject, StoredTableObject,
}
use postgres_config_operator.DeepCopy.Kinds.{
  config_kind, grant_kind, publication_object_kind, table_object_kind,
}
use postgres_config_operator.DeepCopy.Gives.{return-Gives, bind-Gives}
use postgres_config_operator.DeepCopy.Copier.{Relation, HoldsSlice, IsCopier}
use postgres_config_operator.DeepCopy.Slices.{copy_slice-IsCopier}
use postgres_config_operator.DeepCopy.Specs.{
  HoldsConfigSpec, HoldsPublicationSpec, HoldsTableSpec, copy_config_spec-IsCopier,
  copy_publication_spec-IsCopier, copy_table_spec-IsCopier,
}
use postgres_config_operator.DeepCopy.Grants.{HoldsGrantSpec, copy_grant_spec-IsCopier}

module _ {lib : Library} (HoldsMeta : Relation lib lib.object_meta ObjectMeta) where
  pub record HoldsConfig (lo : ℕ) (h : Heap lib) (t : StoredConfig lib) (v : PostgresConfig)
      : Type 0 where
    pub type_meta : t.type_meta ≡ v.type_meta
    pub metadata : HoldsMeta lo h t.metadata v.metadata
    pub spec : HoldsConfigSpec lo h t.spec v.spec
    pub status : t.status ≡ v.status

  pub record HoldsGrant (lo : ℕ) (h : Heap lib) (t : StoredGrant lib) (v : TypeMeta × PostgresGrant)
      : Type 0 where
    pub type_meta : t.type_meta ≡ v.0
    pub metadata : HoldsMeta lo h t.metadata v.1.metadata
    pub spec : HoldsGrantSpec lo h t.spec v.1.spec

  pub record HoldsPublicationObject (lo : ℕ) (h : Heap lib) (t : StoredPublicationObject lib)
      (v : TypeMeta × PostgresPublication) : Type 0 where
    pub type_meta : t.type_meta ≡ v.0
    pub metadata : HoldsMeta lo h t.metadata v.1.metadata
    pub spec : HoldsPublicationSpec lo h t.spec v.1.spec

  pub record HoldsTableObject (lo : ℕ) (h : Heap lib) (t : StoredTableObject lib)
      (v : TypeMeta × PostgresTable) : Type 0 where
    pub type_meta : t.type_meta ≡ v.0
    pub metadata : HoldsMeta lo h t.metadata v.1.metadata
    pub spec : HoldsTableSpec lo h t.spec v.1.spec

module _ {lib : Library} where
  -- A list of objects with the metadata `v.1`
  pub record HoldsList {T V L : Type 0} (k : Kind lib T) (R : Relation lib T V)
      (S : Relation lib lib.list_meta L) (lo : ℕ) (h : Heap lib) (t : StoredList lib)
      (v : TypeMeta × L × List V) : Type 0 where
    pub type_meta : t.type_meta ≡ v.0
    pub list_meta : S lo h t.list_meta v.1
    pub items : HoldsSlice k R lo h t.items v.2

module _ {lib : Library} {HoldsMeta : Relation lib lib.object_meta ObjectMeta}
    {copy_object_meta : lib.object_meta → M lib lib.object_meta}
    (meta : IsCopier HoldsMeta copy_object_meta) where
  pub copy_config-IsCopier : IsCopier (HoldsConfig HoldsMeta) (copy_config copy_object_meta)
  unfolding copy_config
  copy_config-IsCopier = record {
    stable = λ lo h h' t v keeps held. record {
      type_meta = held.type_meta;
      metadata = meta.stable lo h h' t.metadata v.metadata keeps held.metadata;
      spec = copy_config_spec-IsCopier.stable lo h h' t.spec v.spec keeps held.spec;
      status = held.status;
    };
    copies = λ base t v held.
        bind-Gives (meta.copies base t.metadata v.metadata held.metadata) (λ new0.
          bind-Gives (copy_config_spec-IsCopier.copies base t.spec v.spec held.spec) (λ new1.
            return-Gives base _ _ (λ h ext held1 held0. record {
              type_meta = held.type_meta;
              metadata = held0;
              spec = held1;
              status = held.status;
            })));
  }

  pub copy_grant-IsCopier : IsCopier (HoldsGrant HoldsMeta) (copy_grant copy_object_meta)
  unfolding copy_grant
  copy_grant-IsCopier = record {
    stable = λ lo h h' t v keeps held. record {
      type_meta = held.type_meta;
      metadata = meta.stable lo h h' t.metadata v.1.metadata keeps held.metadata;
      spec = copy_grant_spec-IsCopier.stable lo h h' t.spec v.1.spec keeps held.spec;
    };
    copies = λ base t v held.
        bind-Gives (meta.copies base t.metadata v.1.metadata held.metadata) (λ new0.
          bind-Gives (copy_grant_spec-IsCopier.copies base t.spec v.1.spec held.spec) (λ new1.
            return-Gives base _ _ (λ h ext held1 held0. record {
              type_meta = held.type_meta;
              metadata = held0;
              spec = held1;
            })));
  }

  pub copy_publication_object-IsCopier :
      IsCopier (HoldsPublicationObject HoldsMeta) (copy_publication_object copy_object_meta)
  unfolding copy_publication_object
  copy_publication_object-IsCopier = record {
    stable = λ lo h h' t v keeps held. record {
      type_meta = held.type_meta;
      metadata = meta.stable lo h h' t.metadata v.1.metadata keeps held.metadata;
      spec = copy_publication_spec-IsCopier.stable lo h h' t.spec v.1.spec keeps held.spec;
    };
    copies = λ base t v held.
        bind-Gives (meta.copies base t.metadata v.1.metadata held.metadata) (λ new0.
          bind-Gives (copy_publication_spec-IsCopier.copies base t.spec v.1.spec held.spec) (λ new1.
            return-Gives base _ _ (λ h ext held1 held0. record {
              type_meta = held.type_meta;
              metadata = held0;
              spec = held1;
            })));
  }

  pub copy_table_object-IsCopier :
      IsCopier (HoldsTableObject HoldsMeta) (copy_table_object copy_object_meta)
  unfolding copy_table_object
  copy_table_object-IsCopier = record {
    stable = λ lo h h' t v keeps held. record {
      type_meta = held.type_meta;
      metadata = meta.stable lo h h' t.metadata v.1.metadata keeps held.metadata;
      spec = copy_table_spec-IsCopier.stable lo h h' t.spec v.1.spec keeps held.spec;
    };
    copies = λ base t v held.
        bind-Gives (meta.copies base t.metadata v.1.metadata held.metadata) (λ new0.
          bind-Gives (copy_table_spec-IsCopier.copies base t.spec v.1.spec held.spec) (λ new1.
            return-Gives base _ _ (λ h ext held1 held0. record {
              type_meta = held.type_meta;
              metadata = held0;
              spec = held1;
            })));
  }

  module _ {L : Type 0} {HoldsListMeta : Relation lib lib.list_meta L}
      {copy_list_meta : lib.list_meta → M lib lib.list_meta}
      (list_meta : IsCopier HoldsListMeta copy_list_meta) where
    list-IsCopier :
        {T V : Type 0} {R : Relation lib T V} {copy : T → M lib T} (k : Kind lib T)
        → IsCopier R copy
        → IsCopier (HoldsList k R HoldsListMeta) (λ x. do
          l ← copy_list_meta x.list_meta
          items ← copy_slice k copy x.items
          return (record x { list_meta = l; items = items }))
    list-IsCopier {R} {copy} k copier =
        let slice : IsCopier (HoldsSlice k R) (copy_slice k copy) = copy_slice-IsCopier copier k in
        record {
          stable = λ lo h h' t v keeps held. record {
            type_meta = held.type_meta;
            list_meta = list_meta.stable lo h h' t.list_meta v.1 keeps held.list_meta;
            items = slice.stable lo h h' t.items v.2 keeps held.items;
          };
          copies = λ base t v held.
              bind-Gives (list_meta.copies base t.list_meta v.1 held.list_meta) (λ new0.
                bind-Gives (slice.copies base t.items v.2 held.items) (λ new1.
                  return-Gives base _ _ (λ h ext held1 held0. record {
                    type_meta = held.type_meta;
                    list_meta = held0;
                    items = held1;
                  })));
        }

    pub copy_config_list-IsCopier :
        IsCopier
          (HoldsList config_kind (HoldsConfig HoldsMeta) HoldsListMeta)
          (copy_config_list copy_object_meta copy_list_meta)
    unfolding copy_config_list
    copy_config_list-IsCopier = list-IsCopier config_kind copy_config-IsCopier

    pub copy_grant_list-IsCopier :
        IsCopier
          (HoldsList grant_kind (HoldsGrant HoldsMeta) HoldsListMeta)
          (copy_grant_list copy_object_meta copy_list_meta)
    unfolding copy_grant_list
    copy_grant_list-IsCopier = list-IsCopier grant_kind copy_grant-IsCopier

    pub copy_publication_object_list-IsCopier :
        IsCopier
          (HoldsList publication_object_kind (HoldsPublicationObject HoldsMeta) HoldsListMeta)
          (copy_publication_object_list copy_object_meta copy_list_meta)
    unfolding copy_publication_object_list
    copy_publication_object_list-IsCopier =
        list-IsCopier publication_object_kind copy_publication_object-IsCopier

    pub copy_table_object_list-IsCopier :
        IsCopier
          (HoldsList table_object_kind (HoldsTableObject HoldsMeta) HoldsListMeta)
          (copy_table_object_list copy_object_meta copy_list_meta)
    unfolding copy_table_object_list
    copy_table_object_list-IsCopier = list-IsCopier table_object_kind copy_table_object-IsCopier
