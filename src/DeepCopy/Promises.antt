-- ===== src/DeepCopy/Promises.antt =====
-- `DeepCopy` and `DeepCopyObject` of the objects and of their lists.
use postgres_config_operator.Base.{ℕ, ◌≤◌, ◌<◌, Option, some, List, ◌≡◌, refl, All, length}
use postgres_config_operator.Api.{
  ObjectMeta, PostgresConfig, PostgresGrant, PostgresPublication, PostgresTable, TypeMeta,
}
use postgres_config_operator.DeepCopy.Resources.{
  deep_copy_config, deep_copy_config_as_object, deep_copy_grant, deep_copy_grant_as_object,
  deep_copy_publication_object_list, deep_copy_publication_object_list_as_object,
  deep_copy_table_object_list, deep_copy_table_object_list_as_object,
}
use postgres_config_operator.DeepCopy.Memory.{Library, Cell, Heap, M, Pointer, write_all}
use postgres_config_operator.DeepCopy.Kinds.{
  config_kind, grant_kind, object_list_kind, publication_object_kind, table_object_kind,
}
use postgres_config_operator.DeepCopy.Copier.{Relation, IsCopier}
use postgres_config_operator.DeepCopy.Pointers.{HoldsPointer, deep_copy-IsCopier}
use postgres_config_operator.DeepCopy.Objects.{
  HoldsConfig, HoldsGrant, HoldsList, HoldsPublicationObject, HoldsTableObject,
  copy_config-IsCopier, copy_grant-IsCopier, copy_publication_object_list-IsCopier,
  copy_table_object_list-IsCopier,
}
use postgres_config_operator.DeepCopy.Apart.{
  IsDeepCopied, copier-IsDeepCopied, copier-apart, original-apart,
}

module _ {lib : Library} (HoldsMeta : Relation lib lib.object_meta ObjectMeta) where
  abbrev pub ConfigAt : ℕ → Heap lib → Pointer → Option PostgresConfig → Type 0
  ConfigAt = HoldsPointer config_kind (HoldsConfig HoldsMeta)

  abbrev pub GrantAt : ℕ → Heap lib → Pointer → Option (TypeMeta × PostgresGrant) → Type 0
  GrantAt = HoldsPointer grant_kind (HoldsGrant HoldsMeta)

  module _ {L : Type 0} (HoldsListMeta : Relation lib lib.list_meta L) where
    abbrev pub PublicationsAt :
        ℕ
        → Heap lib
        → Pointer
        → Option (TypeMeta × L × List (TypeMeta × PostgresPublication))
        → Type 0
    PublicationsAt =
        HoldsPointer object_list_kind
          (HoldsList publication_object_kind (HoldsPublicationObject HoldsMeta) HoldsListMeta)

    abbrev pub TablesAt :
        ℕ → Heap lib → Pointer → Option (TypeMeta × L × List (TypeMeta × PostgresTable)) → Type 0
    TablesAt =
        HoldsPointer object_list_kind
          (HoldsList table_object_kind (HoldsTableObject HoldsMeta) HoldsListMeta)

module _ {lib : Library} {HoldsMeta : Relation lib lib.object_meta ObjectMeta}
    {copy_object_meta : lib.object_meta → M lib lib.object_meta}
    (meta : IsCopier HoldsMeta copy_object_meta) where
  config : IsCopier (ConfigAt HoldsMeta) (deep_copy_config copy_object_meta)
  unfolding deep_copy_config
  config = deep_copy-IsCopier (copy_config-IsCopier meta) config_kind

  grant : IsCopier (GrantAt HoldsMeta) (deep_copy_grant copy_object_meta)
  unfolding deep_copy_grant
  grant = deep_copy-IsCopier (copy_grant-IsCopier meta) grant_kind

  -- If the library copies an object's metadata right, DeepCopy and DeepCopyObject of a config do not
  -- fault; on nil they return nil; else the copy stands for the same config, with all its
  -- publications and tables, in new arrays only, and the original still stands for it too.
  pub deep_copy_config-IsDeepCopied :
      (h : Heap lib) (p : Pointer) (v : Option PostgresConfig)
      → ConfigAt HoldsMeta 0 h p v
      → IsDeepCopied
          (ConfigAt HoldsMeta)
          (deep_copy_config copy_object_meta)
          (deep_copy_config_as_object copy_object_meta)
          h
          p
          v
  unfolding deep_copy_config_as_object
  deep_copy_config-IsDeepCopied =
      copier-IsDeepCopied config (deep_copy_config_as_object copy_object_meta) (λ h p. refl)

  -- If the library copies an object's metadata right, DeepCopy and DeepCopyObject of a grant do not
  -- fault; on nil they return nil; else the copy stands for the same grant, with its five lists of
  -- objects and five lists of privileges, in new arrays only, even where slices of the original
  -- share an array, and the original still stands for it too.
  pub deep_copy_grant-IsDeepCopied :
      (h : Heap lib) (p : Pointer) (v : Option (TypeMeta × PostgresGrant))
      → GrantAt HoldsMeta 0 h p v
      → IsDeepCopied
          (GrantAt HoldsMeta)
          (deep_copy_grant copy_object_meta)
          (deep_copy_grant_as_object copy_object_meta)
          h
          p
          v
  unfolding deep_copy_grant_as_object
  deep_copy_grant-IsDeepCopied =
      copier-IsDeepCopied grant (deep_copy_grant_as_object copy_object_meta) (λ h p. refl)

  -- If the library copies an object's metadata right: after a config is copied, no sequence of
  -- writes to arrays that were there before the copy, the original's among them, changes what
  -- the copy stands for.
  pub write_all-deep_copy_config :
      (h : Heap lib) (p : Pointer) (v : Option PostgresConfig)
      → ConfigAt HoldsMeta 0 h p v
      → (copy : Pointer) (after : Heap lib)
      → deep_copy_config copy_object_meta p h ≡ some (copy, after)
      → (ws : List (ℕ × Cell lib)) → All (λ w. w.0 < length h) ws
      → ConfigAt HoldsMeta (length h) (write_all ws after) copy v
  write_all-deep_copy_config = copier-apart config

  -- If the library copies an object's metadata right: after a grant is copied, no sequence of
  -- writes to arrays that are new, the copy's among them, changes what the original stands
  -- for.
  pub write_all-deep_copy_grant :
      (h : Heap lib) (p : Pointer) (v : Option (TypeMeta × PostgresGrant))
      → GrantAt HoldsMeta 0 h p v
      → (copy : Pointer) (after : Heap lib)
      → deep_copy_grant copy_object_meta p h ≡ some (copy, after)
      → (ws : List (ℕ × Cell lib)) → All (λ w. length h ≤ w.0) ws
      → GrantAt HoldsMeta 0 (write_all ws after) p v
  write_all-deep_copy_grant = original-apart grant

  module _ {L : Type 0} {HoldsListMeta : Relation lib lib.list_meta L}
      {copy_list_meta : lib.list_meta → M lib lib.list_meta}
      (list_meta : IsCopier HoldsListMeta copy_list_meta) where
    publications :
        IsCopier
          (PublicationsAt HoldsMeta HoldsListMeta)
          (deep_copy_publication_object_list copy_object_meta copy_list_meta)
    unfolding deep_copy_publication_object_list
    publications =
        deep_copy-IsCopier (copy_publication_object_list-IsCopier meta list_meta) object_list_kind

    tables :
        IsCopier
          (TablesAt HoldsMeta HoldsListMeta)
          (deep_copy_table_object_list copy_object_meta copy_list_meta)
    unfolding deep_copy_table_object_list
    tables = deep_copy-IsCopier (copy_table_object_list-IsCopier meta list_meta) object_list_kind

    -- If the library copies the metadata of an object and of a list right, DeepCopy and
    -- DeepCopyObject of a list of publications do not fault, and give a list in new arrays that
    -- stands for the same publications in the same order, while the original does so still.
    pub deep_copy_publication_object_list-IsDeepCopied :
        (h : Heap lib) (p : Pointer)
        (v : Option (TypeMeta × L × List (TypeMeta × PostgresPublication)))
        → PublicationsAt HoldsMeta HoldsListMeta 0 h p v
        → IsDeepCopied
            (PublicationsAt HoldsMeta HoldsListMeta)
            (deep_copy_publication_object_list copy_object_meta copy_list_meta)
            (deep_copy_publication_object_list_as_object copy_object_meta copy_list_meta)
            h
            p
            v
    unfolding deep_copy_publication_object_list_as_object
    deep_copy_publication_object_list-IsDeepCopied =
        copier-IsDeepCopied publications
          (deep_copy_publication_object_list_as_object copy_object_meta copy_list_meta)
          (λ h p. refl)

    -- If the library copies the metadata of an object and of a list right, DeepCopy and
    -- DeepCopyObject of a list of tables do not fault, and give a list in new arrays that stands for
    -- the same tables with the same columns, while the original does so still.
    pub deep_copy_table_object_list-IsDeepCopied :
        (h : Heap lib) (p : Pointer) (v : Option (TypeMeta × L × List (TypeMeta × PostgresTable)))
        → TablesAt HoldsMeta HoldsListMeta 0 h p v
        → IsDeepCopied
            (TablesAt HoldsMeta HoldsListMeta)
            (deep_copy_table_object_list copy_object_meta copy_list_meta)
            (deep_copy_table_object_list_as_object copy_object_meta copy_list_meta)
            h
            p
            v
    unfolding deep_copy_table_object_list_as_object
    deep_copy_table_object_list-IsDeepCopied =
        copier-IsDeepCopied tables
          (deep_copy_table_object_list_as_object copy_object_meta copy_list_meta) (λ h p. refl)
