-- ===== src/DeepCopy/Resources.antt =====
-- `zz_generated.deepcopy.go`: the objects, which hold metadata, and their lists.
use postgres_config_operator.DeepCopy.Memory.{
  Library, StoredConfig, StoredGrant, StoredPublicationObject, StoredTableObject, StoredList, M,
  Pointer, return, ◌>>=◌,
}
use postgres_config_operator.DeepCopy.Kinds.{
  config_kind, grant_kind, publication_object_kind, table_object_kind, object_list_kind,
}
use postgres_config_operator.DeepCopy.Parts.{Object, copy_slice, deep_copy, object_of}
use postgres_config_operator.DeepCopy.Structs.{
  copy_config_spec, copy_grant_spec, copy_publication_spec, copy_table_spec,
}

module _ {lib : Library} where
  -- `copy_object_meta` is `DeepCopyInto` of `metav1.ObjectMeta`.
  module _ (copy_object_meta : lib.object_meta → M lib lib.object_meta) where
    -- `PostgresConfig.DeepCopyInto`
    unfoldable pub copy_config : StoredConfig lib → M lib (StoredConfig lib)
    copy_config x = do
      metadata ← copy_object_meta x.metadata
      spec ← copy_config_spec x.spec
      return (record x { metadata = metadata; spec = spec })

    unfoldable pub deep_copy_config : Pointer → M lib Pointer
    unfolding deep_copy
    deep_copy_config p = deep_copy config_kind copy_config p

    -- `PostgresConfig.DeepCopyObject`
    unfoldable pub deep_copy_config_as_object : Pointer → M lib Object
    deep_copy_config_as_object p = do c ← deep_copy_config p; return (object_of c)

    -- `PostgresGrant.DeepCopyInto`
    unfoldable pub copy_grant : StoredGrant lib → M lib (StoredGrant lib)
    copy_grant x = do
      metadata ← copy_object_meta x.metadata
      spec ← copy_grant_spec x.spec
      return (record x { metadata = metadata; spec = spec })

    unfoldable pub deep_copy_grant : Pointer → M lib Pointer
    unfolding deep_copy
    deep_copy_grant p = deep_copy grant_kind copy_grant p

    -- `PostgresGrant.DeepCopyObject`
    unfoldable pub deep_copy_grant_as_object : Pointer → M lib Object
    deep_copy_grant_as_object p = do c ← deep_copy_grant p; return (object_of c)

    -- `PostgresPublication.DeepCopyInto`
    unfoldable pub copy_publication_object :
        StoredPublicationObject lib → M lib (StoredPublicationObject lib)
    copy_publication_object x = do
      metadata ← copy_object_meta x.metadata
      spec ← copy_publication_spec x.spec
      return (record x { metadata = metadata; spec = spec })

    unfoldable pub deep_copy_publication_object : Pointer → M lib Pointer
    unfolding deep_copy
    deep_copy_publication_object p = deep_copy publication_object_kind copy_publication_object p

    -- `PostgresPublication.DeepCopyObject`
    unfoldable pub deep_copy_publication_object_as_object : Pointer → M lib Object
    deep_copy_publication_object_as_object p = do
      c ← deep_copy_publication_object p
      return (object_of c)

    -- `PostgresTable.DeepCopyInto`
    unfoldable pub copy_table_object : StoredTableObject lib → M lib (StoredTableObject lib)
    copy_table_object x = do
      metadata ← copy_object_meta x.metadata
      spec ← copy_table_spec x.spec
      return (record x { metadata = metadata; spec = spec })

    unfoldable pub deep_copy_table_object : Pointer → M lib Pointer
    unfolding deep_copy
    deep_copy_table_object p = deep_copy table_object_kind copy_table_object p

    -- `PostgresTable.DeepCopyObject`
    unfoldable pub deep_copy_table_object_as_object : Pointer → M lib Object
    deep_copy_table_object_as_object p = do c ← deep_copy_table_object p; return (object_of c)

    -- And of `metav1.ListMeta`
    module _ (copy_list_meta : lib.list_meta → M lib lib.list_meta) where
      -- `PostgresConfigList.DeepCopyInto`
      unfoldable pub copy_config_list : StoredList lib → M lib (StoredList lib)
      unfolding copy_slice
      copy_config_list x = do
        list_meta ← copy_list_meta x.list_meta
        items ← copy_slice config_kind copy_config x.items
        return (record x { list_meta = list_meta; items = items })

      unfoldable pub deep_copy_config_list : Pointer → M lib Pointer
      unfolding deep_copy
      deep_copy_config_list p = deep_copy object_list_kind copy_config_list p

      -- `PostgresConfigList.DeepCopyObject`
      unfoldable pub deep_copy_config_list_as_object : Pointer → M lib Object
      deep_copy_config_list_as_object p = do c ← deep_copy_config_list p; return (object_of c)

      -- `PostgresGrantList.DeepCopyInto`
      unfoldable pub copy_grant_list : StoredList lib → M lib (StoredList lib)
      unfolding copy_slice
      copy_grant_list x = do
        list_meta ← copy_list_meta x.list_meta
        items ← copy_slice grant_kind copy_grant x.items
        return (record x { list_meta = list_meta; items = items })

      unfoldable pub deep_copy_grant_list : Pointer → M lib Pointer
      unfolding deep_copy
      deep_copy_grant_list p = deep_copy object_list_kind copy_grant_list p

      -- `PostgresGrantList.DeepCopyObject`
      unfoldable pub deep_copy_grant_list_as_object : Pointer → M lib Object
      deep_copy_grant_list_as_object p = do c ← deep_copy_grant_list p; return (object_of c)

      -- `PostgresPublicationList.DeepCopyInto`
      unfoldable pub copy_publication_object_list : StoredList lib → M lib (StoredList lib)
      unfolding copy_slice
      copy_publication_object_list x = do
        list_meta ← copy_list_meta x.list_meta
        items ← copy_slice publication_object_kind copy_publication_object x.items
        return (record x { list_meta = list_meta; items = items })

      unfoldable pub deep_copy_publication_object_list : Pointer → M lib Pointer
      unfolding deep_copy
      deep_copy_publication_object_list p =
          deep_copy object_list_kind copy_publication_object_list p

      -- `PostgresPublicationList.DeepCopyObject`
      unfoldable pub deep_copy_publication_object_list_as_object : Pointer → M lib Object
      deep_copy_publication_object_list_as_object p = do
        c ← deep_copy_publication_object_list p
        return (object_of c)

      -- `PostgresTableList.DeepCopyInto`
      unfoldable pub copy_table_object_list : StoredList lib → M lib (StoredList lib)
      unfolding copy_slice
      copy_table_object_list x = do
        list_meta ← copy_list_meta x.list_meta
        items ← copy_slice table_object_kind copy_table_object x.items
        return (record x { list_meta = list_meta; items = items })

      unfoldable pub deep_copy_table_object_list : Pointer → M lib Pointer
      unfolding deep_copy
      deep_copy_table_object_list p = deep_copy object_list_kind copy_table_object_list p

      -- `PostgresTableList.DeepCopyObject`
      unfoldable pub deep_copy_table_object_list_as_object : Pointer → M lib Object
      deep_copy_table_object_list_as_object p = do
        c ← deep_copy_table_object_list p
        return (object_of c)
