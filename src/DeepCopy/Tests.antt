-- ===== src/DeepCopy/Tests.antt =====
-- Copies of the sample objects.
use postgres_config_operator.Base.{some, [], ◌∷◌, ◌≡◌, refl, arith}
use postgres_config_operator.Samples.{app_ref, jobs}
use postgres_config_operator.DeepCopy.Parts.{copy_value, copy_each}
use postgres_config_operator.DeepCopy.Structs.{copy_config_spec, copy_publication, copy_grant_spec}
use postgres_config_operator.DeepCopy.Resources.{
  deep_copy_config, deep_copy_config_as_object, deep_copy_grant, deep_copy_grant_as_object,
  deep_copy_publication_object_list, deep_copy_publication_object_list_as_object,
  deep_copy_table_object_list, deep_copy_table_object_list_as_object, copy_config, copy_grant,
}
use postgres_config_operator.DeepCopy.Memory.{
  Heap, config_array, element, elements, array_at, grant_array, identifier_array, nil_slice,
  publication_array, string_array, target, window, write_all, load, deref, alloc,
}
use postgres_config_operator.DeepCopy.Copier.{copy_value-IsCopier}
use postgres_config_operator.DeepCopy.Apart.{IsDeepCopied}
use postgres_config_operator.DeepCopy.Promises.{
  ConfigAt, GrantAt, PublicationsAt, TablesAt, deep_copy_config-IsDeepCopied,
  deep_copy_grant-IsDeepCopied, deep_copy_publication_object_list-IsDeepCopied,
  deep_copy_table_object_list-IsDeepCopied, write_all-deep_copy_config, write_all-deep_copy_grant,
}
use postgres_config_operator.DeepCopy.Samples.{
  lib, HoldsFinalizers, copy_finalizers, finalizers-IsCopier, stored_config, config_heap,
  jobs_config, config-held, stored_grant, grant_heap, reader, grant-held,
}
use postgres_config_operator.DeepCopy.Lists.{
  HoldsVersion, publications_heap, publications, publications-held, tables_heap, tables,
  tables-held,
}

deep_copy_config-IsDeepCopied_example :
    IsDeepCopied
      (ConfigAt HoldsFinalizers)
      (deep_copy_config copy_finalizers)
      (deep_copy_config_as_object copy_finalizers)
      config_heap
      (element 0 0)
      (some jobs_config)
deep_copy_config-IsDeepCopied_example =
    deep_copy_config-IsDeepCopied finalizers-IsCopier config_heap (element 0 0) (some jobs_config)
      config-held

-- The copy, the new arrays being made from the inside out
abbrev config_copied : Heap lib
config_copied =
    config_array (stored_config ∷ [])
    ∷ publication_array
        (record { name = "jobs"; tables = window 2 0 1; operations = nil_slice } ∷ [])
    ∷ identifier_array (jobs ∷ [])
    ∷ identifier_array (jobs ∷ [])
    ∷ publication_array
        (record { name = "jobs"; tables = window 3 0 1; operations = nil_slice } ∷ [])
    ∷ config_array (
        record stored_config {
          spec = record { postgres_ref = app_ref; publications = window 4 0 1; tables = nil_slice };
        }
        ∷ [])
    ∷ []

config-copied :
    deep_copy_config copy_finalizers (element 0 0) config_heap ≡ some (element 5 0, config_copied)
unfolding deep_copy_config copy_config copy_config_spec copy_publication copy_each deref load target
    elements array_at alloc
config-copied = refl

write_all-deep_copy_config_example :
    ConfigAt HoldsFinalizers 3
      (write_all ((2, identifier_array []) ∷ []) config_copied)
      (element 5 0)
      (some jobs_config)
write_all-deep_copy_config_example =
    write_all-deep_copy_config finalizers-IsCopier config_heap (element 0 0) (some jobs_config)
      config-held (element 5 0) config_copied config-copied ((2, identifier_array []) ∷ [])
      (omega arith, tt)

deep_copy_grant-IsDeepCopied_example :
    IsDeepCopied
      (GrantAt HoldsFinalizers)
      (deep_copy_grant copy_finalizers)
      (deep_copy_grant_as_object copy_finalizers)
      grant_heap
      (element 0 0)
      reader
deep_copy_grant-IsDeepCopied_example =
    deep_copy_grant-IsDeepCopied finalizers-IsCopier grant_heap (element 0 0) reader grant-held

abbrev grant_copied : Heap lib
grant_copied =
    grant_array (stored_grant ∷ [])
    ∷ identifier_array (jobs ∷ [])
    ∷ string_array ("SELECT" ∷ "UPDATE" ∷ "app" ∷ [])
    ∷ identifier_array (jobs ∷ [])
    ∷ string_array ("SELECT" ∷ "UPDATE" ∷ [])
    ∷ string_array ("app" ∷ [])
    ∷ grant_array (
        record stored_grant {
          spec = record stored_grant.spec {
            tables = window 3 0 1;
            table_privileges = window 4 0 2;
            databases = window 5 0 1;
          };
        }
        ∷ [])
    ∷ []

grant-copied :
    deep_copy_grant copy_finalizers (element 0 0) grant_heap ≡ some (element 6 0, grant_copied)
unfolding deep_copy_grant copy_grant copy_grant_spec copy_each deref load target elements array_at
    alloc
grant-copied = refl

grant_apart :
    GrantAt HoldsFinalizers 0
      (write_all ((4, string_array ("ALL" ∷ [])) ∷ []) grant_copied)
      (element 0 0)
      reader
grant_apart =
    write_all-deep_copy_grant finalizers-IsCopier grant_heap (element 0 0) reader grant-held
      (element 6 0) grant_copied grant-copied ((4, string_array ("ALL" ∷ [])) ∷ [])
      (omega arith, tt)

deep_copy_publication_object_list-IsDeepCopied_example :
    IsDeepCopied
      (PublicationsAt HoldsFinalizers HoldsVersion)
      (deep_copy_publication_object_list copy_finalizers copy_value)
      (deep_copy_publication_object_list_as_object copy_finalizers copy_value)
      publications_heap
      (element 0 0)
      publications
deep_copy_publication_object_list-IsDeepCopied_example =
    deep_copy_publication_object_list-IsDeepCopied finalizers-IsCopier copy_value-IsCopier
      publications_heap (element 0 0) publications publications-held

table_list_copied :
    IsDeepCopied
      (TablesAt HoldsFinalizers HoldsVersion)
      (deep_copy_table_object_list copy_finalizers copy_value)
      (deep_copy_table_object_list_as_object copy_finalizers copy_value)
      tables_heap
      (element 0 0)
      tables
table_list_copied =
    deep_copy_table_object_list-IsDeepCopied finalizers-IsCopier copy_value-IsCopier tables_heap
      (element 0 0) tables tables-held
