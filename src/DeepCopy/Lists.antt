-- ===== src/DeepCopy/Lists.antt =====
-- Lists of objects in memory
use postgres_config_operator.Base.{String, Option, some, List, [], ◌∷◌, refl, arith}
use postgres_config_operator.Api.{PostgresTable, PostgresPublication, TypeMeta}
use postgres_config_operator.Samples.{app_ref, jobs, jobs_table, all_jobs}
use postgres_config_operator.DeepCopy.Memory.{
  Heap, StoredPublicationObject, StoredTableObject, element, elements, array_at, nil_slice,
  object_list_array, publication_object_array, column_array, table_object_array, target, window,
}
use postgres_config_operator.DeepCopy.Kinds.{identifier_kind, string_kind}
use postgres_config_operator.DeepCopy.Copier.{Relation, IsValue}
use postgres_config_operator.DeepCopy.Promises.{PublicationsAt, TablesAt}
use postgres_config_operator.DeepCopy.Samples.{lib, HoldsFinalizers, nothing}

-- Lists with the version of the list as their metadata
abbrev pub HoldsVersion : Relation lib String String
HoldsVersion = IsValue

abbrev pub list_type : String → TypeMeta
list_type kind = record { api_version = "postgres.glints.com/v1alpha1"; kind = kind }

abbrev pub stored_publication : StoredPublicationObject lib
stored_publication = record {
  type_meta = list_type "PostgresPublication";
  metadata = nil_slice;
  spec = record {
    postgres_ref = app_ref;
    name = "all_jobs";
    tables = nil_slice;
    operations = nil_slice;
  };
}

abbrev pub publications_heap : Heap lib
publications_heap =
    object_list_array (
      record {
        type_meta = list_type "PostgresPublicationList";
        list_meta = "7";
        items = window 1 0 1;
      }
      ∷ [])
    ∷ publication_object_array (stored_publication ∷ [])
    ∷ []

abbrev pub publications : Option (TypeMeta × String × List (TypeMeta × PostgresPublication))
publications =
    some
      (list_type "PostgresPublicationList", "7", (list_type "PostgresPublication", all_jobs) ∷ [])

pub publications-held :
    PublicationsAt HoldsFinalizers HoldsVersion 0 publications_heap (element 0 0) publications
unfolding target elements array_at
publications-held = record {
  value = record {
    type_meta = list_type "PostgresPublicationList";
    list_meta = "7";
    items = window 1 0 1;
  };
  from = omega arith;
  there = refl;
  holds = record {
    type_meta = refl;
    list_meta = refl;
    items = record {
      items = stored_publication ∷ [];
      reads = (omega arith, refl);
      each = (
        record {
          type_meta = refl;
          metadata = nothing string_kind 0 publications_heap;
          spec = record {
            postgres_ref = refl;
            name = refl;
            tables = nothing identifier_kind 0 publications_heap;
            operations = nothing string_kind 0 publications_heap;
          };
        },
        tt,
      );
    };
  };
}

abbrev pub stored_table : StoredTableObject lib
stored_table = record {
  type_meta = list_type "PostgresTable";
  metadata = nil_slice;
  spec = record { postgres_ref = app_ref; columns = window 2 0 2; identifier = jobs };
}

abbrev pub tables_heap : Heap lib
tables_heap =
    object_list_array (
      record { type_meta = list_type "PostgresTableList"; list_meta = "8"; items = window 1 0 1 }
      ∷ [])
    ∷ table_object_array (stored_table ∷ [])
    ∷ column_array jobs_table.spec.columns
    ∷ []

abbrev pub tables : Option (TypeMeta × String × List (TypeMeta × PostgresTable))
tables = some (list_type "PostgresTableList", "8", (list_type "PostgresTable", jobs_table) ∷ [])

pub tables-held : TablesAt HoldsFinalizers HoldsVersion 0 tables_heap (element 0 0) tables
unfolding target elements array_at
tables-held = record {
  value = record {
    type_meta = list_type "PostgresTableList";
    list_meta = "8";
    items = window 1 0 1;
  };
  from = omega arith;
  there = refl;
  holds = record {
    type_meta = refl;
    list_meta = refl;
    items = record {
      items = stored_table ∷ [];
      reads = (omega arith, refl);
      each = (
        record {
          type_meta = refl;
          metadata = nothing string_kind 0 tables_heap;
          spec = record {
            postgres_ref = refl;
            columns = record {
              items = jobs_table.spec.columns;
              reads = (omega arith, refl);
              each = (refl, (refl, tt));
            };
            identifier = refl;
          };
        },
        tt,
      );
    };
  };
}
