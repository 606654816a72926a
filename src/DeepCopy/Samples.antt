-- ===== src/DeepCopy/Samples.antt =====
-- Objects in memory. Of the metadata, memory holds the finalizers.
use postgres_config_operator.Base.{ℕ, String, Option, some, [], ◌∷◌, refl, arith}
use postgres_config_operator.Api.{ObjectMeta, PostgresConfig, PostgresGrant, TypeMeta}
use postgres_config_operator.Samples.{app_config, app_ref, jobs, reader_grant}
use postgres_config_operator.DeepCopy.Parts.{copy_slice, copy_value}
use postgres_config_operator.DeepCopy.Memory.{
  Library, Heap, Kind, M, Slice, StoredConfig, StoredGrant, config_array, element, elements,
  array_at, grant_array, identifier_array, nil_slice, publication_array, string_array, target,
  window,
}
use postgres_config_operator.DeepCopy.Kinds.{identifier_kind, string_kind, table_kind}
use postgres_config_operator.DeepCopy.Copier.{
  Relation, HoldsSlice, IsCopier, IsValue, copy_value-IsCopier,
}
use postgres_config_operator.DeepCopy.Slices.{copy_slice-IsCopier}
use postgres_config_operator.DeepCopy.Promises.{ConfigAt, GrantAt}

abbrev pub lib : Library
lib = record { object_meta = Slice; list_meta = String; foreign = ⊥ }

abbrev pub HoldsFinalizers : Relation lib Slice ObjectMeta
HoldsFinalizers lo h s m = HoldsSlice string_kind IsValue lo h s m.finalizers

abbrev pub copy_finalizers : Slice → M lib Slice
copy_finalizers = copy_slice string_kind copy_value

pub finalizers-IsCopier : IsCopier HoldsFinalizers copy_finalizers
finalizers-IsCopier =
    let strings : IsCopier (HoldsSlice string_kind IsValue) copy_finalizers =
      copy_slice-IsCopier copy_value-IsCopier string_kind in
    record {
      stable = λ lo h h' s m. strings.stable lo h h' s m.finalizers;
      copies = λ base s m. strings.copies base s m.finalizers;
    }

pub nothing :
    {T V : Type 0} {R : Relation lib T V} (k : Kind lib T) (lo : ℕ) (h : Heap lib)
    → HoldsSlice k R lo h nil_slice []
nothing k lo h = record { items = []; reads = refl; each = tt }

-- A config with one publication of one table
abbrev pub stored_config : StoredConfig lib
stored_config = record {
  type_meta = app_config.type_meta;
  metadata = nil_slice;
  spec = record { postgres_ref = app_ref; publications = window 1 0 1; tables = nil_slice };
  status = app_config.status;
}

abbrev pub config_heap : Heap lib
config_heap =
    config_array (stored_config ∷ [])
    ∷ publication_array
        (record { name = "jobs"; tables = window 2 0 1; operations = nil_slice } ∷ [])
    ∷ identifier_array (jobs ∷ [])
    ∷ []

abbrev pub jobs_config : PostgresConfig
jobs_config = record app_config {
  spec = record {
    postgres_ref = app_ref;
    publications = record { name = "jobs"; tables = jobs ∷ []; operations = [] } ∷ [];
    tables = [];
  };
}

pub config-held : ConfigAt HoldsFinalizers 0 config_heap (element 0 0) (some jobs_config)
unfolding target elements array_at
config-held = record {
  value = stored_config;
  from = omega arith;
  there = refl;
  holds = record {
    type_meta = refl;
    metadata = nothing string_kind 0 config_heap;
    spec = record {
      postgres_ref = refl;
      publications = record {
        items = record { name = "jobs"; tables = window 2 0 1; operations = nil_slice } ∷ [];
        reads = (omega arith, refl);
        each = (
          record {
            name = refl;
            tables = record { items = jobs ∷ []; reads = (omega arith, refl); each = (refl, tt) };
            operations = nothing string_kind 0 config_heap;
          },
          tt,
        );
      };
      tables = nothing table_kind 0 config_heap;
    };
    status = refl;
  };
}

-- A grant on one table
abbrev pub stored_grant : StoredGrant lib
stored_grant = record {
  type_meta = record { api_version = "postgres.glints.com/v1alpha1"; kind = "PostgresGrant" };
  metadata = nil_slice;
  spec = record {
    postgres_ref = app_ref;
    role = "reader";
    tables = window 1 0 1;
    table_privileges = window 2 0 2;
    sequences = nil_slice;
    sequence_privileges = nil_slice;
    databases = window 2 2 1;
    database_privileges = nil_slice;
    schemas = nil_slice;
    schema_privileges = nil_slice;
    functions = nil_slice;
    function_privileges = nil_slice;
  };
}

-- Two of its slices are windows of one array.
abbrev pub grant_heap : Heap lib
grant_heap =
    grant_array (stored_grant ∷ [])
    ∷ identifier_array (jobs ∷ [])
    ∷ string_array ("SELECT" ∷ "UPDATE" ∷ "app" ∷ [])
    ∷ []

abbrev pub reader : Option (TypeMeta × PostgresGrant)
reader = some (stored_grant.type_meta, reader_grant)

pub grant-held : GrantAt HoldsFinalizers 0 grant_heap (element 0 0) reader
unfolding target elements array_at
grant-held = record {
  value = stored_grant;
  from = omega arith;
  there = refl;
  holds = record {
    type_meta = refl;
    metadata = nothing string_kind 0 grant_heap;
    spec = record {
      postgres_ref = refl;
      role = refl;
      tables = record { items = jobs ∷ []; reads = (omega arith, refl); each = (refl, tt) };
      table_privileges = record {
        items = "SELECT" ∷ "UPDATE" ∷ [];
        reads = (omega arith, refl);
        each = (refl, (refl, tt));
      };
      sequences = nothing identifier_kind 0 grant_heap;
      sequence_privileges = nothing string_kind 0 grant_heap;
      databases = record { items = "app" ∷ []; reads = (omega arith, refl); each = (refl, tt) };
      database_privileges = nothing string_kind 0 grant_heap;
      schemas = nothing string_kind 0 grant_heap;
      schema_privileges = nothing string_kind 0 grant_heap;
      functions = nothing identifier_kind 0 grant_heap;
      function_privileges = nothing string_kind 0 grant_heap;
    };
  };
}
