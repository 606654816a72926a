-- ===== src/DeepCopy/Kinds.antt =====
-- Each type of array of `Memory` as a `Kind`.
use postgres_config_operator.Base.{String, Option, none, some, List, refl}
use postgres_config_operator.Api.{
  PostgresColumn, PostgresConfigStatus, PostgresGrantStatus, PostgresPublicationStatus,
  PostgresTableStatus, PostgresIdentifier, PostgresRef, SecretRef,
}
use postgres_config_operator.DeepCopy.Memory.{
  Library, Cell, Kind, StoredConfig, StoredGrant, StoredPublicationObject, StoredTableObject,
  StoredList, config_array, grant_array, publication_object_array, table_object_array,
  object_list_array, StoredConfigSpec, StoredGrantSpec, StoredPublication, StoredPublicationSpec,
  StoredTable, StoredTableSpec, string_array, identifier_array, column_array, publication_array,
  table_array, config_spec_array, grant_spec_array, publication_spec_array, table_spec_array,
  secret_ref_array, postgres_ref_array, config_status_array, grant_status_array,
  publication_status_array, table_status_array,
}

module _ {lib : Library} where
  abbrev as_string_array : Cell lib → Option (List String)
  as_string_array (string_array xs) = some xs
  as_string_array _ = none

  abbrev pub string_kind : Kind lib String
  string_kind = record { box = string_array; unbox = as_string_array; unbox-box = λ xs. refl }

  abbrev as_identifier_array : Cell lib → Option (List PostgresIdentifier)
  as_identifier_array (identifier_array xs) = some xs
  as_identifier_array _ = none

  abbrev pub identifier_kind : Kind lib PostgresIdentifier
  identifier_kind = record {
    box = identifier_array;
    unbox = as_identifier_array;
    unbox-box = λ xs. refl;
  }

  abbrev as_column_array : Cell lib → Option (List PostgresColumn)
  as_column_array (column_array xs) = some xs
  as_column_array _ = none

  abbrev pub column_kind : Kind lib PostgresColumn
  column_kind = record { box = column_array; unbox = as_column_array; unbox-box = λ xs. refl }

  abbrev as_publication_array : Cell lib → Option (List StoredPublication)
  as_publication_array (publication_array xs) = some xs
  as_publication_array _ = none

  abbrev pub publication_kind : Kind lib StoredPublication
  publication_kind = record {
    box = publication_array;
    unbox = as_publication_array;
    unbox-box = λ xs. refl;
  }

  abbrev as_table_array : Cell lib → Option (List StoredTable)
  as_table_array (table_array xs) = some xs
  as_table_array _ = none

  abbrev pub table_kind : Kind lib StoredTable
  table_kind = record { box = table_array; unbox = as_table_array; unbox-box = λ xs. refl }

  abbrev as_config_spec_array : Cell lib → Option (List StoredConfigSpec)
  as_config_spec_array (config_spec_array xs) = some xs
  as_config_spec_array _ = none

  abbrev pub config_spec_kind : Kind lib StoredConfigSpec
  config_spec_kind = record {
    box = config_spec_array;
    unbox = as_config_spec_array;
    unbox-box = λ xs. refl;
  }

  abbrev as_grant_spec_array : Cell lib → Option (List StoredGrantSpec)
  as_grant_spec_array (grant_spec_array xs) = some xs
  as_grant_spec_array _ = none

  abbrev pub grant_spec_kind : Kind lib StoredGrantSpec
  grant_spec_kind = record {
    box = grant_spec_array;
    unbox = as_grant_spec_array;
    unbox-box = λ xs. refl;
  }

  abbrev as_publication_spec_array : Cell lib → Option (List StoredPublicationSpec)
  as_publication_spec_array (publication_spec_array xs) = some xs
  as_publication_spec_array _ = none

  abbrev pub publication_spec_kind : Kind lib StoredPublicationSpec
  publication_spec_kind = record {
    box = publication_spec_array;
    unbox = as_publication_spec_array;
    unbox-box = λ xs. refl;
  }

  abbrev as_table_spec_array : Cell lib → Option (List StoredTableSpec)
  as_table_spec_array (table_spec_array xs) = some xs
  as_table_spec_array _ = none

  abbrev pub table_spec_kind : Kind lib StoredTableSpec
  table_spec_kind = record {
    box = table_spec_array;
    unbox = as_table_spec_array;
    unbox-box = λ xs. refl;
  }

  abbrev as_secret_ref_array : Cell lib → Option (List SecretRef)
  as_secret_ref_array (secret_ref_array xs) = some xs
  as_secret_ref_array _ = none

  abbrev pub secret_ref_kind : Kind lib SecretRef
  secret_ref_kind = record {
    box = secret_ref_array;
    unbox = as_secret_ref_array;
    unbox-box = λ xs. refl;
  }

  abbrev as_postgres_ref_array : Cell lib → Option (List PostgresRef)
  as_postgres_ref_array (postgres_ref_array xs) = some xs
  as_postgres_ref_array _ = none

  abbrev pub postgres_ref_kind : Kind lib PostgresRef
  postgres_ref_kind = record {
    box = postgres_ref_array;
    unbox = as_postgres_ref_array;
    unbox-box = λ xs. refl;
  }

  abbrev as_config_status_array : Cell lib → Option (List PostgresConfigStatus)
  as_config_status_array (config_status_array xs) = some xs
  as_config_status_array _ = none

  abbrev pub config_status_kind : Kind lib PostgresConfigStatus
  config_status_kind = record {
    box = config_status_array;
    unbox = as_config_status_array;
    unbox-box = λ xs. refl;
  }

  abbrev as_grant_status_array : Cell lib → Option (List PostgresGrantStatus)
  as_grant_status_array (grant_status_array xs) = some xs
  as_grant_status_array _ = none

  abbrev pub grant_status_kind : Kind lib PostgresGrantStatus
  grant_status_kind = record {
    box = grant_status_array;
    unbox = as_grant_status_array;
    unbox-box = λ xs. refl;
  }

  abbrev as_publication_status_array : Cell lib → Option (List PostgresPublicationStatus)
  as_publication_status_array (publication_status_array xs) = some xs
  as_publication_status_array _ = none

  abbrev pub publication_status_kind : Kind lib PostgresPublicationStatus
  publication_status_kind = record {
    box = publication_status_array;
    unbox = as_publication_status_array;
    unbox-box = λ xs. refl;
  }

  abbrev as_table_status_array : Cell lib → Option (List PostgresTableStatus)
  as_table_status_array (table_status_array xs) = some xs
  as_table_status_array _ = none

  abbrev pub table_status_kind : Kind lib PostgresTableStatus
  table_status_kind = record {
    box = table_status_array;
    unbox = as_table_status_array;
    unbox-box = λ xs. refl;
  }

  abbrev as_config_array : Cell lib → Option (List (StoredConfig lib))
  as_config_array (config_array xs) = some xs
  as_config_array _ = none

  abbrev pub config_kind : Kind lib (StoredConfig lib)
  config_kind = record { box = config_array; unbox = as_config_array; unbox-box = λ xs. refl }

  abbrev as_grant_array : Cell lib → Option (List (StoredGrant lib))
  as_grant_array (grant_array xs) = some xs
  as_grant_array _ = none

  abbrev pub grant_kind : Kind lib (StoredGrant lib)
  grant_kind = record { box = grant_array; unbox = as_grant_array; unbox-box = λ xs. refl }

  abbrev as_publication_object_array : Cell lib → Option (List (StoredPublicationObject lib))
  as_publication_object_array (publication_object_array xs) = some xs
  as_publication_object_array _ = none

  abbrev pub publication_object_kind : Kind lib (StoredPublicationObject lib)
  publication_object_kind = record {
    box = publication_object_array;
    unbox = as_publication_object_array;
    unbox-box = λ xs. refl;
  }

  abbrev as_table_object_array : Cell lib → Option (List (StoredTableObject lib))
  as_table_object_array (table_object_array xs) = some xs
  as_table_object_array _ = none

  abbrev pub table_object_kind : Kind lib (StoredTableObject lib)
  table_object_kind = record {
    box = table_object_array;
    unbox = as_table_object_array;
    unbox-box = λ xs. refl;
  }

  abbrev as_object_list_array : Cell lib → Option (List (StoredList lib))
  as_object_list_array (object_list_array xs) = some xs
  as_object_list_array _ = none

  abbrev pub object_list_kind : Kind lib (StoredList lib)
  object_list_kind = record {
    box = object_list_array;
    unbox = as_object_list_array;
    unbox-box = λ xs. refl;
  }
