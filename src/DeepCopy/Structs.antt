-- ===== src/DeepCopy/Structs.antt =====
-- `zz_generated.deepcopy.go`: the structs without metadata.
use postgres_config_operator.DeepCopy.Memory.{
  Library, StoredConfigSpec, StoredGrantSpec, StoredPublication, StoredPublicationSpec, StoredTable,
  StoredTableSpec, M, Pointer, return, ◌>>=◌,
}
use postgres_config_operator.DeepCopy.Kinds.{
  string_kind, identifier_kind, column_kind, publication_kind, table_kind, config_spec_kind,
  grant_spec_kind, publication_spec_kind, table_spec_kind, secret_ref_kind, postgres_ref_kind,
  config_status_kind, grant_status_kind, publication_status_kind, table_status_kind,
}
use postgres_config_operator.DeepCopy.Parts.{copy_slice, copy_value, deep_copy}

module _ {lib : Library} where
  -- `Publication.DeepCopyInto`
  unfoldable pub copy_publication : StoredPublication → M lib StoredPublication
  unfolding copy_slice
  copy_publication x = do
    tables ← copy_slice identifier_kind copy_value x.tables
    operations ← copy_slice string_kind copy_value x.operations
    return (record x { tables = tables; operations = operations })

  -- `Table.DeepCopyInto`
  unfoldable pub copy_table : StoredTable → M lib StoredTable
  unfolding copy_slice
  copy_table x = do
    columns ← copy_slice column_kind copy_value x.columns
    return (record x { columns = columns })

  -- `PostgresConfigSpec.DeepCopyInto`
  unfoldable pub copy_config_spec : StoredConfigSpec → M lib StoredConfigSpec
  unfolding copy_slice
  copy_config_spec x = do
    publications ← copy_slice publication_kind copy_publication x.publications
    tables ← copy_slice table_kind copy_table x.tables
    return (record x { publications = publications; tables = tables })

  -- `PostgresGrantSpec.DeepCopyInto`
  unfoldable pub copy_grant_spec : StoredGrantSpec → M lib StoredGrantSpec
  unfolding copy_slice
  copy_grant_spec x = do
    tables ← copy_slice identifier_kind copy_value x.tables
    table_privileges ← copy_slice string_kind copy_value x.table_privileges
    sequences ← copy_slice identifier_kind copy_value x.sequences
    sequence_privileges ← copy_slice string_kind copy_value x.sequence_privileges
    databases ← copy_slice string_kind copy_value x.databases
    database_privileges ← copy_slice string_kind copy_value x.database_privileges
    schemas ← copy_slice string_kind copy_value x.schemas
    schema_privileges ← copy_slice string_kind copy_value x.schema_privileges
    functions ← copy_slice identifier_kind copy_value x.functions
    function_privileges ← copy_slice string_kind copy_value x.function_privileges
    return (record x {
      tables = tables;
      table_privileges = table_privileges;
      sequences = sequences;
      sequence_privileges = sequence_privileges;
      databases = databases;
      database_privileges = database_privileges;
      schemas = schemas;
      schema_privileges = schema_privileges;
      functions = functions;
      function_privileges = function_privileges;
    })

  -- `PostgresPublicationSpec.DeepCopyInto`
  unfoldable pub copy_publication_spec : StoredPublicationSpec → M lib StoredPublicationSpec
  unfolding copy_slice
  copy_publication_spec x = do
    tables ← copy_slice identifier_kind copy_value x.tables
    operations ← copy_slice string_kind copy_value x.operations
    return (record x { tables = tables; operations = operations })

  -- `PostgresTableSpec.DeepCopyInto`
  unfoldable pub copy_table_spec : StoredTableSpec → M lib StoredTableSpec
  unfolding copy_slice
  copy_table_spec x = do
    columns ← copy_slice column_kind copy_value x.columns
    return (record x { columns = columns })

  -- `DeepCopy` of each type
  unfoldable pub deep_copy_publication : Pointer → M lib Pointer
  unfolding deep_copy
  deep_copy_publication p = deep_copy publication_kind copy_publication p

  unfoldable pub deep_copy_table : Pointer → M lib Pointer
  unfolding deep_copy
  deep_copy_table p = deep_copy table_kind copy_table p

  unfoldable pub deep_copy_config_spec : Pointer → M lib Pointer
  unfolding deep_copy
  deep_copy_config_spec p = deep_copy config_spec_kind copy_config_spec p

  unfoldable pub deep_copy_grant_spec : Pointer → M lib Pointer
  unfolding deep_copy
  deep_copy_grant_spec p = deep_copy grant_spec_kind copy_grant_spec p

  unfoldable pub deep_copy_publication_spec : Pointer → M lib Pointer
  unfolding deep_copy
  deep_copy_publication_spec p = deep_copy publication_spec_kind copy_publication_spec p

  unfoldable pub deep_copy_table_spec : Pointer → M lib Pointer
  unfolding deep_copy
  deep_copy_table_spec p = deep_copy table_spec_kind copy_table_spec p

  unfoldable pub deep_copy_column : Pointer → M lib Pointer
  unfolding deep_copy
  deep_copy_column p = deep_copy column_kind copy_value p

  unfoldable pub deep_copy_identifier : Pointer → M lib Pointer
  unfolding deep_copy
  deep_copy_identifier p = deep_copy identifier_kind copy_value p

  unfoldable pub deep_copy_secret_ref : Pointer → M lib Pointer
  unfolding deep_copy
  deep_copy_secret_ref p = deep_copy secret_ref_kind copy_value p

  unfoldable pub deep_copy_postgres_ref : Pointer → M lib Pointer
  unfolding deep_copy
  deep_copy_postgres_ref p = deep_copy postgres_ref_kind copy_value p

  unfoldable pub deep_copy_config_status : Pointer → M lib Pointer
  unfolding deep_copy
  deep_copy_config_status p = deep_copy config_status_kind copy_value p

  unfoldable pub deep_copy_grant_status : Pointer → M lib Pointer
  unfolding deep_copy
  deep_copy_grant_status p = deep_copy grant_status_kind copy_value p

  unfoldable pub deep_copy_publication_status : Pointer → M lib Pointer
  unfolding deep_copy
  deep_copy_publication_status p = deep_copy publication_status_kind copy_value p

  unfoldable pub deep_copy_table_status : Pointer → M lib Pointer
  unfolding deep_copy
  deep_copy_table_status p = deep_copy table_status_kind copy_value p
