-- ===== src/Manager/Std.antt =====
-- `StdManager`, `controllers/publicationmanager/std.go`: plain SQL statements.
use postgres_config_operator.Base.{String, ◌<>◌, Bool, List, [], ◌∷◌, join}
use postgres_config_operator.Api.{PostgresPublication, PostgresIdentifier, single}
use postgres_config_operator.Effects.{M, return, wrap, ◌>>=◌, ◌>>◌, answer}
use postgres_config_operator.Effects.World.{World, do_exec}
use postgres_config_operator.Manager.{
  Manager, default_publish_operations, created_or_known, table_identifiers,
}

-- The listed operations, or all of them.
unfoldable pub joined_operations : List String → String
unfolding join
joined_operations [] = default_publish_operations
joined_operations (o ∷ os) = join ", " (o ∷ os)

module _ (w : World) where
  unfoldable pub for_table_part : List PostgresIdentifier → String
  unfolding table_identifiers join
  for_table_part [] = "FOR ALL TABLES"
  for_table_part (t ∷ ts) = "FOR TABLE " <> join ", " (table_identifiers w (t ∷ ts))

  -- `EscapeString`, by the state of the connection; it sends nothing.
  abbrev pub escape : String → M String
  escape s h = answer (w.escape_string h s) h

  -- The publication parameter; empty if no operation is listed.
  unfoldable pub with_part : List String → M String
  unfolding join
  with_part [] = return ""
  with_part (o ∷ os) = do
    escaped ← wrap "failed to escape string" (escape (join ", " (o ∷ os)))
    return ("WITH (publish = '" <> escaped <> "')")

  -- `buildCreatePublicationQuery`
  unfoldable pub build_create_publication_query : PostgresPublication → M String
  unfolding for_table_part with_part join
  build_create_publication_query p = do
    options ← with_part p.spec.operations
    return (
        join " " (
          "CREATE PUBLICATION"
          ∷ w.sanitize (single p.spec.name)
          ∷ for_table_part p.spec.tables
          ∷ options
          ∷ []))

  -- `CreatePublication`
  unfoldable pub create_publication : PostgresPublication → M Bool
  unfolding build_create_publication_query created_or_known
  create_publication p = do
    query ← wrap "failed to build create publication query" (build_create_publication_query p)
    created_or_known (do_exec w query [])

  unfoldable pub set_table_query : PostgresPublication → String
  unfolding table_identifiers join
  set_table_query p =
      "ALTER PUBLICATION "
      <> w.sanitize (single p.spec.name)
      <> " SET TABLE "
      <> join ", " (table_identifiers w p.spec.tables)

  unfoldable pub set_param_query : PostgresPublication → String → String
  set_param_query p operations =
      "ALTER PUBLICATION "
      <> w.sanitize (single p.spec.name)
      <> " SET (publish = '"
      <> operations
      <> "')"

  -- `AlterExistingPublication`
  unfoldable pub alter_existing_publication : PostgresPublication → M (Unit {0})
  unfolding set_table_query joined_operations set_param_query
  alter_existing_publication p = do
    wrap "failed to set table to publication" (do_exec w (set_table_query p) [])
    operations ← wrap "failed to escape operations" (escape (joined_operations p.spec.operations))
    wrap "failed to set publication parameter" (do_exec w (set_param_query p operations) [])

  unfoldable pub drop_query : String → String
  drop_query name = "DROP PUBLICATION " <> w.sanitize (single name)

  -- `DropPublication`
  unfoldable pub drop_publication : String → M (Unit {0})
  unfolding drop_query
  drop_publication name = wrap "failed to drop publication" (do_exec w (drop_query name) [])

  unfoldable pub std_manager : Manager
  unfolding create_publication alter_existing_publication drop_publication
  std_manager = record {
    create_publication = create_publication;
    alter_existing_publication = alter_existing_publication;
    drop_publication = drop_publication;
  }
