-- ===== src/Manager/Aiven.antt =====
-- `AivenManager`, `controllers/publicationmanager/aiven.go`: publications are created by a function
-- of the extension aiven-extras. It embeds `StdManager` and passes the other calls on.
use postgres_config_operator.Base.{String, Bool, [], ◌∷◌}
use postgres_config_operator.Api.{PostgresPublication}
use postgres_config_operator.Effects.{M, text, texts}
use postgres_config_operator.Effects.World.{World, do_exec}
use postgres_config_operator.Manager.{Manager, created_or_known, table_identifiers}
use postgres_config_operator.Manager.Std.{
  joined_operations, alter_existing_publication, drop_publication,
}

abbrev pub create_query : String
create_query = "SELECT * FROM aiven_extras.pg_create_publication($1, $2, VARIADIC $3)"

module _ (w : World) where
  -- `AivenManager.CreatePublication`. `joined_operations` is the same choice of the operations, or
  -- all of them, that `StdManager` makes when it alters a publication.
  unfoldable pub create_publication : PostgresPublication → M Bool
  unfolding created_or_known table_identifiers joined_operations
  create_publication p = created_or_known (
      do_exec w create_query (
        text p.spec.name
        ∷ text (joined_operations p.spec.operations)
        ∷ texts (table_identifiers w p.spec.tables)
        ∷ []))

  unfoldable pub aiven_manager : Manager
  unfolding create_publication alter_existing_publication drop_publication
  aiven_manager = record {
    create_publication = create_publication;
    alter_existing_publication = alter_existing_publication w;
    drop_publication = drop_publication w;
  }
