-- ===== src/Manager/Texts.antt =====
-- What managers are to send for a publication, written down apart from the code.
use postgres_config_operator.Base.{String, ◌<>◌, List, [], ◌∷◌, ◌≡◌, refl, ap, map, join}
use postgres_config_operator.Api.{PostgresIdentifier, PostgresPublicationSpec}
use postgres_config_operator.Effects.{M, wrap, ◌>>=◌, ◌>>◌}
use postgres_config_operator.Effects.World.{World, do_exec}
use postgres_config_operator.Manager.{table_identifiers}
use postgres_config_operator.Manager.Std.{escape, for_table_part, joined_operations}

-- The listed operations, or all that PostgreSQL publishes
abbrev pub published_operations : List String → String
published_operations [] = "insert, update, delete, truncate"
published_operations (o ∷ os) = join ", " (o ∷ os)

pub joined_operations_lem : (os : List String) → joined_operations os ≡ published_operations os
unfolding joined_operations
joined_operations_lem [] = refl
joined_operations_lem (o ∷ os) = refl

module _ (w : World) where
  abbrev pub quoted_tables : List PostgresIdentifier → List String
  quoted_tables ts = map (λ t. w.sanitize (t.schema ∷ t.name ∷ [])) ts

  pub table_identifiers_lem :
      (ts : List PostgresIdentifier) → table_identifiers w ts ≡ quoted_tables ts
  unfolding table_identifiers
  table_identifiers_lem [] = refl
  table_identifiers_lem (t ∷ ts) =
      ap (λ l. w.sanitize (t.schema ∷ t.name ∷ []) ∷ l) (table_identifiers_lem ts)

  -- The clause for the tables of a new publication
  abbrev pub tables_clause : List PostgresIdentifier → String
  tables_clause [] = "FOR ALL TABLES"
  tables_clause (t ∷ ts) = "FOR TABLE " <> join ", " (quoted_tables (t ∷ ts))

  pub for_table_part_lem : (ts : List PostgresIdentifier) → for_table_part w ts ≡ tables_clause ts
  unfolding for_table_part
  for_table_part_lem [] = refl
  for_table_part_lem (t ∷ ts) =
      ap (λ l. "FOR TABLE " <> join ", " l) (table_identifiers_lem (t ∷ ts))

  abbrev pub set_tables_text : PostgresPublicationSpec → String
  set_tables_text s =
      "ALTER PUBLICATION "
      <> w.sanitize (s.name ∷ [])
      <> " SET TABLE "
      <> join ", " (quoted_tables s.tables)

  abbrev pub set_operations_text : PostgresPublicationSpec → String → String
  set_operations_text s operations =
      "ALTER PUBLICATION " <> w.sanitize (s.name ∷ []) <> " SET (publish = '" <> operations <> "')"

  abbrev pub drop_text : String → String
  drop_text name = "DROP PUBLICATION " <> w.sanitize (name ∷ [])

  -- `AlterExistingPublication`, with its statements and the operations as arguments
  abbrev pub alter_by : String → String → (String → String) → M (Unit {0})
  alter_by tables operations param =
      wrap "failed to set table to publication" (do_exec w tables [])
      >> (wrap "failed to escape operations" (escape w operations) >>= λ s.
          wrap "failed to set publication parameter" (do_exec w (param s) []))
