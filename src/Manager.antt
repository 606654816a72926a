-- ===== src/Manager.antt =====
-- `controllers/publicationmanager`: the two ways to manage publications on a PostgreSQL server. The
-- Go interface `Manager` is a record of operations; its implementations send statements through a
-- connection, which the world answers.
pub mod Std
pub mod Aiven
pub mod Texts
pub mod Alter
pub mod Keeping
pub mod Tests
use postgres_config_operator.Base.{String, Bool, true, false, List, [], ◌∷◌, if◌then◌else◌}
use postgres_config_operator.Errors.{wrapped, has_code}
use postgres_config_operator.Api.{PostgresPublication, PostgresIdentifier, qualified}
use postgres_config_operator.Effects.{M, return, fail, attempt}
use postgres_config_operator.Effects.World.{World}

pub record Manager : Type 0 where
  -- true if the publication is new, false if it was there
  pub create_publication : PostgresPublication → M Bool
  pub alter_existing_publication : PostgresPublication → M (Unit {0})
  pub drop_publication : String → M (Unit {0})

abbrev pub default_publish_operations : String
default_publish_operations = "insert, update, delete, truncate"

-- `pgerrcode.DuplicateObject`
abbrev pub duplicate_object : String
duplicate_object = "42710"

-- What both implementations of `CreatePublication` do with the error of the statement.
unfoldable pub created_or_known : M (Unit {0}) → M Bool
unfolding has_code
created_or_known m =
    attempt m
      (λ e.
        if has_code e duplicate_object
        then return false
        else fail (wrapped "failed to execute query" e))
      (λ _. return true)

module _ (w : World) where
  -- The loop that collects the sanitized names of the tables.
  unfoldable pub table_identifiers : List PostgresIdentifier → List String
  table_identifiers [] = []
  table_identifiers (t ∷ ts) = w.sanitize (qualified t) ∷ table_identifiers ts
