-- ===== src/Server/Grants.antt =====
-- A PostgreSQL server that serves the grants on tables to a role: what it answers to statements
-- `GRANT`, written down apart from `controllers/postgresgrant_controller.go`, and what the role may
-- do after them.
pub mod Wanted
pub mod Statements
pub mod Requests
mod Tests
use postgres_config_operator.Base.{
  String, ◌<>◌, List, [], ◌∷◌, ◌++◌, ◌≡◌, ◌≢◌, ◌⊎◌, All, Listed, join, length,
}
use postgres_config_operator.Errors.{ok}
use postgres_config_operator.Api.{PostgresGrant, PostgresIdentifier}
use postgres_config_operator.Effects.{History, Request, exec}
use postgres_config_operator.Effects.World.{World}
use postgres_config_operator.Server.{IsQuiet}

-- The resource lists tables only. A statement `GRANT` that names no object type is about a table.
pub record IsAboutTables (g : PostgresGrant) : Type 0 where
  pub sequences : g.spec.sequences ≡ []
  pub databases : g.spec.databases ≡ []
  pub schemas : g.spec.schemas ≡ []
  pub functions : g.spec.functions ≡ []

-- The rights that there are on a table
abbrev pub table_rights : List String
table_rights =
    "SELECT" ∷ "INSERT" ∷ "UPDATE" ∷ "DELETE" ∷ "TRUNCATE" ∷ "REFERENCES" ∷ "TRIGGER" ∷ []

-- What may stand between `GRANT` and `ON`: at least one word, each a right or "ALL", and nothing
-- beside "ALL"
pub record IsGrantable (words : List String) : Type 0 where
  pub nonempty : words ≢ []
  pub known : All (λ x. Listed x (table_rights ++ ("ALL" ∷ []))) words
  pub all_alone : Listed "ALL" words → length words ≡ 1

-- The rights that words stand for
abbrev pub Names : List String → String → Type 0
Names words x = Listed x table_rights × (Listed x words ⊎ Listed "ALL" words)

-- The rights that a resource asks for by its list: all of them, if it lists nothing
abbrev pub Asked : List String → String → Type 0
Asked [] x = Listed x table_rights
Asked (p ∷ ps) x = Names (p ∷ ps) x

abbrev pub grant_text : World → List String → PostgresIdentifier → String → String
grant_text w words t role =
    "GRANT "
    <> join ", " words
    <> " ON "
    <> w.sanitize (t.schema ∷ t.name ∷ [])
    <> " TO "
    <> w.sanitize (role ∷ [])

-- After a history, `Allows t x` says that the role has the right `x` on the table. Some tables are
-- there.
pub record ServesGrant (w : World) (role : String) (tables : List PostgresIdentifier)
    (Allows : PostgresIdentifier → String → History → Type 0) : Type 0 where
  pub accepts :
      (h : History) (t : PostgresIdentifier) (words : List String)
      → Listed t tables
      → IsGrantable words
      → w.executed h (grant_text w words t role) [] ≡ ok tt
  pub after_grant :
      (h : History) (t : PostgresIdentifier) (words : List String) (x : String)
      → Listed t tables
      → IsGrantable words
      → Names words x
      → Allows t x (exec (grant_text w words t role) [] ∷ h)
  -- what the other requests leave alone
  pub after_others :
      (h : History) (t u : PostgresIdentifier) (words : List String) (x : String)
      → IsGrantable words
      → Allows t x h
      → Allows t x (exec (grant_text w words u role) [] ∷ h)
  pub after_quiet :
      (q : Request) (h : History) (t : PostgresIdentifier) (x : String)
      → IsQuiet q
      → Allows t x h
      → Allows t x (q ∷ h)
