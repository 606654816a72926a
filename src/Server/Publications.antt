-- ===== src/Server/Publications.antt =====
-- A PostgreSQL server with one publication, and what a manager of `controllers/publicationmanager`
-- promises of it: the contract of the interface `Manager` (manager.go).
pub mod Managers
pub mod Finalizing
pub mod Requests
pub mod FromConfig
pub mod Samples
mod Tests
use postgres_config_operator.Base.{
  ℕ, Bool, String, ◌<>◌, true, false, Option, none, some, List, [], ◌∷◌, ◌≡◌, ◌≢◌, join,
}
use postgres_config_operator.Errors.{Err, Result, ok, err, has_code}
use postgres_config_operator.Api.{
  PostgresIdentifier, PostgresPublication, PostgresPublicationSpec, single,
}
use postgres_config_operator.Effects.{Argument, Request, History, exec, text, texts}
use postgres_config_operator.Effects.World.{World}
use postgres_config_operator.Manager.{Manager, duplicate_object}
use postgres_config_operator.Manager.Texts.{
  drop_text, published_operations, quoted_tables, set_operations_text, set_tables_text,
  tables_clause,
}
use postgres_config_operator.Server.{Ends, IsQuiet}

-- A publication as the server has it: its tables and the operations that it publishes
pub record Published : Type 0 where
  pub tables : List PostgresIdentifier
  pub operations : String

-- What a spec asks for; no listed operation stands for all of them.
abbrev pub wanted : PostgresPublicationSpec → Published
wanted s = record { tables = s.tables; operations = published_operations s.operations }

-- The publication after a history, if it is there
abbrev pub View : Type 0
View = History → Option Published

-- Whoever implements `Manager`: a publication that is not there is created as the spec asks; one that
-- is there is left alone by `CreatePublication`, brought to what the spec asks by
-- `AlterExistingPublication`, and gone after `DropPublication`.
pub record Manages (m : Manager) (p : PostgresPublication) (view : View) : Type 0 where
  pub creates :
      Ends
        (λ h. view h ≡ none)
        (m.create_publication p)
        (λ created h. (created ≡ true) × (view h ≡ some (wanted p.spec)))
  pub knows :
      (s : Published)
      → Ends
          (λ h. view h ≡ some s)
          (m.create_publication p)
          (λ created h. (created ≡ false) × (view h ≡ some s))
  pub alters :
      (s : Published)
      → Ends
          (λ h. view h ≡ some s)
          (m.alter_existing_publication p)
          (λ _ h. view h ≡ some (wanted p.spec))
  pub drops :
      (s : Published)
      → Ends (λ h. view h ≡ some s) (m.drop_publication p.spec.name) (λ _ h. view h ≡ none)

-- The API server stores what it is sent, up to its own fields.
abbrev pub Stores : World → Type 0
Stores w =
    (h : History) (q : PostgresPublication)
    → (q' : PostgresPublication) × (w.updated h q ≡ ok q') × (q'.spec ≡ q.spec)

-- What a reconciliation leaves, by the deletion timestamp and whether the finalizer is there
unfoldable pub settled : Option ℕ → Bool → Published → Option Published → Option Published
settled none held asked now = some asked
settled (some _) true asked now = none
settled (some _) false asked now = now

-- There is something to drop if a deletion drops the publication.
abbrev pub IsDroppable : Option ℕ → Bool → Option Published → Type 0
IsDroppable (some _) true none = ⊥
IsDroppable _ _ _ = Unit

module _ (w : World) (escaped : String → String) (s : PostgresPublicationSpec) where
  -- The statements that managers send for a spec, with `escaped` for `EscapeString`
  abbrev pub with_text : List String → String
  with_text [] = ""
  with_text (o ∷ os) = "WITH (publish = '" <> escaped (join ", " (o ∷ os)) <> "')"

  abbrev pub create_text : String
  create_text = join " " (
      "CREATE PUBLICATION"
      ∷ w.sanitize (single s.name)
      ∷ tables_clause w s.tables
      ∷ with_text s.operations
      ∷ [])

  -- The call of the function of aiven-extras
  abbrev pub create_call : String
  create_call = "SELECT * FROM aiven_extras.pg_create_publication($1, $2, VARIADIC $3)"

  abbrev pub create_arguments : List Argument
  create_arguments =
      text s.name ∷ text (published_operations s.operations) ∷ texts (quoted_tables w s.tables) ∷ []

  abbrev pub tables_text : String
  tables_text = set_tables_text w s

  abbrev pub operations_text : String
  operations_text = set_operations_text w s (escaped (published_operations s.operations))

  -- A creation as PostgreSQL answers and carries it out, by a statement or by a function call
  pub record Creates (view : View) (sql : String) (args : List Argument) : Type 0 where
    pub accepts : (h : History) → view h ≡ none → w.executed h sql args ≡ ok tt
    pub refuses :
        (h : History) (now : Published)
        → view h ≡ some now
        → (e : Err) × (w.executed h sql args ≡ err e) × (has_code e duplicate_object ≡ true)
    pub after_new : (h : History) → view h ≡ none → view (exec sql args ∷ h) ≡ some (wanted s)
    pub after_old :
        (h : History) (now : Published) → view h ≡ some now → view (exec sql args ∷ h) ≡ some now

  pub record ServesPublication (view : View) : Type 0 where
    pub escapes : (h : History) (x : String) → w.escape_string h x ≡ ok (escaped x)
    pub by_statement : s.postgres_ref.variant ≢ "aiven" → Creates view create_text []
    pub by_function : s.postgres_ref.variant ≡ "aiven" → Creates view create_call create_arguments
    pub sets_tables :
        (h : History) (now : Published)
        → s.tables ≢ []
        → view h ≡ some now
        → w.executed h tables_text [] ≡ ok tt
    pub sets_operations :
        (h : History) (now : Published)
        → view h ≡ some now
        → w.executed h operations_text [] ≡ ok tt
    pub drops :
        (h : History) (now : Published)
        → view h ≡ some now
        → w.executed h (drop_text w s.name) [] ≡ ok tt
    -- what the other requests do
    pub after_quiet : (q : Request) (h : History) → IsQuiet q → view (q ∷ h) ≡ view h
    pub after_tables :
        (h : History) (now : Published)
        → view h ≡ some now
        → view (exec tables_text [] ∷ h) ≡ some (record now { tables = s.tables })
    pub after_operations :
        (h : History) (now : Published)
        → view h ≡ some now
        → view (exec operations_text [] ∷ h)
          ≡ some (record now { operations = published_operations s.operations })
    pub after_drop : (h : History) → view (exec (drop_text w s.name) [] ∷ h) ≡ none
