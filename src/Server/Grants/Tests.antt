-- ===== src/Server/Grants/Tests.antt =====
-- A server that grants rights on a table.
use postgres_config_operator.Base.{String, List, ◌⊎◌, some, [], ◌∷◌, ◌≡◌, inl, inr, refl, Listed}
use postgres_config_operator.Errors.{ok}
use postgres_config_operator.Api.{PostgresGrant, PostgresIdentifier}
use postgres_config_operator.Effects.{History, Request, done, exec}
use postgres_config_operator.Effects.World.{World}
use postgres_config_operator.Events.{finished}
use postgres_config_operator.Grant.{reconcile_request}
use postgres_config_operator.Server.{IsQuiet, Opens}
use postgres_config_operator.Server.Grants.{Asked, IsAboutTables, Names, ServesGrant, grant_text}
use postgres_config_operator.Webhook.{validate_create, validated_types}
use postgres_config_operator.Webhook.Accepts.{IsIterationOrder}
use postgres_config_operator.Server.Grants.Requests.{grant_request-AllowsAll}
use postgres_config_operator.Samples.{at, calm, reader_grant}

abbrev jobs_grant : PostgresGrant
jobs_grant = record reader_grant { spec = record (reader_grant.spec) { databases = [] } }

abbrev jobs_server : World
jobs_server = record calm { grant_at = λ h key. ok jobs_grant }

-- The role has a right on a table once a statement granted it.
abbrev MayUse : PostgresIdentifier → String → History → Type 0
MayUse t x [] = ⊥
MayUse t x (exec sql args ∷ h) =
    ((words : List String) × Names words x × (sql ≡ grant_text jobs_server words t "reader"))
    ⊎ MayUse t x h
MayUse t x (q ∷ h) = MayUse t x h

still_granted :
    (q : Request) (h : History) (t : PostgresIdentifier) (x : String)
    → IsQuiet q
    → MayUse t x h
    → MayUse t x (q ∷ h)
still_granted (exec sql args) h t x quiet may = absurd quiet
still_granted q h t x quiet may = may

serves : ServesGrant jobs_server "reader" jobs_grant.spec.tables MayUse
serves = record {
  accepts = λ h t words l grantable. refl;
  after_grant = λ h t words x l grantable named. inl (words, named, refl);
  after_others = λ h t u words x grantable may. inr may;
  after_quiet = still_granted;
}

visits : IsIterationOrder validated_types
visits o = (λ l. l, λ l. l)

accepted : validate_create validated_types jobs_grant ≡ ok tt
unfolding validate_create
accepted = refl

opens : Opens jobs_server jobs_grant.spec.postgres_ref jobs_grant.metadata
opens = record {
  secret = ("POSTGRES_USER", "ann") ∷ ("pass", "pw") ∷ [];
  reads = λ h. refl;
  connects = λ h. refl;
}

tables_only : IsAboutTables jobs_grant
tables_only = record { sequences = refl; databases = refl; schemas = refl; functions = refl }

grant_request-AllowsAll_example :
    (h' : History) × (reconcile_request jobs_server (some []) (at "reader") [] ≡ done finished h')
    × ((t : PostgresIdentifier) (x : String)
        → Listed t jobs_grant.spec.tables
        → Asked jobs_grant.spec.table_privileges x
        → MayUse t x h')
grant_request-AllowsAll_example =
    grant_request-AllowsAll jobs_server jobs_grant MayUse serves tables_only validated_types visits
      accepted (some []) (some ("postgresgrant" ∷ [])) (at "reader") [] refl opens refl
