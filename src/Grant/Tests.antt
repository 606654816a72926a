-- ===== src/Grant/Tests.antt =====
-- Statements for grants, and the theorems at inputs.
use postgres_config_operator.Base.{[], ◌∷◌, ◌≡◌, refl, All, Distinct, arith}
use postgres_config_operator.Errors.{ok}
use postgres_config_operator.Api.{privileges_for_type}
use postgres_config_operator.Effects.{event, exec, normal, history}
use postgres_config_operator.Effects.Hoare.{Post}
use postgres_config_operator.Grant.{object_types_to_reconcile, reconcile_types, wanted_privileges}
use postgres_config_operator.Grant.Privileges.{wanted_privileges-IsValid}
use postgres_config_operator.Grant.Requests.{Granted, grants-Granted, types_requests}
use postgres_config_operator.Samples.{at, calm, reader_grant}
use postgres_config_operator.Webhook.{validate_create, validated_types}
use postgres_config_operator.Webhook.Accepts.{IsIterationOrder}
use postgres_config_operator.Webhook.Verdict.{IsValidPrivilege}

-- The statement for the database has the form of one for a table.
statements :
    history (reconcile_types calm reader_grant object_types_to_reconcile [])
    ≡ event (at "reader") normal "SuccessfulReconcile" "successfully reconcilled grant"
      ∷ exec "GRANT SELECT, UPDATE ON \"public\".\"jobs\" TO \"reader\"" []
      ∷ exec "GRANT ALL ON \"app\" TO \"reader\"" []
      ∷ []
unfolding reconcile_types
statements = refl

grants-Granted_example :
    Post
      (Granted calm reader_grant
        (types_requests calm reader_grant object_types_to_reconcile)
        (λ l. event (at "reader") normal "SuccessfulReconcile" "successfully reconcilled grant" ∷ l)
        [])
      (λ _. ⊥)
      (reconcile_types calm reader_grant object_types_to_reconcile [])
grants-Granted_example = grants-Granted calm reader_grant []

as_written : IsIterationOrder validated_types
as_written o = (λ l. l, λ l. l)

reader_accepted : validate_create validated_types reader_grant ≡ ok tt
unfolding validate_create
reader_accepted = refl

wanted_privileges-IsValid_example :
    All (IsValidPrivilege "table") (wanted_privileges (privileges_for_type reader_grant "table"))
    × Distinct (wanted_privileges (privileges_for_type reader_grant "table"))
wanted_privileges-IsValid_example =
    wanted_privileges-IsValid validated_types reader_grant "table" as_written reader_accepted
      (ground arith)
