-- ===== src/Grant/Privileges.antt =====
-- The privileges in the statements are those that the admission webhook let through.
use postgres_config_operator.Base.{
  String, List, [], ◌∷◌, ◌≡◌, arith, Listed, All, Distinct, at_Listed,
}
use postgres_config_operator.Errors.{ok}
use postgres_config_operator.Api.{ObjectType, PostgresGrant, privileges_for_type}
use postgres_config_operator.Webhook.{validated_types, validate_create, valid_privileges}
use postgres_config_operator.Webhook.Accepts.{
  IsAcceptable, IsIterationOrder, validate_privileges-ok_iff,
}
use postgres_config_operator.Webhook.Verdict.{IsValidPrivilege}
use postgres_config_operator.Grant.{object_types_to_reconcile, wanted_privileges}

-- "ALL" is valid for every object type that is reconciled.
All-IsValid : All (λ o. IsValidPrivilege o "ALL") object_types_to_reconcile
unfolding valid_privileges
All-IsValid = ground arith

reconciled_validated : All (λ o. Listed o validated_types) object_types_to_reconcile
reconciled_validated = ground arith

wanted-IsValid :
    (o : ObjectType) (ps : List String)
    → IsValidPrivilege o "ALL"
    → IsAcceptable o ps
    → All (IsValidPrivilege o) (wanted_privileges ps) × Distinct (wanted_privileges ps)
unfolding wanted_privileges
wanted-IsValid o [] every a = ((every, tt), (tt, tt))
wanted-IsValid o (p ∷ ps) every a = (a.valid, a.distinct)

-- If the webhook accepts a grant, in whatever order it visits the object types, then the privileges
-- of every statement of the controller are valid for the object type of the statement, and distinct.
pub wanted_privileges-IsValid :
    (order : List ObjectType) (g : PostgresGrant) (o : ObjectType)
    → IsIterationOrder order
    → validate_create order g ≡ ok tt
    → Listed o object_types_to_reconcile
    → All (IsValidPrivilege o) (wanted_privileges (privileges_for_type g o))
      × Distinct (wanted_privileges (privileges_for_type g o))
unfolding validate_create
wanted_privileges-IsValid order g o visits accepted l =
    wanted-IsValid o (privileges_for_type g o)
      (at_Listed (λ t. IsValidPrivilege t "ALL") o object_types_to_reconcile All-IsValid l)
      (at_Listed (λ t. IsAcceptable t (privileges_for_type g t)) o validated_types
        ((validate_privileges-ok_iff order g visits).0 accepted)
        (at_Listed (λ t. Listed t validated_types) o object_types_to_reconcile reconciled_validated
          l))
