-- ===== src/Server/Grants/Wanted.antt =====
-- The privileges that the controller sends for tables, if the admission webhook let the grant through.
use postgres_config_operator.Base.{String, List, [], ◌∷◌, ◌≡◌, inl, inr, refl, arith}
use postgres_config_operator.Errors.{ok}
use postgres_config_operator.Api.{ObjectType, PostgresGrant, object_type_table, privileges_for_type}
use postgres_config_operator.Webhook.{valid_privileges, validate_create}
use postgres_config_operator.Webhook.Accepts.{
  IsAcceptable, IsIterationOrder, validate_privileges-ok_iff,
}
use postgres_config_operator.Grant.{wanted_privileges}
use postgres_config_operator.Server.Grants.{Asked, IsGrantable, Names}

IsGrantable-if_acceptable :
    (ps : List String) → IsAcceptable object_type_table ps → IsGrantable (wanted_privileges ps)
unfolding wanted_privileges valid_privileges
IsGrantable-if_acceptable [] a = record {
  nonempty = λ e. cc;
  known = ground arith;
  all_alone = λ l. refl;
}
IsGrantable-if_acceptable (p ∷ ps) a = record {
  nonempty = λ e. cc;
  known = a.valid;
  all_alone = a.all_alone;
}

pub wanted_privileges-IsGrantable :
    (order : List ObjectType) (g : PostgresGrant)
    → IsIterationOrder order
    → validate_create order g ≡ ok tt
    → IsGrantable (wanted_privileges g.spec.table_privileges)
unfolding validate_create privileges_for_type
wanted_privileges-IsGrantable order g visits accepted =
    IsGrantable-if_acceptable g.spec.table_privileges
      ((validate_privileges-ok_iff order g visits).0 accepted).0

-- The words of the statement stand for the rights that are asked for.
pub wanted_privileges-Names :
    (ps : List String) (x : String) → Asked ps x → Names (wanted_privileges ps) x
unfolding wanted_privileges
wanted_privileges-Names [] x right = (right, inr (inl refl))
wanted_privileges-Names (p ∷ ps) x named = named
