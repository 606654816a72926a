-- ===== src/Webhook/Tests.antt =====
-- The webhook's answers on the grants of `postgresgrant_types_test.go`, and the theorems at inputs.
use postgres_config_operator.Base.{
  String, List, [], ◌∷◌, ◌≡◌, refl, ◌↔◌, Listed, All, arith, inl, length, ◌≤◌,
}
use postgres_config_operator.Errors.{ok, err}
use postgres_config_operator.Api.{ObjectType, PostgresGrant, privileges_for_type}
use postgres_config_operator.Samples.{reader_grant}
use postgres_config_operator.Webhook.{
  all_not_alone, duplicate_privilege, invalid_privilege, validate_create, validate_privileges,
  validate_privileges_for_type, valid_privileges, validated_types,
}
use postgres_config_operator.Webhook.Accepts.{
  IsAcceptable, IsIterationOrder, validate_privileges-err, validate_privileges-ok_iff,
  validate_privileges_for_type-ok_iff,
}
use postgres_config_operator.Webhook.Bounds.{privileges_bound}
use postgres_config_operator.Webhook.Verdict.{Verdict, validate_privileges_for_type-Verdict}

abbrev with_privileges : List String → PostgresGrant
with_privileges ps = record reader_grant {
  spec = record (reader_grant.spec) { table_privileges = ps };
}

all_beside_others :
    validate_create validated_types (with_privileges ("SELECT" ∷ "ALL" ∷ [])) ≡ err all_not_alone
unfolding validate_create
all_beside_others = refl

repeated :
    validate_create validated_types (with_privileges ("SELECT" ∷ "SELECT" ∷ []))
    ≡ err (duplicate_privilege "table" "SELECT")
unfolding validate_create
repeated = refl

unknown :
    validate_create validated_types (with_privileges ("DUMMY" ∷ []))
    ≡ err (invalid_privilege "table" "DUMMY")
unfolding validate_create
unknown = refl

fine : validate_create validated_types (with_privileges ("SELECT" ∷ "UPDATE" ∷ [])) ≡ ok tt
unfolding validate_create
fine = refl

-- Another order in which Go may visit the five keys
abbrev other_order : List ObjectType
other_order = "function" ∷ "table" ∷ "schema" ∷ "sequence" ∷ "database" ∷ []

other_order-IsIterationOrder : IsIterationOrder other_order
other_order-IsIterationOrder o = ground arith

validate_privileges_for_type-Verdict_example :
    Verdict "table"
      ("SELECT" ∷ "SELECT" ∷ [])
      (validate_privileges_for_type ("SELECT" ∷ "SELECT" ∷ []) "table")
validate_privileges_for_type-Verdict_example =
    validate_privileges_for_type-Verdict ("SELECT" ∷ "SELECT" ∷ []) "table"

validate_privileges_for_type-ok_iff_example :
    (validate_privileges_for_type ("ALL" ∷ "USAGE" ∷ []) "schema" ≡ ok tt)
    ↔ IsAcceptable "schema" ("ALL" ∷ "USAGE" ∷ [])
validate_privileges_for_type-ok_iff_example =
    validate_privileges_for_type-ok_iff ("ALL" ∷ "USAGE" ∷ []) "schema"

validate_privileges-ok_iff_example :
    (validate_privileges other_order reader_grant ≡ ok tt)
    ↔ All (λ o. IsAcceptable o (privileges_for_type reader_grant o)) validated_types
validate_privileges-ok_iff_example =
    validate_privileges-ok_iff other_order reader_grant other_order-IsIterationOrder

dummy_refused :
    validate_privileges other_order (with_privileges ("DUMMY" ∷ []))
    ≡ err (invalid_privilege "table" "DUMMY")
unfolding validate_privileges
dummy_refused = refl

validate_privileges-err_example :
    (o : ObjectType) × Listed o validated_types
    × (validate_privileges_for_type (privileges_for_type (with_privileges ("DUMMY" ∷ [])) o) o
        ≡ err (invalid_privilege "table" "DUMMY"))
validate_privileges-err_example =
    validate_privileges-err other_order (with_privileges ("DUMMY" ∷ []))
      (invalid_privilege "table" "DUMMY") other_order-IsIterationOrder dummy_refused

other_order_accepts : validate_create other_order reader_grant ≡ ok tt
unfolding validate_create
other_order_accepts = refl

privileges_bound_example :
    (length (privileges_for_type reader_grant "table") ≤ length (valid_privileges "table"))
    × (Listed "ALL" (privileges_for_type reader_grant "table")
        → length (privileges_for_type reader_grant "table") ≤ 1)
privileges_bound_example =
    privileges_bound other_order reader_grant "table" other_order-IsIterationOrder
      other_order_accepts (inl refl)
