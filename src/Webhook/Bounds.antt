-- ===== src/Webhook/Bounds.antt =====
-- How many privileges a grant can have.
use postgres_config_operator.Base.{
  String, List, [], ◌∷◌, ◌≡◌, sym, ◌∙◌, ◌≤◌, suc, inl, inr, arith, length, Listed, All,
  All-of_Listed, at_Listed, Distinct, ◌≢◌, Bool-cases, ◌==◌, eq_iff, if◌then◌else◌,
}
use postgres_config_operator.Errors.{ok}
use postgres_config_operator.Api.{PostgresGrant, ObjectType, privileges_for_type}
use postgres_config_operator.Webhook.{valid_privileges, validate_create, validated_types}
use postgres_config_operator.Webhook.Accepts.{
  IsAcceptable, IsIterationOrder, validate_privileges-ok_iff,
}

-- The list without its first member of a name
abbrev drop_one : String → List String → List String
drop_one x [] = []
drop_one x (y ∷ ys) = let rest = drop_one x ys in if y == x then ys else y ∷ rest

length-drop_one :
    (x : String) (ys : List String) → Listed x ys → suc (length (drop_one x ys)) ≡ length ys
length-drop_one x [] l = elim l [ ]
length-drop_one x (y ∷ ys) l = elim (Bool-cases (y == x)) [
  | inl same ↦ rw same (omega arith)
  | inr other ↦ rw other (elim l [
    | inl e ↦ absurd (cc ((eq_iff y x).1 (sym e)))
    | inr there ↦ omega (arith, length-drop_one x ys there)
  ])
]

Listed-drop_one : (x z : String) (ys : List String) → x ≢ z → Listed z ys → Listed z (drop_one x ys)
Listed-drop_one x z [] ne l = l
Listed-drop_one x z (y ∷ ys) ne l = elim (Bool-cases (y == x)) [
  | inl same ↦
      rw same (elim l [ inl e ↦ absurd (ne (sym (e ∙ (eq_iff y x).0 same))) | inr there ↦ there ])
  | inr other ↦
      rw other (elim l [ inl e ↦ inl e | inr there ↦ inr (Listed-drop_one x z ys ne there) ])
]

-- Distinct members of a list are no more than its length.
length_of_Distinct :
    (xs ys : List String) → Distinct xs → All (λ x. Listed x ys) xs → length xs ≤ length ys
length_of_Distinct [] ys d a = omega arith
length_of_Distinct (x ∷ xs) ys d a =
    let rest = length_of_Distinct xs (drop_one x ys) d.1 (
      All-of_Listed (λ z. Listed z (drop_one x ys)) xs
        (λ z l.
          Listed-drop_one x z ys (at_Listed (λ y. x ≢ y) z xs d.0 l)
            (at_Listed (λ y. Listed y ys) z xs a.1 l))) in
    omega (arith, rest, length-drop_one x ys a.0)

-- If the webhook accepts a grant, in whatever order it visits the object types, then no type has
-- more privileges than there are, and one that has "ALL" has nothing else.
pub privileges_bound :
    (order : List ObjectType) (g : PostgresGrant) (o : ObjectType)
    → IsIterationOrder order
    → validate_create order g ≡ ok tt
    → Listed o validated_types
    → (length (privileges_for_type g o) ≤ length (valid_privileges o))
      × (Listed "ALL" (privileges_for_type g o) → length (privileges_for_type g o) ≤ 1)
unfolding validate_create
privileges_bound order g o visits accepted known =
    let a : IsAcceptable o (privileges_for_type g o) =
      at_Listed (λ t. IsAcceptable t (privileges_for_type g t)) o validated_types
        ((validate_privileges-ok_iff order g visits).0 accepted) known in
    (
      length_of_Distinct (privileges_for_type g o) (valid_privileges o) a.distinct a.valid,
      λ l. omega (arith, a.all_alone l),
    )
