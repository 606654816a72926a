-- ===== src/Webhook/Accepts.antt =====
-- Which grants the webhook accepts, whatever order Go visits a map in.
use postgres_config_operator.Base.{
  String, List, [], ◌∷◌, ◌++◌, ◌≡◌, refl, ◌↔◌, ◌≢◌, inl, inr, ◌⊎◌, arith, length, Listed, All,
  Distinct, at_Listed, sym, subst, Listed-append_right, eq_iff, All-of_Listed,
}
use postgres_config_operator.Errors.{Err, Result, ok, err}
use postgres_config_operator.Api.{PostgresGrant, ObjectType, privileges_for_type}
use postgres_config_operator.Webhook.{
  validate_privileges_for_type, validate_privileges, validated_types, validation_input,
}
use postgres_config_operator.Webhook.Verdict.{
  IsValidPrivilege, Verdict, accepted, invalid, duplicate, all_with_others,
  validate_privileges_for_type-Verdict,
}

-- What the API documents of the privileges for one object type.
pub record IsAcceptable (o : ObjectType) (ps : List String) : Type 0 where
  pub valid : All (IsValidPrivilege o) ps
  pub distinct : Distinct ps
  pub all_alone : Listed "ALL" ps → length ps ≡ 1

not-Distinct :
    (before : List String) (p : String) (after : List String)
    → Listed p before
    → ¬ Distinct (before ++ p ∷ after)
not-Distinct [] p after l d = elim l [ ]
not-Distinct (x ∷ before) p after (inl e) d =
    at_Listed (λ y. x ≢ y) p (before ++ p ∷ after) d.0 (Listed-append_right p before _ (inl refl))
      (sym e)
not-Distinct (x ∷ before) p after (inr l) d = not-Distinct before p after l d.1

accepts_of_Verdict :
    (o : ObjectType) (ps : List String) {r : Result (Unit {0})}
    → IsAcceptable o ps
    → Verdict o ps r
    → r ≡ ok tt
accepts_of_Verdict o ps a (accepted e _ _ _) = e
accepts_of_Verdict o ps a (invalid before p after s e _ _ bad) = absurd (
    bad (
      at_Listed (IsValidPrivilege o) p (before ++ p ∷ after)
        (subst (All (IsValidPrivilege o)) s a.valid) (Listed-append_right p before _ (inl refl))))
accepts_of_Verdict o ps a (duplicate before p after s e _ _ l) =
    absurd (not-Distinct before p after l (subst Distinct s a.distinct))
accepts_of_Verdict o ps a (all_with_others e _ _ l many) = absurd (omega (arith, a.all_alone l))

IsAcceptable-of_Verdict :
    (o : ObjectType) (ps : List String) {r : Result (Unit {0})}
    → r ≡ ok tt
    → Verdict o ps r
    → IsAcceptable o ps
IsAcceptable-of_Verdict o ps h (accepted e v d a) = record {
  valid = v;
  distinct = d;
  all_alone = a;
}
IsAcceptable-of_Verdict o ps h (invalid before p after s e _ _ bad) = cc
IsAcceptable-of_Verdict o ps h (duplicate before p after s e _ _ l) = cc
IsAcceptable-of_Verdict o ps h (all_with_others e _ _ l many) = cc

-- The privileges for one object type are accepted exactly when each of them is valid for the type,
-- none is repeated, and "ALL" is alone if it is there.
pub validate_privileges_for_type-ok_iff :
    (ps : List String) (o : ObjectType)
    → (validate_privileges_for_type ps o ≡ ok tt) ↔ IsAcceptable o ps
validate_privileges_for_type-ok_iff ps o = (
  λ h. IsAcceptable-of_Verdict o ps h (validate_privileges_for_type-Verdict ps o),
  λ a. accepts_of_Verdict o ps a (validate_privileges_for_type-Verdict ps o),
)

validation_input_lem :
    (g : PostgresGrant) (o : ObjectType) → validation_input g o ≡ privileges_for_type g o
unfolding validation_input privileges_for_type
validation_input_lem g o = ground (
  arith,
  eq_iff o "schema",
  eq_iff o "function",
  eq_iff o "database",
  eq_iff "schema" "function",
  eq_iff "schema" "database",
  eq_iff "function" "database",
)

-- Some order in which `range` may visit the five keys.
abbrev pub IsIterationOrder : List ObjectType → Type 0
IsIterationOrder order = (o : ObjectType) → Listed o order ↔ Listed o validated_types

validate_privileges-cons :
    (o : ObjectType) (order : List ObjectType) (g : PostgresGrant)
    → (validate_privileges (o ∷ order) g ≡ ok tt) ↔ (
        (validate_privileges_for_type (privileges_for_type g o) o ≡ ok tt)
        × (validate_privileges order g ≡ ok tt))
unfolding validate_privileges
validate_privileges-cons o order g = rw (← validation_input_lem g o) (ground arith)

validate_privileges-All :
    (order : List ObjectType) (g : PostgresGrant)
    → (validate_privileges order g ≡ ok tt)
      ↔ All (λ o. IsAcceptable o (privileges_for_type g o)) order
unfolding validate_privileges
validate_privileges-All [] g = (λ _. tt, λ _. refl)
validate_privileges-All (o ∷ order) g =
    let step = validate_privileges-cons o order g in
    let one = validate_privileges_for_type-ok_iff (privileges_for_type g o) o in
    let rest = validate_privileges-All order g in
    (λ h. (one.0 (step.0 h).0, rest.0 (step.0 h).1), λ a. step.1 (one.1 a.0, rest.1 a.1))

-- Whatever order Go visits the five object types in, a grant is accepted exactly when its privileges
-- for every object type, as `PrivilegesForType` reads them, are acceptable.
pub validate_privileges-ok_iff :
    (order : List ObjectType) (g : PostgresGrant)
    → IsIterationOrder order
    → (validate_privileges order g ≡ ok tt)
      ↔ All (λ o. IsAcceptable o (privileges_for_type g o)) validated_types
validate_privileges-ok_iff order g visits =
    let P : ObjectType → Type 0 = λ o. IsAcceptable o (privileges_for_type g o) in
    let every = validate_privileges-All order g in
    (
      λ h.
          All-of_Listed P validated_types (λ o l. at_Listed P o order (every.0 h) ((visits o).1 l)),
      λ a.
          every.1 (All-of_Listed P order (λ o l. at_Listed P o validated_types a ((visits o).0 l))),
    )

Rejects : PostgresGrant → Err → ObjectType → Type 0
Rejects g e o = validate_privileges_for_type (privileges_for_type g o) o ≡ err e

Result-cases : (r : Result (Unit {0})) → (r ≡ ok tt) ⊎ ((e : Err) × (r ≡ err e))
Result-cases (ok _) = inl refl
Result-cases (err e) = inr (e, refl)

validate_privileges-err_at :
    (order : List ObjectType) (g : PostgresGrant) (e : Err)
    → validate_privileges order g ≡ err e
    → (o : ObjectType) × Listed o order × Rejects g e o
unfolding validate_privileges Rejects
validate_privileges-err_at [] g e h = cc
validate_privileges-err_at (o ∷ order) g e h =
    elim (Result-cases (validate_privileges_for_type (validation_input g o) o)) [
      | inl fine ↦
          let (o', l, rejects) =
            validate_privileges-err_at order g e (rw (fine, validate_privileges) at h) in
          (o', inr l, rejects)
      | inr (e', refused) ↦ (o, inl refl, rw (← validation_input_lem g o) (ground arith))
    ]

-- Whatever the order, the error of a rejected grant is that of one of its five object types.
pub validate_privileges-err :
    (order : List ObjectType) (g : PostgresGrant) (e : Err)
    → IsIterationOrder order
    → validate_privileges order g ≡ err e
    → (o : ObjectType) × Listed o validated_types
      × (validate_privileges_for_type (privileges_for_type g o) o ≡ err e)
unfolding Rejects
validate_privileges-err order g e visits h =
    let (o, l, rejects) = validate_privileges-err_at order g e h in (o, (visits o).0 l, rejects)
