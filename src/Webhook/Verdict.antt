-- ===== src/Webhook/Verdict.antt =====
-- What `validatePrivilegesForType` answers, on every branch.
use postgres_config_operator.Base.{
  String, Bool, true, false, List, [], ◌∷◌, ◌++◌, ◌==◌, ◌≡◌, refl, ap, sym, ◌⊎◌, inl, inr, arith,
  contains, length, ◌<◌, Listed, All, Distinct, All-map, Bool-cases, if◌then◌else◌, ◌||◌,
  Listed-of_contains, contains_of_Listed, ltb,
}
use postgres_config_operator.Errors.{Result, ok, err}
use postgres_config_operator.Api.{ObjectType}
use postgres_config_operator.Webhook.{
  valid_privileges, validate_loop, check_all_alone, validate_privileges_for_type, invalid_privilege,
  duplicate_privilege, all_not_alone,
}

abbrev pub IsValidPrivilege : ObjectType → String → Type 0
IsValidPrivilege o p = Listed p (valid_privileges o)

-- Every privilege belongs to the object type, none is repeated, and none stands in `wanted`.
record IsClean (o : ObjectType) (wanted ps : List String) : Type 0 where
  valid : All (IsValidPrivilege o) ps
  distinct : Distinct ps
  fresh : All (λ p. ¬ Listed p wanted) ps

IsClean-cons :
    (o : ObjectType) (wanted : List String) (p : String) (ps : List String)
    → IsValidPrivilege o p
    → ¬ Listed p wanted
    → IsClean o (p ∷ wanted) ps
    → IsClean o wanted (p ∷ ps)
IsClean-cons o wanted p ps v n c = record {
  valid = (v, c.valid);
  distinct = (All-map ps (λ q h e. h (inl (sym e))) c.fresh, c.distinct);
  fresh = (n, All-map ps (λ q h l. h (inr l)) c.fresh);
}

-- What the loop returns.
data LoopVerdict (o : ObjectType) (wanted : List String) (has_all : Bool) (ps : List String)
    (r : Result Bool) : Type 0 where
  finished :
      r ≡ ok (has_all || contains ps "ALL")
      → IsClean o wanted ps
      → LoopVerdict o wanted has_all ps r
  invalid_at :
      (before : List String) (p : String) (after : List String)
      → ps ≡ before ++ p ∷ after
      → r ≡ err (invalid_privilege o p)
      → IsClean o wanted before
      → ¬ IsValidPrivilege o p
      → LoopVerdict o wanted has_all ps r
  duplicate_at :
      (before : List String) (p : String) (after : List String)
      → ps ≡ before ++ p ∷ after
      → r ≡ err (duplicate_privilege o p)
      → IsClean o wanted before
      → IsValidPrivilege o p
      → Listed p before ⊎ Listed p wanted
      → LoopVerdict o wanted has_all ps r

module _ (o : ObjectType) (wanted : List String) (p : String) (ps : List String) {r : Result Bool}
    (has_all : Bool) (v : IsValidPrivilege o p) (n : ¬ Listed p wanted) where
  LoopVerdict-cons :
      LoopVerdict o (p ∷ wanted) (if p == "ALL" then true else has_all) ps r
      → LoopVerdict o wanted has_all (p ∷ ps) r
  unfolding contains
  LoopVerdict-cons (finished e c) = finished (ground arith) (IsClean-cons o wanted p ps v n c)
  LoopVerdict-cons (invalid_at before q after s e c h) =
      invalid_at (p ∷ before) q after (ap (λ l. p ∷ l) s) e (IsClean-cons o wanted p before v n c) h
  LoopVerdict-cons (duplicate_at before q after s e c h (inl l)) =
      duplicate_at (p ∷ before) q after (ap (λ l. p ∷ l) s) e (IsClean-cons o wanted p before v n c)
        h (inl (inr l))
  LoopVerdict-cons (duplicate_at before q after s e c h (inr (inl same))) =
      duplicate_at (p ∷ before) q after (ap (λ l. p ∷ l) s) e (IsClean-cons o wanted p before v n c)
        h (inl (inl same))
  LoopVerdict-cons (duplicate_at before q after s e c h (inr (inr l))) =
      duplicate_at (p ∷ before) q after (ap (λ l. p ∷ l) s) e (IsClean-cons o wanted p before v n c)
        h (inr l)

not_Listed : (xs : List String) (p : String) → contains xs p ≡ false → ¬ Listed p xs
not_Listed xs p e l = cc (contains_of_Listed xs p l)

validate_loop-LoopVerdict :
    (o : ObjectType) (ps wanted : List String) (has_all : Bool)
    → LoopVerdict o wanted has_all ps (validate_loop o ps wanted has_all)
unfolding validate_loop contains
validate_loop-LoopVerdict o [] wanted has_all =
    finished (ground arith) (record { valid = tt; distinct = tt; fresh = tt })
validate_loop-LoopVerdict o (p ∷ ps) wanted has_all =
    elim (Bool-cases (contains (valid_privileges o) p)) [
      | inr bad ↦
          invalid_at [] p ps refl (rw bad) (record { valid = tt; distinct = tt; fresh = tt })
            (not_Listed _ p bad)
      | inl good ↦ elim (Bool-cases (contains wanted p)) [
        | inl seen ↦
            duplicate_at [] p ps refl (rw (good, seen))
              (record { valid = tt; distinct = tt; fresh = tt }) (Listed-of_contains _ p good)
              (inr (Listed-of_contains _ p seen))
        | inr new ↦
            rw (good, new)
              (LoopVerdict-cons o wanted p ps has_all (Listed-of_contains _ p good)
                (not_Listed _ p new)
                (validate_loop-LoopVerdict o ps (p ∷ wanted)
                  (if p == "ALL" then true else has_all)))
      ]
    ]

-- The four answers of `validatePrivilegesForType`, each with the lists that it is given for.
pub data Verdict (o : ObjectType) (ps : List String) (r : Result (Unit {0})) : Type 0 where
  accepted :
      r ≡ ok tt
      → All (IsValidPrivilege o) ps
      → Distinct ps
      → (Listed "ALL" ps → length ps ≡ 1)
      → Verdict o ps r
  invalid :
      (before : List String) (p : String) (after : List String)
      → ps ≡ before ++ p ∷ after
      → r ≡ err (invalid_privilege o p)
      → All (IsValidPrivilege o) before
      → Distinct before
      → ¬ IsValidPrivilege o p
      → Verdict o ps r
  duplicate :
      (before : List String) (p : String) (after : List String)
      → ps ≡ before ++ p ∷ after
      → r ≡ err (duplicate_privilege o p)
      → All (IsValidPrivilege o) before
      → Distinct before
      → Listed p before
      → Verdict o ps r
  all_with_others :
      r ≡ err all_not_alone
      → All (IsValidPrivilege o) ps
      → Distinct ps
      → Listed "ALL" ps
      → 1 < length ps
      → Verdict o ps r

length_of_Listed :
    (p : String) (ps : List String) → Listed p ps → ltb 1 (length ps) ≡ false → length ps ≡ 1
length_of_Listed p [] l e = elim l [ ]
length_of_Listed p (x ∷ ps) l e = ground arith

check_all_alone-Verdict :
    (o : ObjectType) (ps : List String) {r : Result Bool}
    → LoopVerdict o [] false ps r
    → Verdict o ps (check_all_alone ps r)
unfolding check_all_alone
check_all_alone-Verdict o ps (invalid_at before p after s e c h) =
    invalid before p after s (rw e) c.valid c.distinct h
check_all_alone-Verdict o ps (duplicate_at before p after s e c h (inl l)) =
    duplicate before p after s (rw e) c.valid c.distinct l
check_all_alone-Verdict o ps (duplicate_at before p after s e c h (inr l)) = elim l [ ]
check_all_alone-Verdict o ps (finished e c) = rw e (elim (Bool-cases (contains ps "ALL")) [
  | inr absent ↦
      accepted (rw absent) c.valid c.distinct (λ l. absurd (not_Listed ps "ALL" absent l))
  | inl present ↦ elim (Bool-cases (ltb 1 (length ps))) [
    | inl many ↦
        all_with_others (rw (present, many)) c.valid c.distinct (Listed-of_contains ps _ present)
          (ground arith)
    | inr one ↦
        accepted (rw (present, one)) c.valid c.distinct (λ l. length_of_Listed "ALL" ps l one)
  ]
])

-- Whatever the privileges, the webhook's answer for one object type is one of four. It accepts only
-- valid, distinct privileges among which "ALL" stands alone; it names a privilege that is invalid or
-- that stands before, everything before it being valid and distinct; or it refuses valid, distinct
-- privileges because "ALL" stands beside others.
pub validate_privileges_for_type-Verdict :
    (ps : List String) (o : ObjectType) → Verdict o ps (validate_privileges_for_type ps o)
unfolding validate_privileges_for_type
validate_privileges_for_type-Verdict ps o =
    check_all_alone-Verdict o ps (validate_loop-LoopVerdict o ps [] false)
