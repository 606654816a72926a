-- ===== src/Config/Store.antt =====
-- What the API server has stored of a config's publications, read off the requests and their
-- answers. It is the documented effect of creations, updates and deletions, for the publications
-- that are owned by one config and not marked for deletion.
use postgres_config_operator.Base.{
  String, List, [], ◌∷◌, ◌≡◌, refl, sym, ap, ap₂, false, ◌∙◌, ◌↔◌, ◌==◌, if◌then◌else◌, inl, inr,
  map, All, Listed, Bool-cases, arith, eq_iff, replace_all, ◌<>◌,
}
use postgres_config_operator.Errors.{Result, ok, err}
use postgres_config_operator.Api.{PostgresPublication}
use postgres_config_operator.Effects.{History, create_resource, delete_resource, update_resource}
use postgres_config_operator.Effects.World.{World}
use postgres_config_operator.Config.{spec_name}

abbrev pub resource_name : PostgresPublication → String
resource_name p = p.metadata.name

-- The resource of the same name is replaced.
abbrev pub replace : PostgresPublication → List PostgresPublication → List PostgresPublication
replace p [] = []
replace p (q ∷ qs) = (if resource_name q == resource_name p then p else q) ∷ replace p qs

-- The resource of the same name is gone.
abbrev pub without : PostgresPublication → List PostgresPublication → List PostgresPublication
without p [] = []
without p (q ∷ qs) =
    let rest = without p qs in if resource_name q == resource_name p then rest else q ∷ rest

-- What holds of all resources holds of those that are left.
pub All-without :
    (P : PostgresPublication → Type 0) (p : PostgresPublication) (s : List PostgresPublication)
    → All P s
    → All P (without p s)
All-without P p [] b = tt
All-without P p (q ∷ qs) b = elim (Bool-cases (resource_name q == resource_name p)) [
  | inl same ↦ rw same (All-without P p qs b.1)
  | inr other ↦ rw other (b.0, All-without P p qs b.1)
]

-- A request changes the store if it is answered by a success.
abbrev pub on_ok :
    {A : Type 0}
    → Result A
    → List PostgresPublication
    → List PostgresPublication
    → List PostgresPublication
on_ok (ok _) next s = next
on_ok (err _) next s = s

module _ (w : World) (initial : List PostgresPublication) where
  abbrev pub stored : History → List PostgresPublication
  stored [] = initial
  stored (create_resource p ∷ h) = on_ok (w.created h p) (p ∷ stored h) (stored h)
  stored (update_resource p ∷ h) = on_ok (w.updated h p) (replace p (stored h)) (stored h)
  stored (delete_resource p ∷ h) = on_ok (w.deleted h p) (without p (stored h)) (stored h)
  stored (_ ∷ h) = stored h

-- Each resource is named as a config of the given name names it, and the names of publications that
-- are in play do not collide as names of resources.
abbrev pub resource_name_of : String → String → String
resource_name_of config n = config <> "-" <> replace_all n "_" "-"

module _ (config : String) (InPlay : String → Type 0) where
  pub record IsBuilt (p : PostgresPublication) : Type 0 where
    pub named : resource_name p ≡ resource_name_of config (spec_name p)
    pub in_play : InPlay (spec_name p)

  abbrev pub IsApart : Type 0
  IsApart =
      (m n : String)
      → InPlay m
      → InPlay n
      → resource_name_of config m ≡ resource_name_of config n
      → m ≡ n

  pub differ_name :
      (p q : PostgresPublication)
      → IsBuilt p
      → IsBuilt q
      → (resource_name q == resource_name p) ≡ false
      → ¬ (spec_name q ≡ spec_name p)
  differ_name p q bp bq differ e =
      let same = bq.named ∙ ap (resource_name_of config) e ∙ sym bp.named in
      cc ((eq_iff (resource_name q) (resource_name p)).1 same)

  module _ (apart : IsApart) where
    same_name :
        (p q : PostgresPublication)
        → IsBuilt p
        → IsBuilt q
        → resource_name q ≡ resource_name p
        → spec_name q ≡ spec_name p
    same_name p q bp bq e =
        apart (spec_name q) (spec_name p) bq.in_play bp.in_play (sym bq.named ∙ e ∙ bp.named)

    pub replace-names :
        (p : PostgresPublication) (s : List PostgresPublication)
        → IsBuilt p
        → All IsBuilt s
        → map spec_name (replace p s) ≡ map spec_name s
    replace-names p [] bp b = refl
    replace-names p (q ∷ qs) bp b = elim (Bool-cases (resource_name q == resource_name p)) [
      | inl same ↦
          rw same
            (ap₂ ◌∷◌ (sym (same_name p q bp b.0 ((eq_iff _ _).0 same))) (replace-names p qs bp b.1))
      | inr other ↦ rw other (ap₂ ◌∷◌ refl (replace-names p qs bp b.1))
    ]

    pub replace-All :
        (p : PostgresPublication) (s : List PostgresPublication)
        → IsBuilt p
        → All IsBuilt s
        → All IsBuilt (replace p s)
    replace-All p [] bp b = tt
    replace-All p (q ∷ qs) bp b = elim (Bool-cases (resource_name q == resource_name p)) [
      | inl same ↦ rw same (bp, replace-All p qs bp b.1)
      | inr other ↦ rw other (b.0, replace-All p qs bp b.1)
    ]

    pub Listed-without_iff :
        (n : String) (p : PostgresPublication) (s : List PostgresPublication)
        → IsBuilt p
        → All IsBuilt s
        → Listed n (map spec_name (without p s))
          ↔ (Listed n (map spec_name s) × (¬ (n ≡ spec_name p)))
    Listed-without_iff n p [] bp b = (λ l. elim l [ ], λ l. elim l.0 [ ])
    Listed-without_iff n p (q ∷ qs) bp b = elim (Bool-cases (resource_name q == resource_name p)) [
      | inl same ↦
          let e = same_name p q bp b.0 ((eq_iff _ _).0 same) in
          rw same (ground (arith, Listed-without_iff n p qs bp b.1, e))
      | inr other ↦
          let ne = differ_name p q bp b.0 other in
          rw other (ground (arith, Listed-without_iff n p qs bp b.1, ne))
    ]

    pub without-All :
        (p : PostgresPublication) (s : List PostgresPublication)
        → All IsBuilt s
        → All IsBuilt (without p s)
    without-All = All-without IsBuilt
