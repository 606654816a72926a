-- ===== src/Config/Owner.antt =====
-- How publications are found by the config that controls them.
use postgres_config_operator.Base.{
  String, Option, none, some, refl, subst, ◌≡◌, ◌↔◌, arith, eq_iff, Listed,
}
use postgres_config_operator.Api.{OwnerReference, PostgresPublication}
use postgres_config_operator.Effects.World.{World}
use postgres_config_operator.Config.{index_owner, owner_entries}

-- A reference to the config of this name, of this version of the API
abbrev pub IsToConfig : OwnerReference → String → Type 0
IsToConfig owner name =
    (owner.api_version ≡ "postgres.glints.com/v1alpha1")
    × (owner.kind ≡ "PostgresConfig")
    × (name ≡ owner.name)

entry_iff :
    (owner : OwnerReference) (name : String)
    → Listed name (owner_entries (some owner)) ↔ IsToConfig owner name
unfolding owner_entries
entry_iff owner name = ground (
  arith,
  eq_iff owner.api_version "postgres.glints.com/v1alpha1",
  eq_iff owner.kind "PostgresConfig",
)

owner_entries_iff :
    (found : Option OwnerReference) (name : String)
    → Listed name (owner_entries found)
      ↔ ((owner : OwnerReference) × (found ≡ some owner) × IsToConfig owner name)
unfolding owner_entries
owner_entries_iff none name = (λ l. elim l [ ], λ (owner, e, _). cc)
owner_entries_iff (some owner) name = (
  λ l. (owner, refl, (entry_iff owner name).0 l),
  λ (other, e, to).
      let same : other ≡ owner = cc in
      (entry_iff owner name).1 (subst (λ o. IsToConfig o name) same to),
)

-- A publication resource is indexed under a name exactly when a reference controls it, as the
-- library's `GetControllerOf` finds it, that is to the config of that name, of this version of the
-- API.
pub index_owner_iff :
    (w : World) (p : PostgresPublication) (name : String)
    → Listed name (index_owner w p) ↔ (
        (owner : OwnerReference) × (w.get_controller_of p.metadata.owner_references ≡ some owner)
        × IsToConfig owner name)
unfolding index_owner
index_owner_iff w p name = owner_entries_iff (w.get_controller_of p.metadata.owner_references) name
