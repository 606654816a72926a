-- ===== src/Config.antt =====
-- `controllers/postgresconfig_controller.go`. Go does not specify the order in which `range` visits
-- a map, so the orders of the two loops over maps are arguments.
pub mod Planning
pub mod Apply
pub mod Owner
pub mod Convergence
pub mod Members
pub mod Store
pub mod Settles
pub mod Specs
pub mod Naming
pub mod Reconciled
pub mod Tests
use postgres_config_operator.Base.{
  ℕ, zero, suc, String, ◌<>◌, Option, none, some, List, [], ◌∷◌, ◌==◌, ◌||◌, not, if◌then◌else◌,
  get_elem?, replace_all, ◌+◌,
}
use postgres_config_operator.Base.GoMap.{GoMap, lookup, insert}
use postgres_config_operator.Errors.{panic}
use postgres_config_operator.Api.{
  NamespacedName, ObjectMeta, OwnerReference, PostgresConfig, PostgresPublication, PostgresRef,
  Publication, group_version,
}
use postgres_config_operator.Effects.{
  M, ReconcileResult, return, fail, list_publications, perform, wrap, ◌>>=◌, ◌>>◌,
}
use postgres_config_operator.Effects.World.{World, do_create, do_delete, do_update}
use postgres_config_operator.Events.{finished, get_or_stop}

-- `apiGVStr`. The library's `GroupVersion.String` puts a slash between the group and the version.
abbrev pub api_gv_str : String
api_gv_str = group_version.group <> "/" <> group_version.version

-- The entries of the index for what `GetControllerOf` finds
unfoldable pub owner_entries : Option OwnerReference → List String
owner_entries none = []
owner_entries (some owner) =
    if not (owner.api_version == api_gv_str) || not (owner.kind == "PostgresConfig")
    then []
    else owner.name ∷ []

-- The loops that fill `currentPublicationsByName` and `desiredPublicationsByName`, by the name that
-- each reads
unfoldable pub by_name : {V : Type 0} → (V → String) → List V → GoMap V → GoMap V
unfolding insert
by_name name [] m = m
by_name name (p ∷ ps) m = by_name name ps (insert (name p) p m)

abbrev pub spec_name : PostgresPublication → String
spec_name p = p.spec.name

abbrev pub desired_name : Publication → String
desired_name p = p.name

-- The publications to create, to update (with what is there) and to delete
pub record Plan : Type 0 where
  pub to_create : List Publication
  pub to_update_current : List PostgresPublication
  pub to_update_desired : List Publication
  pub to_delete : List PostgresPublication

abbrev no_plan : Plan
no_plan = record { to_create = []; to_update_current = []; to_update_desired = []; to_delete = [] }

-- One round of the loop over the desired publications, before what the rest collects
unfoldable pub plan_one : Option PostgresPublication → Publication → Plan → Plan
plan_one none p rest = record rest { to_create = p ∷ rest.to_create }
plan_one (some c) p rest = record rest {
  to_update_current = c ∷ rest.to_update_current;
  to_update_desired = p ∷ rest.to_update_desired;
}

-- The loop over the desired publications
unfoldable pub plan_desired : GoMap PostgresPublication → GoMap Publication → Plan
unfolding plan_one lookup
plan_desired current [] = no_plan
plan_desired current ((name, p) ∷ visited) =
    plan_one (lookup name current) p (plan_desired current visited)

unfoldable pub delete_one :
    Option Publication → PostgresPublication → List PostgresPublication → List PostgresPublication
delete_one none p rest = p ∷ rest
delete_one (some _) p rest = rest

-- The loop over the current publications
unfoldable pub plan_delete :
    GoMap Publication → GoMap PostgresPublication → List PostgresPublication
unfolding delete_one lookup
plan_delete desired [] = []
plan_delete desired ((name, p) ∷ visited) =
    delete_one (lookup name desired) p (plan_delete desired visited)

-- The orders in which the two loops visit the maps
pub record Orders : Type 0 where
  pub desired_order : GoMap Publication → GoMap Publication
  pub current_order : GoMap PostgresPublication → GoMap PostgresPublication

-- What `Reconcile` computes from the two lists of publications
unfoldable pub plan : Orders → List PostgresPublication → List Publication → Plan
unfolding by_name plan_desired plan_delete
plan orders current desired =
    let cs = by_name spec_name current [] in
    let ds = by_name desired_name desired [] in
    record (plan_desired cs (orders.desired_order ds)) {
      to_delete = plan_delete ds (orders.current_order cs);
    }

-- `publicationResourceName`
unfoldable pub publication_resource_name : String → Publication → String
unfolding replace_all
publication_resource_name config_name p = config_name <> "-" <> replace_all p.name "_" "-"

-- `publicationsCurrent[idx]`
unfoldable pub at_index : List PostgresPublication → ℕ → M PostgresPublication
at_index ps i = elim (get_elem? ps i) [
  | none ↦ fail (panic "index out of range")
  | some p ↦ return p
]

module _ (w : World) where
  -- `buildPublicationResource`
  unfoldable pub build_publication_resource :
      PostgresConfig → Publication → String → String → PostgresRef → PostgresPublication
  unfolding publication_resource_name
  build_publication_resource config p config_name namespace ref = record {
    metadata = record {
      name = publication_resource_name config_name p;
      namespace = namespace;
      finalizers = [];
      deletion_timestamp = none;
      owner_references = w.new_controller_ref config.metadata config.type_meta ∷ [];
    };
    spec = record {
      postgres_ref = ref;
      name = p.name;
      tables = p.tables;
      operations = p.operations;
    };
  }

  -- The resource that `createPublications` and `updatePublications` build
  abbrev pub resource_of : PostgresConfig → PostgresRef → Publication → PostgresPublication
  resource_of config ref p =
      build_publication_resource config p config.metadata.name config.metadata.namespace ref

  -- `createPublications`
  unfoldable pub create_publications :
      PostgresConfig → List Publication → PostgresRef → M (Unit {0})
  unfolding build_publication_resource
  create_publications config [] ref = return tt
  create_publications config (p ∷ ps) ref = do
    wrap "failed to create publication resource" (do_create w (resource_of config ref p))
    create_publications config ps ref

  -- The loop of `updatePublications`, at the index `idx`
  unfoldable pub update_from :
      PostgresConfig → List PostgresPublication → ℕ → List Publication → PostgresRef → M (Unit {0})
  unfolding build_publication_resource at_index
  update_from config current idx [] ref = return tt
  update_from config current idx (p ∷ ps) ref = do
    there ← at_index current idx
    let resource = resource_of config ref p
    wrap "failed to update publication resource"
        (do_update w (record there { spec = resource.spec }))
    update_from config current (suc idx) ps ref

  -- `updatePublications`
  unfoldable pub update_publications :
      PostgresConfig → List PostgresPublication → List Publication → PostgresRef → M (Unit {0})
  unfolding update_from
  update_publications config current desired ref = update_from config current 0 desired ref

  -- `deletePublications`
  unfoldable pub delete_publications : List PostgresPublication → M (Unit {0})
  delete_publications [] = return tt
  delete_publications (p ∷ ps) = do
    wrap "failed to delete publication resource" (do_delete w p)
    delete_publications ps

  -- The three phases of `Reconcile`
  unfoldable pub apply_plan : PostgresConfig → Plan → M ReconcileResult
  unfolding create_publications update_publications delete_publications
  apply_plan config plan = do
    let ref = config.spec.postgres_ref
    wrap "failed to create publication resources" (create_publications config plan.to_create ref)
    wrap "failed to update publication resources"
        (update_publications config plan.to_update_current plan.to_update_desired ref)
    wrap "failed to delete publication resources" (delete_publications plan.to_delete)
    return finished

  -- `Reconcile`
  unfoldable pub reconcile_request : Orders → NamespacedName → M ReconcileResult
  unfolding plan apply_plan
  reconcile_request orders key = get_or_stop w "PostgresConfig" w.config_at key (λ config. do
    current ← wrap "failed to list owned publications" (
        perform (list_publications key.name key.namespace)
          (λ h. w.publications_of h key.name key.namespace))
    apply_plan config (plan orders current config.spec.publications))

  -- The index function of `SetupWithManager`, by which publications are listed
  unfoldable pub index_owner : PostgresPublication → List String
  unfolding owner_entries
  index_owner p = owner_entries (w.get_controller_of p.metadata.owner_references)
