-- ===== src/Server/Publications/FromConfig.antt =====
-- From a config to the PostgreSQL server: the reconciliation of a config, and then that of a
-- publication that it stored.
use postgres_config_operator.Base.{
  String, [], none, some, List, ◌∷◌, ◌≡◌, ◌≢◌, ◌⊎◌, All, Listed, at_Listed, ap, sym, subst, ◌∙◌,
}
use postgres_config_operator.Errors.{ok}
use postgres_config_operator.Api.{NamespacedName, PostgresConfig, PostgresPublication, Publication}
use postgres_config_operator.Effects.{History, done, get}
use postgres_config_operator.Effects.Hoare.{Post}
use postgres_config_operator.Effects.World.{World}
use postgres_config_operator.Events.{finished}
use postgres_config_operator.Manager.{Manager}
use postgres_config_operator.Manager.Texts.{published_operations}
use postgres_config_operator.Config
use postgres_config_operator.Config.{Orders, spec_name}
use postgres_config_operator.Config.Naming.{KeepsWanted, names, wanted_names}
use postgres_config_operator.Config.Planning.{IsRangeOrders}
use postgres_config_operator.Config.Reconciled.{HasWanted, reconcile_request-HasWanted}
use postgres_config_operator.Config.Store.{IsApart, resource_name, resource_name_of, stored}
use postgres_config_operator.Publication.{publication_manager, reconcile_request}
use postgres_config_operator.Server.{Opens}
use postgres_config_operator.Server.Publications.{
  IsDroppable, ServesPublication, Stores, View, settled, wanted,
}
use postgres_config_operator.Server.Publications.Requests.{is_held, publication_request-Settled}

-- The publication on the server is as the config lists it.
abbrev pub IsListed : PostgresConfig → String → View → History → Type 0
IsListed config name view h =
    (d : Publication) × Listed d config.spec.publications
    × (d.name ≡ name)
    × (view h ≡ some (record { tables = d.tables; operations = published_operations d.operations }))

module _ (w : World) (initial : List PostgresPublication) (config : PostgresConfig)
    (orders : Orders) (complete : IsRangeOrders orders) where
  -- The API server returns the config, and lists its publications, each of which has the resource
  -- name that the config gives it; no two names in play collide as names of resources. Take any
  -- publication that is stored once `Reconcile` of the config succeeded. Suppose that it is not being
  -- deleted, lists a table and has a known variant; that it is later read under some key; that the
  -- secret of its server can be read, and the server accepts connections and serves the publication
  -- of its spec; and that the API server stores what it is sent. Then `Reconcile` of the publication,
  -- after whatever else happened, ends without an error, and not queued again, and the server has the
  -- publication with the tables and the operations of one that the config lists under its name, or
  -- with all operations if that one lists none.
  pub config_to_server-IsListed :
      (key : NamespacedName) (h h' g : History) (p : PostgresPublication) (m : Manager)
      (escaped : String → String) (view : View) (key' : NamespacedName)
      → w.config_at h key ≡ ok config
      → w.publications_of (get "PostgresConfig" key ∷ h) key.name key.namespace
        ≡ ok (stored w initial h)
      → All
          (λ q. resource_name q ≡ resource_name_of config.metadata.name (spec_name q))
          (stored w initial h)
      → IsApart config.metadata.name
          (λ n. Listed n (names (stored w initial h)) ⊎ Listed n (wanted_names config))
      → Config.reconcile_request w orders key h ≡ done finished h'
      → Listed p (stored w initial h')
      → p.metadata.deletion_timestamp ≡ none
      → p.spec.tables ≢ []
      → publication_manager w p ≡ ok m
      → ServesPublication w escaped p.spec view
      → Opens w p.spec.postgres_ref p.metadata
      → Stores w
      → w.publication_at g key' ≡ ok p
      → (g' : History) × (reconcile_request w key' g ≡ done finished g')
        × IsListed config (spec_name p) view g'
  unfolding settled Config.build_publication_resource
  config_to_server-IsListed key h h' g p m escaped view key' found listed named apart ran here kept
        tables chosen server opens stores there =
      let has : HasWanted w initial config h' =
        subst
          (Post (λ _. HasWanted w initial config)
            (KeepsWanted w initial config (stored w initial h)))
          ran
          (reconcile_request-HasWanted w initial config orders key h complete found listed named
            apart) in
      let (d, among, same) = at_Listed _ p (stored w initial h') has.1 here in
      let (g', e, end) =
        publication_request-Settled w escaped p view server m key' g tables chosen opens stores
          there (subst (λ t. IsDroppable t (is_held p) (view g)) (sym kept) tt) in
      (
        g',
        e,
        (
          d,
          among,
          sym (ap (λ s. s.name) same),
          end
              ∙ ap (λ t. settled t (is_held p) (wanted p.spec) (view g)) kept
              ∙ ap (λ s. some (wanted s)) same,
        ),
      )
