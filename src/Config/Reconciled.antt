-- ===== src/Config/Reconciled.antt =====
-- The reconciliation of a config, end to end: what is stored of its publications.
use postgres_config_operator.Base.{
  String, List, ◌∷◌, ◌≡◌, refl, sym, subst, ◌∙◌, inl, inr, ◌⊎◌, All, All-of_Listed, at_Listed,
  Listed, [], Listed-map,
}
use postgres_config_operator.Errors.{ok}
use postgres_config_operator.Api.{NamespacedName, PostgresConfig, PostgresPublication}
use postgres_config_operator.Effects.{History, get, list_publications, perform, wrap}
use postgres_config_operator.Effects.Hoare.{Post, Triple, both-Post, bind-Triple, wrap-Triple}
use postgres_config_operator.Effects.Steps.{attempt-done, bind-done, perform-done, wrap-done}
use postgres_config_operator.Effects.World.{World}
use postgres_config_operator.Config.{
  Orders, Plan, apply_plan, create_publications, delete_publications, plan, reconcile_request,
  spec_name, update_publications,
}
use postgres_config_operator.Config.Members.{plan-All, plan-Wanted}
use postgres_config_operator.Config.Planning.{IsRangeOrders, plan-IsDiff}
use postgres_config_operator.Config.Store.{
  IsApart, IsBuilt, resource_name, resource_name_of, stored,
}
use postgres_config_operator.Config.Specs.{
  AfterUpdates, AfterUpdates-names, AllFresh, Anyhow, Fresh, IsWanted, create-Fresh, delete-Fresh,
  update-Fresh,
}
use postgres_config_operator.Config.Naming.{
  HasNames, KeepsWanted, apply_plan-Settles, created-InPlay, current-IsBuilt, names, updated-InPlay,
  wanted_names,
}

-- The store has exactly the publications that the config lists, each with the spec that the config
-- builds from one that it lists.
abbrev pub HasWanted : World → List PostgresPublication → PostgresConfig → History → Type 0
HasWanted w initial config h =
    HasNames w initial config h × All (IsWanted w config) (stored w initial h)

module _ (w : World) (initial : List PostgresPublication) (config : PostgresConfig)
    (orders : Orders) (complete : IsRangeOrders orders) (current : List PostgresPublication)
    (named : All
      (λ p. resource_name p ≡ resource_name_of config.metadata.name (spec_name p))
      current)
    (apart : IsApart config.metadata.name
      (λ n. Listed n (names current) ⊎ Listed n (wanted_names config))) where
  abbrev the : Plan
  the = plan orders current config.spec.publications

  abbrev Play : String → Type 0
  Play n = Listed n (names current) ⊎ Listed n (wanted_names config)

  abbrev Old : String → Type 0
  Old n = Listed n (names current)

  abbrev Left : String → Type 0
  Left = AfterUpdates Old the.to_update_desired

  current-Fresh :
      (s : List PostgresPublication)
      → ((p : PostgresPublication) → Listed p s → Listed p current)
      → All (Fresh w initial config Play Old) s
  current-Fresh s among = All-of_Listed (Fresh w initial config Play Old) s (λ p l. (
    at_Listed (λ q. IsBuilt config.metadata.name Play q) p current
        (current-IsBuilt w initial config orders complete current named apart) (among p l),
    inr (Listed-map spec_name p current (among p l)),
  ))

  apply_plan-Fresh :
      Triple
        (λ h. stored w initial h ≡ current)
        (apply_plan w config the)
        (λ _. AllFresh w initial config Play Left)
        Anyhow
  unfolding apply_plan update_publications
  apply_plan-Fresh h start =
      let fresh = AllFresh w initial config Play in
      let ref = config.spec.postgres_ref in
      let members =
        plan-All (λ p. IsBuilt config.metadata.name Play p) orders current config.spec.publications
          complete (current-IsBuilt w initial config orders complete current named apart) in
      let listed =
        plan-Wanted (λ p. Listed p config.spec.publications) orders current config.spec.publications
          complete
          (All-of_Listed (λ p. Listed p config.spec.publications) config.spec.publications
            (λ p l. l)) in
      let diff = plan-IsDiff orders complete current config.spec.publications in
      bind-Triple (λ _. fresh Old) Anyhow (λ _. fresh Left) (fresh Old)
        (wrap "failed to create publication resources"
          (create_publications w config the.to_create ref))
        _
        (wrap-Triple (λ _. fresh Old) Anyhow (fresh Old) "failed to create publication resources"
          (create_publications w config the.to_create ref)
          (create-Fresh w initial config Play Old the.to_create
            (created-InPlay w initial config orders complete current named apart) listed.0))
        (λ _.
          bind-Triple (λ _. fresh Left) Anyhow (λ _. fresh Left) (fresh Old)
            (wrap "failed to update publication resources"
              (update_publications w config the.to_update_current the.to_update_desired ref))
            _
            (wrap-Triple (λ _. fresh Left) Anyhow (fresh Old)
              "failed to update publication resources"
              (update_publications w config the.to_update_current the.to_update_desired ref)
              (update-Fresh w initial config Play Old [] the.to_update_current the.to_update_desired
                members.0 (updated-InPlay w initial config orders complete current named apart)
                listed.1 diff.aligned))
            (λ _.
              bind-Triple (λ _. fresh Left) Anyhow (λ _. fresh Left) (fresh Left)
                (wrap "failed to delete publication resources"
                  (delete_publications w the.to_delete))
                _
                (wrap-Triple (λ _. fresh Left) Anyhow (fresh Left)
                  "failed to delete publication resources" (delete_publications w the.to_delete)
                  (delete-Fresh w initial config Play Left the.to_delete))
                (λ _ h' a. a)))
        h
        (subst (All (Fresh w initial config Play Old)) (sym start)
          (current-Fresh current (λ p l. l)))

  -- Whatever is stored under a wanted name was created or updated.
  Fresh-IsWanted :
      (p : PostgresPublication)
      → Fresh w initial config Play Left p
      → Listed (spec_name p) (wanted_names config)
      → IsWanted w config p
  Fresh-IsWanted p (built, inl new) wanted = new
  Fresh-IsWanted p (built, inr left) wanted =
      let (old, missed) = AfterUpdates-names (spec_name p) Old the.to_update_desired left in
      absurd (
        missed (
          ((plan-IsDiff orders complete current config.spec.publications).updates (spec_name p)).1
            (wanted, old)))

  apply_plan-HasWanted :
      Triple
        (λ h. stored w initial h ≡ current)
        (apply_plan w config the)
        (λ _. HasWanted w initial config)
        (KeepsWanted w initial config current)
  apply_plan-HasWanted h start =
      both-Post (λ _. HasNames w initial config) (λ _. AllFresh w initial config Play Left)
        (λ _. HasWanted w initial config) (KeepsWanted w initial config current)
        (apply_plan w config the h)
        (λ _ h' has fresh. (
          has,
          All-of_Listed (IsWanted w config) (stored w initial h') (λ p l.
              Fresh-IsWanted p
                (at_Listed (Fresh w initial config Play Left) p (stored w initial h') fresh l)
                ((has (spec_name p)).0 (Listed-map spec_name p (stored w initial h') l))),
        ))
        (apply_plan-Settles w initial config orders complete current named apart h start)
        (apply_plan-Fresh h start)

-- The API server returns the config, and lists its publications, each of which has the resource name
-- that the config gives it; no two names in play collide as names of resources. Then a `Reconcile`
-- that succeeds leaves exactly the publications that the config lists, each with the spec that is
-- built from one that is listed, in whatever orders Go visits the maps; and one that fails has lost
-- none that is listed and was there. The publications are taken as owned by the config, and none as
-- marked for deletion or held by a finalizer: one whose deletion is accepted is gone at once.
pub reconcile_request-HasWanted :
    (w : World) (initial : List PostgresPublication) (config : PostgresConfig) (orders : Orders)
    (key : NamespacedName) (h : History)
    → IsRangeOrders orders
    → w.config_at h key ≡ ok config
    → w.publications_of (get "PostgresConfig" key ∷ h) key.name key.namespace
      ≡ ok (stored w initial h)
    → All
        (λ p. resource_name p ≡ resource_name_of config.metadata.name (spec_name p))
        (stored w initial h)
    → IsApart config.metadata.name
        (λ n. Listed n (names (stored w initial h)) ⊎ Listed n (wanted_names config))
    → Post
        (λ _. HasWanted w initial config)
        (KeepsWanted w initial config (stored w initial h))
        (reconcile_request w orders key h)
unfolding reconcile_request
reconcile_request-HasWanted w initial config orders key h complete found listed named apart =
    let asked : History = get "PostgresConfig" key ∷ h in
    let current = stored w initial h in
    let reply = λ (g : History). w.publications_of g key.name key.namespace in
    let list =
      wrap "failed to list owned publications"
        (perform (list_publications key.name key.namespace) reply) in
    let rest = λ (c : List PostgresPublication).
      apply_plan w config (plan orders c config.spec.publications) in
    let got =
      attempt-done (perform (get "PostgresConfig" key) (λ g. w.config_at g key)) _ _
        (perform-done (get "PostgresConfig" key) (λ g. w.config_at g key) found) in
    let ran = bind-done list rest (
      wrap-done "failed to list owned publications"
        (perform (list_publications key.name key.namespace) reply) {h = asked}
        (perform-done (list_publications key.name key.namespace) reply listed)) in
    subst (Post (λ _. HasWanted w initial config) (KeepsWanted w initial config current))
      (sym (got ∙ ran))
      (apply_plan-HasWanted w initial config orders complete current named apart
        (list_publications key.name key.namespace ∷ asked) refl)
