-- ===== src/Config/Naming.antt =====
-- The names of the publications that the API server has stored once a config was reconciled.
use postgres_config_operator.Base.{
  String, List, ◌≡◌, sym, subst, ◌↔◌, inl, inr, ◌⊎◌, map, All, All-of_Listed, at_Listed, Listed, [],
  Listed-map, contains, contains_iff, Bool-cases,
}
use postgres_config_operator.Api.{PostgresConfig, PostgresPublication}
use postgres_config_operator.Effects.{History, wrap}
use postgres_config_operator.Effects.Hoare.{Triple, bind-Triple, wrap-Triple}
use postgres_config_operator.Effects.World.{World}
use postgres_config_operator.Config.{
  Orders, Plan, apply_plan, create_publications, delete_publications, desired_name, plan, spec_name,
  update_publications,
}
use postgres_config_operator.Config.Convergence.{IsCarriedOut, desired_stored, stored_desired}
use postgres_config_operator.Config.Members.{plan-All}
use postgres_config_operator.Config.Planning.{IsRangeOrders, plan-IsDiff}
use postgres_config_operator.Config.Settles.{
  At, AfterCreates, AfterCreates-iff, AfterDeletes, AfterDeletes-iff, create-Triple, delete-Triple,
  update-Triple,
}
use postgres_config_operator.Config.Store.{
  IsApart, IsBuilt, resource_name, resource_name_of, stored,
}

abbrev pub names : List PostgresPublication → List String
names s = map spec_name s

abbrev pub wanted_names : PostgresConfig → List String
wanted_names config = map desired_name config.spec.publications

-- The names in the store are exactly those that the config lists.
abbrev pub HasNames : World → List PostgresPublication → PostgresConfig → History → Type 0
HasNames w initial config h =
    (n : String) → Listed n (names (stored w initial h)) ↔ Listed n (wanted_names config)

-- The store still has every publication that is listed and that was there.
abbrev pub KeepsWanted :
    World → List PostgresPublication → PostgresConfig → List PostgresPublication → History → Type 0
KeepsWanted w initial config current h =
    (n : String)
    → Listed n (wanted_names config) × Listed n (names current)
    → Listed n (names (stored w initial h))

module _ (w : World) (initial : List PostgresPublication) (config : PostgresConfig)
    (orders : Orders) (complete : IsRangeOrders orders) (current : List PostgresPublication)
    (named : All
      (λ p. resource_name p ≡ resource_name_of config.metadata.name (spec_name p))
      current)
    (apart : IsApart config.metadata.name
      (λ n. Listed n (names current) ⊎ Listed n (wanted_names config))) where
  abbrev pub InPlay : String → Type 0
  InPlay n = Listed n (names current) ⊎ Listed n (wanted_names config)

  abbrev Kept : String → Type 0
  Kept n = Listed n (wanted_names config) × Listed n (names current)

  abbrev pub the_plan : Plan
  the_plan = plan orders current config.spec.publications

  pub current-IsBuilt : All (λ p. IsBuilt config.metadata.name InPlay p) current
  current-IsBuilt =
      All-of_Listed (λ p. IsBuilt config.metadata.name InPlay p) current
        (λ p l. record {
          named =
              at_Listed (λ q. resource_name q ≡ resource_name_of config.metadata.name (spec_name q))
                p current named l;
          in_play = inl (Listed-map spec_name p current l);
        })

  pub created-InPlay : All (λ p. InPlay p.name) the_plan.to_create
  created-InPlay =
      All-of_Listed (λ p. InPlay p.name) the_plan.to_create
        (λ p l.
          inr
            (((plan-IsDiff orders complete current config.spec.publications).creates p.name).0
              (Listed-map desired_name p the_plan.to_create l)).0)

  pub updated-InPlay : All (λ p. InPlay p.name) the_plan.to_update_desired
  updated-InPlay =
      All-of_Listed (λ p. InPlay p.name) the_plan.to_update_desired
        (λ p l.
          inr
            (((plan-IsDiff orders complete current config.spec.publications).updates p.name).0
              (Listed-map desired_name p the_plan.to_update_desired l)).0)

  deleted_unkept : All (λ p. (n : String) → Kept n → ¬ (n ≡ spec_name p)) the_plan.to_delete
  deleted_unkept =
      All-of_Listed (λ p. (n : String) → Kept n → ¬ (n ≡ spec_name p)) the_plan.to_delete
        (λ p l n k e.
          (((plan-IsDiff orders complete current config.spec.publications).deletes (spec_name p)).0
              (Listed-map spec_name p the_plan.to_delete l)).1
            (subst (λ m. Listed m (wanted_names config)) e k.0))

  abbrev Settled : String → Type 0
  Settled =
      AfterDeletes (AfterCreates (λ n. Listed n (names current)) the_plan.to_create)
        the_plan.to_delete

  -- The names after the three phases are those that the config lists.
  Settled-iff :
      (s : List PostgresPublication)
      → ((n : String) → Listed n (names s) ↔ Settled n)
      → (n : String) → Listed n (names s) ↔ Listed n (wanted_names config)
  Settled-iff s has n =
      let diff = plan-IsDiff orders complete current config.spec.publications in
      let carried : IsCarriedOut the_plan current s = record {
        stored = λ m.
            let S : String → Type 0 = λ k. Listed k (names current) in
            let created = AfterCreates-iff m S the_plan.to_create in
            let gone = AfterDeletes-iff m (AfterCreates S the_plan.to_create) the_plan.to_delete in
            (
              λ l.
                  let (s1, kept) = gone.0 ((has m).0 l) in
                  elim (created.0 s1) [ inl new ↦ inl new | inr old ↦ inr (old, kept) ],
              elim [
                | inl new ↦ (has m).1 (
                    gone.1 (
                      created.1 (inl new),
                      λ d. ((diff.creates m).0 new).1 ((diff.deletes m).0 d).0,
                    ))
                | inr (old, kept) ↦ (has m).1 (gone.1 (created.1 (inr old), kept))
              ],
            );
      } in
      (
        λ l. elim (Bool-cases (contains (wanted_names config) n)) [
          | inl there ↦ (contains_iff (wanted_names config) n).0 there
          | inr missing ↦ absurd (
              stored_desired current s config.spec.publications the_plan diff carried n l
                (λ d. cc ((contains_iff (wanted_names config) n).1 d)))
        ],
        desired_stored current s config.spec.publications the_plan diff carried n,
      )

  pub apply_plan-Settles :
      Triple
        (λ h. stored w initial h ≡ current)
        (apply_plan w config the_plan)
        (λ _. HasNames w initial config)
        (KeepsWanted w initial config current)
  unfolding apply_plan update_publications
  apply_plan-Settles h start =
      let name = config.metadata.name in
      let ref = config.spec.postgres_ref in
      let S : String → Type 0 = λ n. Listed n (names current) in
      let S1 = AfterCreates S the_plan.to_create in
      let members =
        plan-All (λ p. IsBuilt name InPlay p) orders current config.spec.publications complete
          current-IsBuilt in
      let diff = plan-IsDiff orders complete current config.spec.publications in
      let at = At w initial config ref InPlay apart Kept in
      let safe = KeepsWanted w initial config current in
      let kept =
        λ (n : String) (k : Kept n). (AfterCreates-iff n S the_plan.to_create).1 (inr k.1) in
      bind-Triple (λ _. at S1) safe (λ _. HasNames w initial config) (at S)
        (wrap "failed to create publication resources"
          (create_publications w config the_plan.to_create ref))
        _
        (wrap-Triple (λ _. at S1) safe (at S) _ _
          (create-Triple w initial config ref InPlay apart Kept S the_plan.to_create created-InPlay
            (λ n k. k.1)))
        (λ _.
          bind-Triple (λ _. at S1) safe (λ _. HasNames w initial config) (at S1)
            (wrap "failed to update publication resources" (
              update_publications w config the_plan.to_update_current the_plan.to_update_desired
                ref))
            _
            (wrap-Triple (λ _. at S1) safe (at S1) _ _
              (update-Triple w initial config ref InPlay apart Kept S1 [] the_plan.to_update_current
                the_plan.to_update_desired members.0 updated-InPlay diff.aligned kept))
            (λ _.
              bind-Triple (λ _. at Settled) safe (λ _. HasNames w initial config) (at S1)
                (wrap "failed to delete publication resources"
                  (delete_publications w the_plan.to_delete))
                _
                (wrap-Triple (λ _. at Settled) safe (at S1) _ _
                  (delete-Triple w initial config ref InPlay apart Kept S1 the_plan.to_delete
                    members.1 deleted_unkept kept))
                (λ _ h' a. Settled-iff (stored w initial h') a.1)))
        h
        (subst (λ s. All (IsBuilt name InPlay) s × ((n : String) → Listed n (names s) ↔ S n))
          (sym start) (current-IsBuilt, λ n. (λ l. l, λ l. l)))
