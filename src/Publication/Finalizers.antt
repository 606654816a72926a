-- ===== src/Publication/Finalizers.antt =====
-- The protocol of the finalizer: a publication in PostgreSQL is dropped before the object that
-- stands for it may go.
use postgres_config_operator.Base.{
  String, List, true, false, Option, none, some, [], ◌∷◌, ◌≡◌, refl, ◌⊎◌, inl, inr, contains, ℕ,
  ◌==◌, if_both,
}
use postgres_config_operator.Errors.{Result, ok, err}
use postgres_config_operator.Api.{NamespacedName, PostgresPublication}
use postgres_config_operator.Effects.{
  Request, History, exec, history, update_resource, Argument, wrap,
}
use postgres_config_operator.Effects.Hoare.{
  Keeps, Triple, attempt-Keeps, bind-Keeps, Keeps-history, if-Keeps, wrap-Keeps, perform-Keeps,
  bind-Triple, wrap-Triple, perform-Triple,
}
use postgres_config_operator.Effects.World.{World, do_update}
use postgres_config_operator.Events.Laws.{
  IsQuiet, complain-Keeps, get_or_stop-Keeps, with_connection-Keeps,
}
use postgres_config_operator.Manager.{Manager}
use postgres_config_operator.Manager.Keeping.{alter-Keeps, create-Keeps, aiven_create-Keeps}
use postgres_config_operator.Manager.Std
use postgres_config_operator.Manager.Std.{std_manager, drop_query}
use postgres_config_operator.Manager.Aiven.{aiven_manager}
use postgres_config_operator.Publication.{
  finalizer_name, with_finalizers, reconcile, delete_external_resources, publication_manager,
  reconcile_with, variant_standard, variant_aiven, ensure_finalizer, release_finalizer,
  finalizers_at, handle_finalizers, reconcile_managed, reconcile_connected, reconcile_request,
}

module _ (w : World) where
  -- The last request was the statement that drops the publication, and the server accepted it.
  abbrev pub DropDone : String → History → Type 0
  DropDone name (exec sql args ∷ h) = (sql ≡ drop_query w name) × (w.executed h sql args ≡ ok tt)
  DropDone name _ = ⊥

  -- An object is stored without the finalizer only right after its publication is dropped.
  abbrev pub GuardedStep : Request → History → Type 0
  GuardedStep (update_resource p) h =
      (contains p.metadata.finalizers finalizer_name ≡ true) ⊎ DropDone p.spec.name h
  GuardedStep _ h = Unit {0}

  abbrev pub IsGuarded : History → Type 0
  IsGuarded [] = Unit {0}
  IsGuarded (q ∷ h) = GuardedStep q h × IsGuarded h

  -- A manager keeps the protocol, and drops by the standard statement.
  record KeepsProtocol (m : Manager) : Type 0 where
    create_keeps : (p : PostgresPublication) → Keeps IsGuarded (m.create_publication p)
    alter_keeps : (p : PostgresPublication) → Keeps IsGuarded (m.alter_existing_publication p)
    drop_keeps :
        (name : String)
        → Triple IsGuarded
            (m.drop_publication name)
            (λ _ h. DropDone name h × IsGuarded h)
            IsGuarded

  IsGuarded-IsQuiet : IsQuiet IsGuarded
  IsGuarded-IsQuiet = record {
    on_get = λ _ _ h g. (tt, g);
    on_get_secret = λ _ h g. (tt, g);
    on_connect = λ _ h g. (tt, g);
    on_close = λ h g. (tt, g);
    on_event = λ _ _ _ _ h g. (tt, g);
    on_eventf = λ _ _ _ _ _ h g. (tt, g);
  }

  on_exec :
      (sql : String) (args : List Argument) (h : History)
      → IsGuarded h
      → IsGuarded (exec sql args ∷ h)
  on_exec sql args h g = (tt, g)

  drop-Triple :
      (name : String)
      → Triple IsGuarded
          (Std.drop_publication w name)
          (λ _ h. DropDone name h × IsGuarded h)
          IsGuarded
  unfolding Std.drop_publication
  drop-Triple name =
      wrap-Triple (λ _ h. DropDone name h × IsGuarded h) IsGuarded IsGuarded _ _
        (perform-Triple IsGuarded _ IsGuarded _ (λ h. w.executed h (drop_query w name) [])
          (λ _ h g s. ((refl, s), (tt, g))) (λ _ h g _. (tt, g)))

  std_manager-KeepsProtocol : KeepsProtocol (std_manager w)
  unfolding std_manager
  std_manager-KeepsProtocol = record {
    create_keeps = create-Keeps IsGuarded on_exec w;
    alter_keeps = alter-Keeps IsGuarded on_exec w;
    drop_keeps = drop-Triple;
  }

  aiven_manager-KeepsProtocol : KeepsProtocol (aiven_manager w)
  unfolding aiven_manager
  aiven_manager-KeepsProtocol = record {
    create_keeps = aiven_create-Keeps IsGuarded on_exec w;
    alter_keeps = alter-Keeps IsGuarded on_exec w;
    drop_keeps = drop-Triple;
  }

  reconcile-Keeps :
      (m : Manager) (p : PostgresPublication) → KeepsProtocol m → Keeps IsGuarded (reconcile m p)
  unfolding reconcile
  reconcile-Keeps m p c =
      attempt-Keeps IsGuarded (m.create_publication p) _ _ (c.create_keeps p)
        (complain-Keeps IsGuarded IsGuarded-IsQuiet p.metadata "failed to create publication: %v")
        (elim [
          | true ↦ λ h g. g
          | false ↦
              attempt-Keeps IsGuarded (m.alter_existing_publication p) _ _ (c.alter_keeps p)
                (complain-Keeps IsGuarded IsGuarded-IsQuiet p.metadata
                  "failed to alter existing publication: %v")
                (λ _ h g. g)
        ])

  module _
      (adds : (fs : List String)
        → contains (w.add_finalizer fs finalizer_name) finalizer_name ≡ true) where
    ensure_finalizer-Keeps : (p : PostgresPublication) → Keeps IsGuarded (ensure_finalizer w p)
    unfolding ensure_finalizer
    ensure_finalizer-Keeps p =
        if-Keeps IsGuarded (contains p.metadata.finalizers finalizer_name) _ _ (λ h g. g)
          (bind-Keeps IsGuarded
            (do_update w (with_finalizers p (w.add_finalizer p.metadata.finalizers finalizer_name)))
            _
            (perform-Keeps IsGuarded _ (λ h. w.updated h _)
              (λ h g. (inl (adds p.metadata.finalizers), g)))
            (λ _ h g. g))

    release_finalizer-Keeps :
        (m : Manager) (p : PostgresPublication)
        → KeepsProtocol m
        → Keeps IsGuarded (release_finalizer w m p)
    unfolding release_finalizer delete_external_resources
    release_finalizer-Keeps m p c =
        let Dropped : History → Type 0 = λ h. DropDone p.spec.name h × IsGuarded h in
        if-Keeps IsGuarded (contains p.metadata.finalizers finalizer_name) _ _
          (bind-Triple (λ _. Dropped) IsGuarded (λ _ h. IsGuarded h) IsGuarded
            (wrap "failed to drop publication" (m.drop_publication p.spec.name)) _
            (wrap-Triple (λ _. Dropped) IsGuarded IsGuarded _ _ (c.drop_keeps p.spec.name))
            (λ _.
              bind-Triple (λ _ h. IsGuarded h) IsGuarded (λ _ h. IsGuarded h) Dropped
                (do_update w
                  (with_finalizers p (w.remove_finalizer p.metadata.finalizers finalizer_name)))
                _
                (perform-Triple Dropped _ _ _ (λ h. w.updated h _) (λ _ h d _. (inr d.0, d.1))
                  (λ _ h d _. (inr d.0, d.1)))
                (λ _ h g. g)))
          (λ h g. g)

    finalizers_at-Keeps :
        (d : Option ℕ) (m : Manager) (p : PostgresPublication)
        → KeepsProtocol m
        → Keeps IsGuarded (finalizers_at w d m p)
    unfolding finalizers_at
    finalizers_at-Keeps none m p c h g = ensure_finalizer-Keeps p h g
    finalizers_at-Keeps (some _) m p c h g = release_finalizer-Keeps m p c h g

    reconcile_managed-Keeps :
        (m : Manager) (p : PostgresPublication)
        → KeepsProtocol m
        → Keeps IsGuarded (reconcile_managed w m p)
    unfolding reconcile_managed handle_finalizers
    reconcile_managed-Keeps m p c =
        bind-Keeps IsGuarded _ _ (finalizers_at-Keeps p.metadata.deletion_timestamp m p c)
          (λ handled.
            if-Keeps IsGuarded handled.0 _ _ (λ h g. g)
              (bind-Keeps IsGuarded _ _ (wrap-Keeps IsGuarded _ _ (reconcile-Keeps m handled.1 c))
                (λ result. if-Keeps IsGuarded result.requeue _ _ (λ h g. g) (λ h g. (tt, g)))))

    ManagerKeeps : Result Manager → Type 0
    ManagerKeeps (err e) = Unit {0}
    ManagerKeeps (ok m) = KeepsProtocol m

    publication_manager-Keeps : (p : PostgresPublication) → ManagerKeeps (publication_manager w p)
    unfolding publication_manager ManagerKeeps
    publication_manager-Keeps p =
        let variant = p.spec.postgres_ref.variant in
        if_both ManagerKeeps (variant == variant_standard) _ _ std_manager-KeepsProtocol (
          if_both ManagerKeeps (variant == "") _ _ std_manager-KeepsProtocol
            (if_both ManagerKeeps (variant == variant_aiven) _ _ aiven_manager-KeepsProtocol tt))

    reconcile_with-Keeps :
        (r : Result Manager) (p : PostgresPublication)
        → ManagerKeeps r
        → Keeps IsGuarded (reconcile_with w r p)
    unfolding reconcile_with ManagerKeeps
    reconcile_with-Keeps (err e) p c h g = (tt, g)
    reconcile_with-Keeps (ok m) p c h g = reconcile_managed-Keeps m p c _ (tt, g)

    -- Whatever the API server and the PostgreSQL server answer, and whatever was done before: if
    -- every object stored without the finalizer was stored right after its publication was dropped
    -- successfully, then this is still so after `Reconcile`, however it ends. `AddFinalizer` is
    -- assumed to add the finalizer.
    pub reconcile_request-IsGuarded :
        (key : NamespacedName) (h : History)
        → IsGuarded h
        → IsGuarded (history (reconcile_request w key h))
    unfolding reconcile_request reconcile_connected
    reconcile_request-IsGuarded key h g = Keeps-history IsGuarded _ (
        get_or_stop-Keeps IsGuarded IsGuarded-IsQuiet w "PostgresPublication" w.publication_at key _
          (λ p.
            with_connection-Keeps IsGuarded IsGuarded-IsQuiet w p.spec.postgres_ref p.metadata _
              (reconcile_with-Keeps (publication_manager w p) p (publication_manager-Keeps p)))
          h g)
