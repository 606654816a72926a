-- ===== src/Sessions/Publications.antt =====
-- The publication controller and its connection.
use postgres_config_operator.Base.{Option, none, some, ℕ, ◌==◌, contains, if_both}
use postgres_config_operator.Errors.{Result, ok, err}
use postgres_config_operator.Api.{NamespacedName, PostgresPublication}
use postgres_config_operator.Effects.{History, history, wrap}
use postgres_config_operator.Effects.Hoare.{
  Keeps, Keeps-history, attempt-Keeps, bind-Keeps, if-Keeps, perform-Keeps, wrap-Keeps,
}
use postgres_config_operator.Effects.World.{World, do_update}
use postgres_config_operator.Manager.{Manager}
use postgres_config_operator.Manager.Keeping.{
  IsKeeper, std_manager-IsKeeper, aiven_manager-IsKeeper,
}
use postgres_config_operator.Publication.{
  delete_external_resources, ensure_finalizer, finalizer_name, finalizers_at, handle_finalizers,
  publication_manager, reconcile, reconcile_connected, reconcile_managed, reconcile_request,
  reconcile_with, release_finalizer, variant_aiven, variant_standard,
}
use postgres_config_operator.Sessions.{Ends, offline, online, online-exec}
use postgres_config_operator.Sessions.Connecting.{get_or_stop-Keeps, with_connection-Keeps}

module _ (w : World) where
  update-Keeps : (p : PostgresPublication) → Keeps (Ends w online) (do_update w p)
  update-Keeps p = perform-Keeps (Ends w online) _ (λ h. w.updated h p) (λ h e. (e.0, (tt, e.1)))

  finalizers_at-Keeps :
      (d : Option ℕ) (m : Manager) (p : PostgresPublication)
      → IsKeeper (Ends w online) m
      → Keeps (Ends w online) (finalizers_at w d m p)
  unfolding finalizers_at ensure_finalizer release_finalizer delete_external_resources
  finalizers_at-Keeps none m p c =
      if-Keeps (Ends w online) (contains p.metadata.finalizers finalizer_name) _ _ (λ h e. e)
        (bind-Keeps (Ends w online) (do_update w _) _ (update-Keeps _) (λ _ h e. e))
  finalizers_at-Keeps (some _) m p c =
      if-Keeps (Ends w online) (contains p.metadata.finalizers finalizer_name) _ _
        (bind-Keeps (Ends w online)
          (wrap "failed to drop publication" (m.drop_publication p.spec.name)) _
          (wrap-Keeps (Ends w online) _ _ (c.drop_keeps p.spec.name))
          (λ _. bind-Keeps (Ends w online) (do_update w _) _ (update-Keeps _) (λ _ h e. e)))
        (λ h e. e)

  reconcile-Keeps :
      (m : Manager) (p : PostgresPublication)
      → IsKeeper (Ends w online) m
      → Keeps (Ends w online) (reconcile m p)
  unfolding reconcile
  reconcile-Keeps m p c =
      attempt-Keeps (Ends w online) (m.create_publication p) _ _ (c.create_keeps p)
        (λ _ h e. (e.0, (tt, e.1)))
        (λ created.
          if-Keeps (Ends w online) created _ _ (λ h e. e)
            (attempt-Keeps (Ends w online) (m.alter_existing_publication p) _ _ (c.alter_keeps p)
              (λ _ h e. (e.0, (tt, e.1))) (λ _ h e. e)))

  reconcile_managed-Keeps :
      (m : Manager) (p : PostgresPublication)
      → IsKeeper (Ends w online) m
      → Keeps (Ends w online) (reconcile_managed w m p)
  unfolding reconcile_managed handle_finalizers
  reconcile_managed-Keeps m p c =
      bind-Keeps (Ends w online) (finalizers_at w p.metadata.deletion_timestamp m p) _
        (finalizers_at-Keeps p.metadata.deletion_timestamp m p c)
        (λ handled.
          if-Keeps (Ends w online) handled.0 _ _ (λ h e. e)
            (bind-Keeps (Ends w online) (wrap "failed to reconcile" (reconcile m handled.1)) _
              (wrap-Keeps (Ends w online) _ _ (reconcile-Keeps m handled.1 c))
              (λ result.
                if-Keeps (Ends w online) result.requeue _ _ (λ h e. e) (λ h e. (e.0, (tt, e.1))))))

  ManagerKeeps : Result Manager → Type 0
  ManagerKeeps (err e) = Unit {0}
  ManagerKeeps (ok m) = IsKeeper (Ends w online) m

  publication_manager-Keeps : (p : PostgresPublication) → ManagerKeeps (publication_manager w p)
  unfolding publication_manager ManagerKeeps
  publication_manager-Keeps p =
      let variant = p.spec.postgres_ref.variant in
      let std = std_manager-IsKeeper (Ends w online) (online-exec w) w in
      if_both ManagerKeeps (variant == variant_standard) _ _ std (
        if_both ManagerKeeps (variant == "") _ _ std (
          if_both ManagerKeeps (variant == variant_aiven) _ _
            (aiven_manager-IsKeeper (Ends w online) (online-exec w) w) tt))

  reconcile_with-Keeps :
      (r : Result Manager) (p : PostgresPublication)
      → ManagerKeeps r
      → Keeps (Ends w online) (reconcile_with w r p)
  unfolding reconcile_with ManagerKeeps
  reconcile_with-Keeps (err e) p c h g = (g.0, (tt, g.1))
  reconcile_with-Keeps (ok m) p c h g = reconcile_managed-Keeps m p c _ (g.0, (tt, g.1))

  -- After requests that respect the state of the connection and leave none open, `Reconcile` of a
  -- publication, of any variant, sends statements only while its connection is open, and leaves none
  -- open, however it ends.
  pub publication_request-Ends :
      (key : NamespacedName) (h : History)
      → Ends w offline h
      → Ends w offline (history (reconcile_request w key h))
  unfolding reconcile_request reconcile_connected
  publication_request-Ends key h e = Keeps-history (Ends w offline) _ (
      get_or_stop-Keeps w "PostgresPublication" w.publication_at key _
        (λ p.
          with_connection-Keeps w p.spec.postgres_ref p.metadata _
            (reconcile_with-Keeps (publication_manager w p) p (publication_manager-Keeps p)))
        h e)
