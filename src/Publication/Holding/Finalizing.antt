-- ===== src/Publication/Holding/Finalizing.antt =====
-- The finalizer is stored before a manager is called, and a manager is called only while it is.
use postgres_config_operator.Base.{
  String, List, Bool, true, false, Option, none, some, ◌∷◌, ◌≡◌, refl, ◌∙◌, contains, ℕ,
}
use postgres_config_operator.Errors.{ok}
use postgres_config_operator.Api.{NamespacedName, PostgresPublication}
use postgres_config_operator.Effects.{History, update_resource, wrap}
use postgres_config_operator.Effects.Hoare.{
  Triple, bind-Triple, if-Keeps, if-Triple, perform-Triple, wrap-Keeps, weaken-Triple,
}
use postgres_config_operator.Effects.World.{World, do_update}
use postgres_config_operator.Manager.{Manager}
use postgres_config_operator.Manager.Keeping.{IsKeeper}
use postgres_config_operator.Publication.{
  delete_external_resources, ensure_finalizer, finalizer_name, finalizers_at, handle_finalizers,
  reconcile, reconcile_managed, release_finalizer, with_finalizers,
}
use postgres_config_operator.Publication.Holding.{
  IsHeldSince, holds_now, is_held, is_of, reconcile-Keeps, silent, weaken_both,
}

module _ (w : World) (key : NamespacedName) (at_first : Bool)
    (adds : (fs : List String) → contains (w.add_finalizer fs finalizer_name) finalizer_name ≡ true)
    (start : History) where
  abbrev Since : History → Type 0
  Since h = IsHeldSince w key at_first start h

  abbrev Now : Bool → History → Type 0
  Now b h = Since h × (holds_now w key at_first h ≡ b)

  abbrev Handled : Bool × PostgresPublication → History → Type 0
  Handled r h = Since h × (r.0 ≡ false → holds_now w key at_first h ≡ true)

  module _ (m : Manager) (p : PostgresPublication) (keeper : IsKeeper (Now true) m)
      (own : is_of key p.metadata ≡ true) where
    stored_now :
        (fs : List String) (h : History) (q : PostgresPublication)
        → w.updated h (with_finalizers p fs) ≡ ok q
        → holds_now w key at_first (update_resource (with_finalizers p fs) ∷ h)
          ≡ contains fs finalizer_name
    unfolding holds_now
    stored_now fs h q e = rw (own, e) refl

    update-Since :
        (P : History → Type 0) (fs : List String)
        → ((h : History) → P h → Since h)
        → Triple P
            (do_update w (with_finalizers p fs))
            (λ _ h. Since h × (holds_now w key at_first h ≡ contains fs finalizer_name))
            Since
    update-Since P fs since =
        perform-Triple P
          (λ _ h. Since h × (holds_now w key at_first h ≡ contains fs finalizer_name)) Since
          (update_resource (with_finalizers p fs)) (λ h. w.updated h (with_finalizers p fs))
          (λ q h s e. (silent _ h tt (since h s), stored_now fs h q e))
          (λ _ h s e. silent _ h tt (since h s))

    ensure_finalizer-Handled : Triple (Now (is_held p)) (ensure_finalizer w p) Handled Since
    unfolding ensure_finalizer
    ensure_finalizer-Handled =
        let fs = w.add_finalizer p.metadata.finalizers finalizer_name in
        if-Triple (Now (is_held p)) Handled Since (is_held p) _ _ (λ e h s. (s.0, λ _. s.1 ∙ e))
          (λ e.
            bind-Triple (λ _ h. Since h × (holds_now w key at_first h ≡ contains fs finalizer_name))
              Since Handled (Now (is_held p)) (do_update w (with_finalizers p fs)) _
              (update-Since (Now (is_held p)) fs (λ h s. s.0))
              (λ q h s. (s.0, λ _. s.1 ∙ adds p.metadata.finalizers)))

    release_finalizer-Handled : Triple (Now (is_held p)) (release_finalizer w m p) Handled Since
    unfolding release_finalizer delete_external_resources
    release_finalizer-Handled =
        let fs = w.remove_finalizer p.metadata.finalizers finalizer_name in
        let drop = wrap "failed to drop publication" (m.drop_publication p.spec.name) in
        if-Triple (Now (is_held p)) Handled Since (is_held p) _ _
          (λ e h s.
            bind-Triple (λ _. Now true) Since Handled (Now true) drop _
              (weaken-Triple (Now true) (λ _. Now true) (Now true) Since (λ _ n. n.0) drop
                (wrap-Keeps (Now true) "failed to drop publication" (m.drop_publication p.spec.name)
                  (keeper.drop_keeps p.spec.name)))
              (λ _.
                bind-Triple
                  (λ _ h. Since h × (holds_now w key at_first h ≡ contains fs finalizer_name)) Since
                  Handled (Now true) (do_update w (with_finalizers p fs)) _
                  (update-Since (Now true) fs (λ h s. s.0)) (λ q h s. (s.0, λ never. cc)))
              h (s.0, s.1 ∙ e))
          (λ e h s. (s.0, λ never. cc))

    finalizers_at-Handled :
        (d : Option ℕ) → Triple (Now (is_held p)) (finalizers_at w d m p) Handled Since
    unfolding finalizers_at
    finalizers_at-Handled none = ensure_finalizer-Handled
    finalizers_at-Handled (some _) = release_finalizer-Handled

    pub reconcile_managed-Since :
        Triple (Now (is_held p)) (reconcile_managed w m p) (λ _. Since) Since
    unfolding reconcile_managed handle_finalizers
    reconcile_managed-Since =
        bind-Triple Handled Since (λ _. Since) (Now (is_held p))
          (finalizers_at w p.metadata.deletion_timestamp m p) _
          (finalizers_at-Handled p.metadata.deletion_timestamp)
          (λ r.
            if-Triple (Handled r) (λ _. Since) Since r.0 _ _ (λ _ h s. s.0)
              (λ go.
                bind-Triple (λ _. Since) Since (λ _. Since) (Handled r)
                  (wrap "failed to reconcile" (reconcile m r.1)) _
                  (λ h s.
                    weaken_both w key at_first adds start
                      (wrap "failed to reconcile" (reconcile m r.1) h)
                      (wrap-Keeps (Now true) "failed to reconcile" (reconcile m r.1)
                        (reconcile-Keeps w key at_first adds start m r.1 keeper) h (s.0, s.1 go)))
                  (λ result.
                    if-Keeps Since result.requeue _ _ (λ h s. s) (λ h s. silent _ h tt s))))
