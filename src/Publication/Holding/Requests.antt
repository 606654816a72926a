-- ===== src/Publication/Holding/Requests.antt =====
-- Statements for a publication are sent only while the object that stands for it has the finalizer.
use postgres_config_operator.Base.{
  String, List, Bool, true, ◌≡◌, refl, contains, ◌==◌, if_both, subst,
}
use postgres_config_operator.Errors.{Result, ok, err}
use postgres_config_operator.Api.{NamespacedName, PostgresPublication}
use postgres_config_operator.Effects.{History, close, get, history, perform}
use postgres_config_operator.Effects.Hoare.{
  Keeps-history, Triple, attempt-Triple, answer-Keeps, bind-Keeps, deferred-Triple, perform-Triple,
}
use postgres_config_operator.Effects.World.{World}
use postgres_config_operator.Connection.{setup_postgres_connection}
use postgres_config_operator.Events.{with_connection}
use postgres_config_operator.Events.Laws.{setup-Keeps}
use postgres_config_operator.Manager.{Manager}
use postgres_config_operator.Manager.Keeping.{
  IsKeeper, aiven_manager-IsKeeper, std_manager-IsKeeper,
}
use postgres_config_operator.Publication.{
  finalizer_name, publication_manager, reconcile_connected, reconcile_request, reconcile_with,
  variant_aiven, variant_standard,
}
use postgres_config_operator.Publication.Holding.{
  IsHeldSince, Now-IsQuiet, begun, holds_now, is_held, is_of, on_exec, silent,
}
use postgres_config_operator.Publication.Holding.Finalizing.{reconcile_managed-Since}

module _ (w : World) (key : NamespacedName) (at_first : Bool)
    (adds : (fs : List String) → contains (w.add_finalizer fs finalizer_name) finalizer_name ≡ true)
    (start : History) where
  abbrev Since : History → Type 0
  Since h = IsHeldSince w key at_first start h

  abbrev Now : Bool → History → Type 0
  Now b h = Since h × (holds_now w key at_first h ≡ b)

  ManagerKeeps : Result Manager → Type 0
  ManagerKeeps (err e) = Unit {0}
  ManagerKeeps (ok m) = IsKeeper (Now true) m

  publication_manager-Keeps : (p : PostgresPublication) → ManagerKeeps (publication_manager w p)
  unfolding publication_manager ManagerKeeps
  publication_manager-Keeps p =
      let variant = p.spec.postgres_ref.variant in
      let std = std_manager-IsKeeper (Now true) (on_exec w key at_first adds start) w in
      if_both ManagerKeeps (variant == variant_standard) _ _ std (
        if_both ManagerKeeps (variant == "") _ _ std (
          if_both ManagerKeeps (variant == variant_aiven) _ _
            (aiven_manager-IsKeeper (Now true) (on_exec w key at_first adds start) w) tt))

  reconcile_with-Since :
      (r : Result Manager) (p : PostgresPublication)
      → ManagerKeeps r
      → is_of key p.metadata ≡ true
      → Triple (Now (is_held p)) (reconcile_with w r p) (λ _. Since) Since
  unfolding reconcile_with ManagerKeeps holds_now
  reconcile_with-Since (err e) p keeper own h s = silent _ h tt s.0
  reconcile_with-Since (ok m) p keeper own h s =
      reconcile_managed-Since w key at_first adds start m p keeper own _ (silent _ h tt s.0, s.1)

  with_connection-Since :
      (p : PostgresPublication)
      → is_of key p.metadata ≡ true
      → Triple
          (Now (is_held p))
          (with_connection w p.spec.postgres_ref p.metadata (reconcile_connected w p))
          (λ _. Since)
          Since
  unfolding reconcile_connected
  with_connection-Since p own =
      attempt-Triple (λ _. Now (is_held p)) Since (Now (is_held p)) (λ _. Since) (Now (is_held p))
        (setup_postgres_connection w p.spec.postgres_ref p.metadata) _ _
        (setup-Keeps (Now (is_held p)) (Now-IsQuiet w key at_first adds start (is_held p)) w
          p.spec.postgres_ref p.metadata)
        (λ e h s. silent _ h tt s.0)
        (λ _.
          deferred-Triple (λ _. Since) Since (λ _. Since) Since (Now (is_held p)) close
            (reconcile_connected w p) (λ _ h s. silent close h tt s) (λ h s. silent close h tt s)
            (reconcile_with-Since (publication_manager w p) p (publication_manager-Keeps p) own))

  -- Whatever the servers answer: if the object that is read has the asked name and has the finalizer
  -- just when the one that is stored has it, then each SQL statement that `Reconcile` of a
  -- publication sends, however it ends, is sent while the object that is stored under that name has
  -- the finalizer. `AddFinalizer` is assumed to add the finalizer.
  pub reconcile_request-IsHeldSince :
      ((p : PostgresPublication)
        → w.publication_at start key ≡ ok p
        → (is_of key p.metadata ≡ true) × (holds_now w key at_first start ≡ is_held p))
      → IsHeldSince w key at_first start (history (reconcile_request w key start))
  unfolding reconcile_request holds_now
  reconcile_request-IsHeldSince stored = Keeps-history Since (reconcile_request w key start) (
      attempt-Triple (λ p h. (is_of key p.metadata ≡ true) × Now (is_held p) h) Since Since
        (λ _. Since) (λ h. h ≡ start)
        (perform (get "PostgresPublication" key) (λ h. w.publication_at h key)) _
        (λ p. with_connection w p.spec.postgres_ref p.metadata (reconcile_connected w p))
        (perform-Triple (λ h. h ≡ start) (λ p h. (is_of key p.metadata ≡ true) × Now (is_held p) h)
          Since (get "PostgresPublication" key) (λ h. w.publication_at h key)
          (λ p h now e.
            let known = stored p (subst (λ g. w.publication_at g key ≡ ok p) now e) in
            (known.0, rw now (silent (get "PostgresPublication" key) start tt begun, known.1)))
          (λ _ h now e. rw now (silent (get "PostgresPublication" key) start tt begun)))
        (λ e. bind-Keeps Since _ _ (answer-Keeps Since (w.ignore_not_found e)) (λ _ h s. s))
        (λ p h s. with_connection-Since p s.0 h s.1) start refl)
