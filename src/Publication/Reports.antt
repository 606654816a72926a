-- ===== src/Publication/Reports.antt =====
-- What `Reconcile` of a PostgresPublication returns and reports.
use postgres_config_operator.Base.{
  ℕ, Bool, true, Option, none, some, ◌≡◌, refl, ◌≢◌, ◌⊎◌, inl, inr, contains,
}
use postgres_config_operator.Errors.{Result, ok, err}
use postgres_config_operator.Api.{PostgresPublication}
use postgres_config_operator.Effects.{History, Outcome, done, failed, ReconcileResult, wrap}
use postgres_config_operator.Effects.Hoare.{
  Always, Post, Triple, anything, whatever, attempt-Triple, bind-Triple, wrap-Triple, if-Triple,
}
use postgres_config_operator.Effects.World.{World, do_update}
use postgres_config_operator.Events.{complain}
use postgres_config_operator.Events.Reports.{EndsInSuccess, Reports, Reports-requeued}
use postgres_config_operator.Manager.{Manager}
use postgres_config_operator.Publication.{
  ensure_finalizer, finalizer_name, finalizers_at, handle_finalizers, publication_manager,
  reconcile, reconcile_connected, reconcile_managed, reconcile_with, release_finalizer,
}

reconcile-Reports :
    (m : Manager) (p : PostgresPublication)
    → Triple Always (reconcile m p) (Reports Always) (λ _. ⊥)
unfolding reconcile
reconcile-Reports m p =
    attempt-Triple (λ _. Always) (λ _. ⊥) Always (Reports Always) Always (m.create_publication p)
      (complain p.metadata "failed to create publication: %v") _
      (anything Always (m.create_publication p)) (λ e h _. inl (refl, tt))
      (λ created.
        if-Triple Always (Reports Always) (λ _. ⊥) created _ _ (λ _ h _. inr (refl, tt))
          (λ _.
            attempt-Triple (λ _. Always) (λ _. ⊥) Always (Reports Always) Always
              (m.alter_existing_publication p)
              (complain p.metadata "failed to alter existing publication: %v") _
              (anything Always (m.alter_existing_publication p)) (λ e h _. inl (refl, tt))
              (λ _ h _. inr (refl, tt))))

never-fails :
    (Q : ReconcileResult → History → Type 0) (o : Outcome ReconcileResult)
    → Post Q (λ _. ⊥) o
    → Post Q Always o
never-fails Q (done r h) q = q
never-fails Q (failed e h) q = tt

-- The history ends in a report of success, or the object is being deleted.
abbrev pub SuccessOrDeletion : PostgresPublication → History → Type 0
SuccessOrDeletion p h = EndsInSuccess h ⊎ (p.metadata.deletion_timestamp ≢ none)

abbrev StopsFor : Option ℕ → Bool × PostgresPublication → History → Type 0
StopsFor d handled h = handled.0 ≡ true → d ≢ none

module _ (w : World) where
  finalizers_at-StopsFor :
      (d : Option ℕ) (m : Manager) (p : PostgresPublication)
      → Triple Always (finalizers_at w d m p) (StopsFor d) Always
  unfolding finalizers_at ensure_finalizer
  finalizers_at-StopsFor none m p =
      if-Triple Always (StopsFor none) Always (contains p.metadata.finalizers finalizer_name) _ _
        (λ _ h _ stop. cc)
        (λ _.
          bind-Triple (λ _. Always) Always (StopsFor none) Always (do_update w _) _
            (anything Always (do_update w _)) (λ _ h _ stop. cc))
  finalizers_at-StopsFor (some t) m p =
      whatever Always (StopsFor (some t)) (release_finalizer w m p) (λ _ _ _ e. cc)

  reconcile_managed-Reports :
      (m : Manager) (p : PostgresPublication) (h : History)
      → Post (Reports (SuccessOrDeletion p)) (λ _. Unit {0}) (reconcile_managed w m p h)
  unfolding reconcile_managed handle_finalizers
  reconcile_managed-Reports m p h =
      bind-Triple (StopsFor p.metadata.deletion_timestamp) Always (Reports (SuccessOrDeletion p))
        Always (finalizers_at w p.metadata.deletion_timestamp m p) _
        (finalizers_at-StopsFor p.metadata.deletion_timestamp m p)
        (λ handled.
          if-Triple (StopsFor p.metadata.deletion_timestamp handled) (Reports (SuccessOrDeletion p))
            Always handled.0 _ _ (λ stop h' s. inr (refl, inr (s stop)))
            (λ _.
              bind-Triple (Reports Always) Always (Reports (SuccessOrDeletion p))
                (StopsFor p.metadata.deletion_timestamp handled)
                (wrap "failed to reconcile" (reconcile m handled.1)) _
                (wrap-Triple (Reports Always) Always _ _ _ (λ h' _.
                  never-fails (Reports Always) (reconcile m handled.1 h')
                    (reconcile-Reports m handled.1 h' tt)))
                (λ result.
                  if-Triple (Reports Always result) (Reports (SuccessOrDeletion p)) Always
                    result.requeue _ _
                    (λ again h' s. Reports-requeued Always (SuccessOrDeletion p) result h' again s)
                    (λ _ h' s. inr (refl, inl refl)))))
        h tt

  reconcile_with-Reports :
      (r : Result Manager) (p : PostgresPublication) (h : History)
      → Post (Reports (SuccessOrDeletion p)) Always (reconcile_with w r p h)
  unfolding reconcile_with
  reconcile_with-Reports (err e) p h = inl (refl, tt)
  reconcile_with-Reports (ok m) p h = reconcile_managed-Reports m p _

  -- Once connected, a reconciliation that does not fail has one of three ends: the object is queued
  -- again and the last event is a warning; it is not, and the last event reports success; or it is not
  -- and the object is being deleted.
  pub publication_reconcile-Reports :
      (p : PostgresPublication) (h : History)
      → Post (Reports (SuccessOrDeletion p)) Always (reconcile_connected w p h)
  unfolding reconcile_connected
  publication_reconcile-Reports p h = reconcile_with-Reports (publication_manager w p) p h
