-- ===== src/Server/Publications/Finalizing.antt =====
-- `handleFinalizers` and `reconcile`, with a manager that keeps its contract.
use postgres_config_operator.Base.{
  ℕ, Bool, true, false, Option, none, some, ◌∷◌, ◌≡◌, refl, sym, ◌∙◌, subst, contains,
}
use postgres_config_operator.Api.{PostgresPublication}
use postgres_config_operator.Effects.{
  History, Request, ReconcileResult, ◌>>=◌, return, answer, update_resource,
}
use postgres_config_operator.Effects.Hoare.{
  Post, attempt-Triple, bind-Triple, if-Triple, wrap-Triple,
}
use postgres_config_operator.Effects.World.{World, do_update}
use postgres_config_operator.Events.{finished}
use postgres_config_operator.Manager.{Manager}
use postgres_config_operator.Publication.{
  delete_external_resources, ensure_finalizer, finalizer_name, reconcile, release_finalizer,
  with_finalizers,
}
use postgres_config_operator.Server.{Ends, IsQuiet, Never}
use postgres_config_operator.Server.Publications.{
  IsDroppable, Manages, Published, Stores, View, settled, wanted,
}

module _ (w : World) (m : Manager) (p : PostgresPublication) (view : View)
    (contract : (q : PostgresPublication) → q.spec ≡ p.spec → Manages m q view)
    (quiet : (q : Request) (h : History) → IsQuiet q → view (q ∷ h) ≡ view h)
    (stores : Stores w) where
  abbrev pub Is : Option Published → History → Type 0
  Is s h = view h ≡ s

  abbrev pub Reconciled : ReconcileResult → History → Type 0
  Reconciled r h = (r ≡ finished) × Is (some (wanted p.spec)) h

  module _ (q : PostgresPublication) (same : q.spec ≡ p.spec) where
    altered :
        (now : Published)
        → Ends (Is (some now)) (m.alter_existing_publication q) (λ _. Is (some (wanted p.spec)))
    altered now h is =
        subst (λ s. Post (λ _. Is (some (wanted s))) Never (m.alter_existing_publication q h)) same
          ((contract q same).alters now h is)

    created :
        Ends
          (Is none)
          (m.create_publication q)
          (λ new h. (new ≡ true) × Is (some (wanted p.spec)) h)
    created h is =
        subst
          (λ s.
            Post (λ new h. (new ≡ true) × Is (some (wanted s)) h) Never (m.create_publication q h))
          same ((contract q same).creates h is)

    pub reconcile-Ends : (s : Option Published) → Ends (Is s) (reconcile m q) Reconciled
    unfolding reconcile
    reconcile-Ends none =
        attempt-Triple (λ new h. (new ≡ true) × Is (some (wanted p.spec)) h) Never Never Reconciled
          (Is none) (m.create_publication q) _ _ created (λ e h never. absurd never)
          (λ new h is. rw is.0 (refl, is.1))
    reconcile-Ends (some now) =
        attempt-Triple (λ new h. (new ≡ false) × Is (some now) h) Never Never Reconciled
          (Is (some now)) (m.create_publication q) _ _ ((contract q same).knows now)
          (λ e h never. absurd never)
          (λ new h is. rw is.0 (
            attempt-Triple (λ _. Is (some (wanted p.spec))) Never Never Reconciled (Is (some now))
              (m.alter_existing_publication q) _ _ (altered now) (λ e h never. absurd never)
              (λ _ h is. (refl, is)) h is.1))

  update-Ends :
      (q : PostgresPublication) (s : Option Published)
      → Ends (Is s) (do_update w q) (λ q' h. (q'.spec ≡ q.spec) × Is s h)
  update-Ends q s h is =
      let (q', stored, same) = stores h q in
      subst
        (λ r. Post (λ q' h. (q'.spec ≡ q.spec) × Is s h) Never (answer r (update_resource q ∷ h)))
        (sym stored) (same, quiet (update_resource q) h tt ∙ is)

  -- Whether to stop, with an object that has the same spec, and a view of the server
  abbrev pub Handled : Bool → Option Published → Bool × PostgresPublication → History → Type 0
  Handled stops s r h = (r.0 ≡ stops) × (r.1.spec ≡ p.spec) × Is s h

  abbrev holds : Bool
  holds = contains p.metadata.finalizers finalizer_name

  pub ensure_finalizer-Ends :
      (s : Option Published) → Ends (Is s) (ensure_finalizer w p) (Handled false s)
  unfolding ensure_finalizer
  ensure_finalizer-Ends s =
      if-Triple (Is s) (Handled false s) Never holds _ _ (λ e h is. (refl, refl, is))
        (λ e.
          bind-Triple (λ q' h. (q'.spec ≡ p.spec) × Is s h) Never (Handled false s) (Is s)
            (do_update w (with_finalizers p (w.add_finalizer p.metadata.finalizers finalizer_name)))
            _
            (update-Ends (with_finalizers p (w.add_finalizer p.metadata.finalizers finalizer_name))
              s)
            (λ q' h is. (refl, is.0, is.1)))

  drop-Ends :
      (now : Published) → Ends (Is (some now)) (delete_external_resources m p) (λ _. Is none)
  unfolding delete_external_resources
  drop-Ends now = wrap-Triple (λ _. Is none) Never (Is (some now)) _ _ ((contract p refl).drops now)

  release_held-Ends :
      (now : Published)
      → Ends
          (Is (some now))
          (delete_external_resources m p >>= λ _.
            do_update w
              (with_finalizers p (w.remove_finalizer p.metadata.finalizers finalizer_name))
            >>= λ p'. return (true, p'))
          (Handled true none)
  release_held-Ends now =
      bind-Triple (λ _. Is none) Never (Handled true none) (Is (some now))
        (delete_external_resources m p) _ (drop-Ends now)
        (λ _.
          bind-Triple (λ q' h. (q'.spec ≡ p.spec) × Is none h) Never (Handled true none) (Is none)
            (do_update w
              (with_finalizers p (w.remove_finalizer p.metadata.finalizers finalizer_name)))
            _
            (update-Ends
              (with_finalizers p (w.remove_finalizer p.metadata.finalizers finalizer_name)) none)
            (λ q' h is. (refl, is.0, is.1)))

  pub release_finalizer-Ends :
      (d : ℕ) (s : Option Published)
      → IsDroppable (some d) holds s
      → Ends
          (Is s)
          (release_finalizer w m p)
          (Handled true (settled (some d) holds (wanted p.spec) s))
  unfolding release_finalizer settled
  release_finalizer-Ends d none droppable =
      if-Triple (Is none) (Handled true (settled (some d) holds (wanted p.spec) none)) Never holds _
        _ (λ e h is. absurd (subst (λ b. IsDroppable (some d) b none) e droppable))
        (λ e h is. rw e (refl, refl, is))
  release_finalizer-Ends d (some now) droppable =
      if-Triple (Is (some now)) (Handled true (settled (some d) holds (wanted p.spec) (some now)))
        Never holds _ _ (λ e. rw e (release_held-Ends now)) (λ e h is. rw e (refl, refl, is))
