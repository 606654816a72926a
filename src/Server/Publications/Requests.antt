-- ===== src/Server/Publications/Requests.antt =====
-- What `Reconcile` of a publication leaves on a PostgreSQL server that serves it.
use postgres_config_operator.Base.{
  ℕ, String, Bool, true, false, Option, none, some, ◌∷◌, ◌≡◌, ◌≢◌, [], refl, sym, ap, ◌∙◌, subst,
  contains, if◌then◌else◌,
}
use postgres_config_operator.Errors.{ok}
use postgres_config_operator.Api.{NamespacedName, PostgresPublication}
use postgres_config_operator.Effects.{
  History, Request, M, ReconcileResult, done, return, wrap, ◌>>=◌, ◌>>◌,
}
use postgres_config_operator.Effects.Hoare.{bind-Triple, wrap-Triple}
use postgres_config_operator.Effects.World.{World}
use postgres_config_operator.Events.{finished, report, successful_reconcile}
use postgres_config_operator.Manager.{Manager}
use postgres_config_operator.Publication.{
  ensure_finalizer, finalizer_name, finalizers_at, handle_finalizers, publication_manager,
  reconcile, reconcile_connected, reconcile_managed, reconcile_request, reconcile_with,
  release_finalizer,
}
use postgres_config_operator.Server.{
  Ends, IsQuiet, KeptQuiet, Never, Opens, ended, get_or_stop-Ends, with_connection-Ends,
}
use postgres_config_operator.Server.Publications.{
  IsDroppable, Manages, Published, ServesPublication, Stores, View, settled, wanted,
}
use postgres_config_operator.Server.Publications.Managers.{publication_manager-Manages}
use postgres_config_operator.Server.Publications.Finalizing.{
  Handled, ensure_finalizer-Ends, reconcile-Ends, release_finalizer-Ends,
}

-- Whether the object has the finalizer
abbrev pub is_held : PostgresPublication → Bool
is_held p = contains p.metadata.finalizers finalizer_name

module _ (w : World) (m : Manager) (p : PostgresPublication) (view : View)
    (contract : (q : PostgresPublication) → q.spec ≡ p.spec → Manages m q view)
    (quiet : (q : Request) (h : History) → IsQuiet q → view (q ∷ h) ≡ view h)
    (stores : Stores w) where
  -- A reconciliation that is not queued again, and what it leaves
  abbrev Settled : Option ℕ → Option Published → ReconcileResult → History → Type 0
  Settled d s r h = (r ≡ finished) × (view h ≡ settled d (is_held p) (wanted p.spec) s)

  -- `Reconcile`, behind the finalizers
  abbrev rest : Bool × PostgresPublication → M ReconcileResult
  rest handled =
      if handled.0
      then return finished
      else wrap "failed to reconcile" (reconcile m handled.1) >>= λ result.
          if result.requeue then return result else (do
            report handled.1.metadata successful_reconcile "successfully reconcilled publication"
            return finished)

  managed_at-Ends :
      (d : Option ℕ) (s : Option Published)
      → IsDroppable d (is_held p) s
      → Ends (λ h. view h ≡ s) (finalizers_at w d m p >>= rest) (Settled d s)
  unfolding finalizers_at settled
  managed_at-Ends none s droppable =
      bind-Triple (Handled w m p view contract quiet stores false s) Never (Settled none s)
        (λ h. view h ≡ s) (ensure_finalizer w p) rest
        (ensure_finalizer-Ends w m p view contract quiet stores s)
        (λ r h is. rw is.0 (
          bind-Triple (Settled none s) Never (Settled none s) (λ h. view h ≡ s)
            (wrap "failed to reconcile" (reconcile m r.1)) _
            (wrap-Triple (Settled none s) Never (λ h. view h ≡ s) _ _
              (reconcile-Ends w m p view contract quiet stores r.1 is.1 s))
            (λ result h end. rw end.0 (refl, quiet _ h tt ∙ end.1)) h is.2))
  managed_at-Ends (some d) s droppable =
      bind-Triple
        (Handled w m p view contract quiet stores true
          (settled (some d) (is_held p) (wanted p.spec) s))
        Never (Settled (some d) s) (λ h. view h ≡ s) (release_finalizer w m p) rest
        (release_finalizer-Ends w m p view contract quiet stores d s droppable)
        (λ r h is. rw is.0 (refl, is.2))

  reconcile_with-Ends :
      (s : Option Published)
      → IsDroppable p.metadata.deletion_timestamp (is_held p) s
      → Ends (λ h. view h ≡ s) (reconcile_with w (ok m) p) (Settled p.metadata.deletion_timestamp s)
  unfolding reconcile_with reconcile_managed handle_finalizers
  reconcile_with-Ends s droppable h is =
      managed_at-Ends p.metadata.deletion_timestamp s droppable _ (quiet _ h tt ∙ is)

module _ (w : World) (escaped : String → String) (p : PostgresPublication) (view : View)
    (server : ServesPublication w escaped p.spec view) where
  contract :
      (m : Manager)
      → p.spec.tables ≢ []
      → publication_manager w p ≡ ok m
      → (q : PostgresPublication) → q.spec ≡ p.spec
      → Manages m q view
  unfolding publication_manager
  contract m tables chosen q same =
      publication_manager-Manages w escaped q view
        (subst (λ s. ServesPublication w escaped s view) (sym same) server) m
        (subst (λ s. s.tables ≢ []) (sym same) tables)
        (ap (λ s. publication_manager w (record p { spec = s })) same ∙ chosen)

  -- The publication can be read, as can the secret of its server, which accepts connections and serves
  -- the publication of the spec; the spec lists a table and a known variant, the API server stores
  -- what it is sent, and if the object is being deleted and has the finalizer, its publication is
  -- there. Then `Reconcile` ends without an error, and not queued again. If the object is not being
  -- deleted, it leaves the publication with the tables and operations of the spec, whether it was
  -- there or not; if it is being deleted, no publication if it has the finalizer, and otherwise what
  -- was there.
  pub publication_request-Settled :
      (m : Manager) (key : NamespacedName) (h : History)
      → p.spec.tables ≢ []
      → publication_manager w p ≡ ok m
      → Opens w p.spec.postgres_ref p.metadata
      → Stores w
      → w.publication_at h key ≡ ok p
      → IsDroppable p.metadata.deletion_timestamp (is_held p) (view h)
      → (h' : History) × (reconcile_request w key h ≡ done finished h')
        × (view h' ≡ settled p.metadata.deletion_timestamp (is_held p) (wanted p.spec) (view h))
  unfolding reconcile_request reconcile_connected
  publication_request-Settled m key h tables chosen opens stores there droppable =
      let s : Option Published = view h in
      let quiet : KeptQuiet (λ h. view h ≡ s) = λ q h u e. server.after_quiet q h u ∙ e in
      let After : ReconcileResult → History → Type 0 =
        Settled w m p view (contract m tables chosen) server.after_quiet stores
          p.metadata.deletion_timestamp s in
      let (r, h', e, end) = ended After (reconcile_request w key h) (
        get_or_stop-Ends (λ h. view h ≡ s) quiet w After "PostgresPublication" w.publication_at key
          _ p h there
          (with_connection-Ends (λ h. view h ≡ s) quiet w After p.spec.postgres_ref p.metadata
            (reconcile_connected w p) opens
            (λ r q h u end. (end.0, server.after_quiet q h u ∙ end.1))
            (subst (λ r. Ends (λ h. view h ≡ s) (reconcile_with w r p) After) (sym chosen)
              (reconcile_with-Ends w m p view (contract m tables chosen) server.after_quiet stores s
                droppable)))
          refl) in
      (h', e ∙ ap (λ x. done x h') end.0, end.1)
