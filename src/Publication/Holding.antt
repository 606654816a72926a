-- ===== src/Publication/Holding.antt =====
-- A publication in PostgreSQL is touched only while the object that stands for it is held by the
-- finalizer.
pub mod Finalizing
pub mod Requests
use postgres_config_operator.Base.{
  String, List, Bool, true, false, Option, none, some, ◌∷◌, [], ◌≡◌, refl, sym, ◌∙◌, contains, ℕ,
  ◌==◌, ◌&&◌, if_both, if◌then◌else◌, subst, ap,
}
use postgres_config_operator.Errors.{Result, ok, err}
use postgres_config_operator.Api.{NamespacedName, ObjectMeta, PostgresPublication}
use postgres_config_operator.Effects.{
  Argument, History, Outcome, Request, done, failed, M, ReconcileResult, close, exec, get, history,
  perform, update_resource, wrap, commit,
}
use postgres_config_operator.Effects.Hoare.{
  Post, Keeps, Keeps-history, Triple, attempt-Keeps, attempt-Triple, answer-Keeps, bind-Keeps,
  bind-Triple, deferred-Triple, if-Keeps, if-Triple, perform-Triple, wrap-Keeps, wrap-Triple,
  weaken-Triple,
}
use postgres_config_operator.Effects.World.{World, do_update}
use postgres_config_operator.Connection.{setup_postgres_connection}
use postgres_config_operator.Events.{with_connection}
use postgres_config_operator.Events.Laws.{IsQuiet, complain-Keeps, setup-Keeps}
use postgres_config_operator.Manager.{Manager}
use postgres_config_operator.Manager.Keeping.{
  IsKeeper, aiven_manager-IsKeeper, std_manager-IsKeeper,
}
use postgres_config_operator.Publication.{
  delete_external_resources, ensure_finalizer, finalizer_name, finalizers_at, handle_finalizers,
  publication_manager, reconcile, reconcile_connected, reconcile_managed, reconcile_request,
  reconcile_with, release_finalizer, variant_aiven, variant_standard, with_finalizers,
}

-- Is it the object of this name?
abbrev pub is_of : NamespacedName → ObjectMeta → Bool
is_of key obj = (obj.name == key.name) && (obj.namespace == key.namespace)

abbrev pub is_held : PostgresPublication → Bool
is_held p = contains p.metadata.finalizers finalizer_name

-- A request that is no statement
abbrev pub IsSilent : Request → Type 0
IsSilent (exec sql args) = ⊥
IsSilent _ = Unit

-- An update that is answered by a success is stored.
abbrev pub stored_held : {A : Type 0} → Result A → Bool → Bool → Bool
stored_held (ok _) new old = new
stored_held (err _) new old = old

module _ (w : World) (key : NamespacedName) (at_first : Bool) where
  -- Whether the object of this name, as it is stored, has the finalizer
  unfoldable pub holds_now : History → Bool
  holds_now [] = at_first
  holds_now (update_resource p ∷ h) =
      let before = holds_now h in
      if is_of key p.metadata then stored_held (w.updated h p) (is_held p) before else before
  holds_now (_ ∷ h) = holds_now h

  -- What was sent since a history: statements only while the object that is stored has the finalizer
  pub data IsHeldSince (start : History) : History → Type 0 where
    begun : IsHeldSince start start
    silent :
        (q : Request) (h : History) → IsSilent q → IsHeldSince start h → IsHeldSince start (q ∷ h)
    sent :
        (sql : String) (args : List Argument) (h : History)
        → holds_now h ≡ true
        → IsHeldSince start h
        → IsHeldSince start (exec sql args ∷ h)

  module _
      (adds : (fs : List String)
        → contains (w.add_finalizer fs finalizer_name) finalizer_name ≡ true)
      (start : History) where
    abbrev Since : History → Type 0
    Since h = IsHeldSince start h

    abbrev Now : Bool → History → Type 0
    Now b h = Since h × (holds_now h ≡ b)

    pub Since-IsQuiet : IsQuiet Since
    Since-IsQuiet = record {
      on_get = λ _ _ h s. silent _ h tt s;
      on_get_secret = λ _ h s. silent _ h tt s;
      on_connect = λ _ h s. silent _ h tt s;
      on_close = λ h s. silent _ h tt s;
      on_event = λ _ _ _ _ h s. silent _ h tt s;
      on_eventf = λ _ _ _ _ _ h s. silent _ h tt s;
    }

    pub Now-IsQuiet : (b : Bool) → IsQuiet (Now b)
    unfolding holds_now
    Now-IsQuiet b = record {
      on_get = λ _ _ h s. (silent _ h tt s.0, s.1);
      on_get_secret = λ _ h s. (silent _ h tt s.0, s.1);
      on_connect = λ _ h s. (silent _ h tt s.0, s.1);
      on_close = λ h s. (silent _ h tt s.0, s.1);
      on_event = λ _ _ _ _ h s. (silent _ h tt s.0, s.1);
      on_eventf = λ _ _ _ _ _ h s. (silent _ h tt s.0, s.1);
    }

    pub on_exec :
        (sql : String) (args : List Argument) (h : History)
        → Now true h
        → Now true (exec sql args ∷ h)
    unfolding holds_now
    on_exec sql args h s = (sent sql args h s.1 s.0, s.1)

    pub reconcile-Keeps :
        (m : Manager) (p : PostgresPublication)
        → IsKeeper (Now true) m
        → Keeps (Now true) (reconcile m p)
    unfolding reconcile
    reconcile-Keeps m p c =
        attempt-Keeps (Now true) (m.create_publication p) _ _ (c.create_keeps p)
          (complain-Keeps (Now true) (Now-IsQuiet true) p.metadata
            "failed to create publication: %v")
          (λ created.
            if-Keeps (Now true) created _ _ (λ h s. s)
              (attempt-Keeps (Now true) (m.alter_existing_publication p) _ _ (c.alter_keeps p)
                (complain-Keeps (Now true) (Now-IsQuiet true) p.metadata
                  "failed to alter existing publication: %v")
                (λ _ h s. s)))

    pub weaken_both :
        {A : Type 0} (r : Outcome A) → Post (λ _. Now true) (Now true) r → Post (λ _. Since) Since r
    weaken_both (done a h) s = s.0
    weaken_both (failed e h) s = s.0
