-- ===== src/Publication/AllTables.antt =====
-- A publication for all tables that is already there.
use postgres_config_operator.Base.{
  String, ◌<>◌, true, false, [], ◌∷◌, ◌≡◌, refl, sym, ap, ◌∙◌, join, subst,
}
use postgres_config_operator.Errors.{Err, err, pg_error, has_code, wrapped}
use postgres_config_operator.Api.{PostgresPublication, single}
use postgres_config_operator.Effects.{History, done, failed, exec, wrap}
use postgres_config_operator.Effects.Hoare.{Post}
use postgres_config_operator.Effects.Steps.{
  attempt-done, attempt-failed, bind-done, bind-failed, wrap-done, wrap-failed, perform-failed,
}
use postgres_config_operator.Effects.World.{World, do_exec}
use postgres_config_operator.Manager.{
  Manager, created_or_known, duplicate_object, table_identifiers,
}
use postgres_config_operator.Manager.Std.{
  alter_existing_publication, build_create_publication_query, create_publication, set_table_query,
  std_manager,
}
use postgres_config_operator.Publication.{reconcile}

-- `ALTER PUBLICATION name SET TABLE ` with no table behind it
abbrev pub bare_set_table : World → PostgresPublication → String
bare_set_table w p = "ALTER PUBLICATION " <> w.sanitize (single p.spec.name) <> " SET TABLE " <> ""

requeue_of_failed_alter :
    (m : Manager) (p : PostgresPublication) (h h' h'' : History) (e : Err)
    → m.create_publication p h ≡ done false h'
    → m.alter_existing_publication p h' ≡ failed e h''
    → Post (λ r _. r.requeue ≡ true) (λ _. ⊥) (reconcile m p h)
unfolding reconcile
requeue_of_failed_alter m p h h' h'' e known refused =
    subst (Post (λ r _. r.requeue ≡ true) (λ _. ⊥))
      (sym (
        attempt-done (m.create_publication p) _ _ known
        ∙ attempt-failed (m.alter_existing_publication p) _ _ refused))
      refl

module _ (w : World) (p : PostgresPublication) where
  create-known :
      (h : History) (query text : String)
      → build_create_publication_query w p h ≡ done query h
      → w.executed h query [] ≡ err (pg_error duplicate_object text)
      → create_publication w p h ≡ done false (exec query [] ∷ h)
  unfolding create_publication created_or_known has_code
  create-known h query text built known =
      bind-done
        (wrap "failed to build create publication query" (build_create_publication_query w p)) _
        (wrap-done "failed to build create publication query" (build_create_publication_query w p)
          built)
      ∙ attempt-failed (do_exec w query []) _ _
          (perform-failed (exec query []) (λ h'. w.executed h' query []) known)

  set_table_query-bare : p.spec.tables ≡ [] → set_table_query w p ≡ bare_set_table w p
  unfolding set_table_query table_identifiers join
  set_table_query-bare none_listed =
      ap
        (λ ts.
          "ALTER PUBLICATION "
          <> w.sanitize (single p.spec.name)
          <> " SET TABLE "
          <> join ", " (table_identifiers w ts))
        none_listed

  alter-refused :
      (h : History) (e : Err)
      → w.executed h (set_table_query w p) [] ≡ err e
      → alter_existing_publication w p h
        ≡ failed
            (wrapped "failed to set table to publication" e)
            (exec (set_table_query w p) [] ∷ h)
  unfolding alter_existing_publication
  alter-refused h e refused =
      bind-failed (wrap "failed to set table to publication" (do_exec w (set_table_query w p) [])) _
        (wrap-failed "failed to set table to publication" (do_exec w (set_table_query w p) []) (
          perform-failed (exec (set_table_query w p) [])
            (λ h'. w.executed h' (set_table_query w p) []) refused))

-- The standard manager cannot reconcile a publication for all tables once it is there. The spec
-- lists no table; the statement that creates it is answered by "duplicate object", and the server
-- refuses `SET TABLE` with no table behind it. Then the object is queued again, from any history.
pub all_tables-requeue :
    (w : World) (p : PostgresPublication) (h : History) (query text : String)
    → p.spec.tables ≡ []
    → build_create_publication_query w p h ≡ done query h
    → w.executed h query [] ≡ err (pg_error duplicate_object text)
    → ((h' : History) → (e : Err) × (w.executed h' (bare_set_table w p) [] ≡ err e))
    → Post (λ r _. r.requeue ≡ true) (λ _. ⊥) (reconcile (std_manager w) p h)
unfolding std_manager
all_tables-requeue w p h query text none_listed built known refused =
    let (e, refusal) = refused (exec query [] ∷ h) in
    requeue_of_failed_alter (std_manager w) p h (exec query [] ∷ h) _ _
      (create-known w p h query text built known)
      (alter-refused w p _ e (rw (set_table_query-bare w p none_listed) refusal))
