-- ===== src/Publication/Tests.antt =====
-- Reconciliations of publications, and the theorems at inputs.
use postgres_config_operator.Base.{String, true, List, [], ◌∷◌, ◌≡◌, refl, contains, subst}
use postgres_config_operator.Errors.{Err, ok, err, pg_error}
use postgres_config_operator.Effects.{done, event, exec, history, normal, update_resource, History}
use postgres_config_operator.Effects.Hoare.{Always, Post}
use postgres_config_operator.Events.Reports.{Reports}
use postgres_config_operator.Manager.Std.{build_create_publication_query, std_manager}
use postgres_config_operator.Publication.{
  finalizer_name, reconcile, reconcile_connected, reconcile_request,
}
use postgres_config_operator.Publication.AllTables.{all_tables-requeue, bare_set_table}
use postgres_config_operator.Publication.Finalizers.{IsGuarded, reconcile_request-IsGuarded}
use postgres_config_operator.Api.{PostgresPublication}
use postgres_config_operator.Publication.Holding.{IsHeldSince, holds_now, is_held, is_of}
use postgres_config_operator.Publication.Holding.Requests.{reconcile_request-IsHeldSince}
use postgres_config_operator.Publication.Reports.{SuccessOrDeletion, publication_reconcile-Reports}
use postgres_config_operator.Samples.{all_jobs, at, calm, knowing, leaving_jobs, some_jobs}

-- The requests of a deletion, the latest first: the publication is dropped, then the finalizer goes.
deletion :
    history (reconcile_connected calm leaving_jobs [])
    ≡ update_resource
        (record leaving_jobs { metadata = record (leaving_jobs.metadata) { finalizers = [] } })
      ∷ exec "DROP PUBLICATION \"some_jobs\"" []
      ∷ event
          (at "some-jobs")
          normal
          "SuccessConnectPostgres"
          "successfully connected to PostgreSQL"
      ∷ []
unfolding reconcile_connected
deletion = refl

ok_value : {A : Type 0} {a b : A} → ok a ≡ ok b → a ≡ b
ok_value e = cc

adds_finalizer : (fs : List String) → contains (finalizer_name ∷ fs) finalizer_name ≡ true
unfolding contains
adds_finalizer fs = refl

reconcile_request-IsGuarded_example :
    IsGuarded calm (history (reconcile_request calm (at "some-jobs") []))
reconcile_request-IsGuarded_example =
    reconcile_request-IsGuarded calm adds_finalizer (at "some-jobs") [] tt

stored_as_read :
    (p : PostgresPublication)
    → calm.publication_at [] (at "some-jobs") ≡ ok p
    → (is_of (at "some-jobs") p.metadata ≡ true)
      × (holds_now calm (at "some-jobs") true [] ≡ is_held p)
unfolding holds_now contains
stored_as_read p e =
    subst
      (λ q.
        (is_of (at "some-jobs") q.metadata ≡ true)
        × (holds_now calm (at "some-jobs") true [] ≡ is_held q))
      (ok_value e) (refl, refl)

reconcile_request-IsHeldSince_example :
    IsHeldSince calm (at "some-jobs") true [] (history (reconcile_request calm (at "some-jobs") []))
reconcile_request-IsHeldSince_example =
    reconcile_request-IsHeldSince calm (at "some-jobs") true adds_finalizer [] stored_as_read

publication_reconcile-Reports_example :
    Post (Reports (SuccessOrDeletion some_jobs)) Always (reconcile_connected calm some_jobs [])
publication_reconcile-Reports_example = publication_reconcile-Reports calm some_jobs []

abbrev all_query : String
all_query = "CREATE PUBLICATION \"all_jobs\" FOR ALL TABLES "

all_built : build_create_publication_query knowing all_jobs [] ≡ done all_query []
unfolding build_create_publication_query
all_built = refl

no_table_refused :
    (h : History) → (e : Err) × (knowing.executed h (bare_set_table knowing all_jobs) [] ≡ err e)
no_table_refused h = (pg_error "42601" "syntax error at end of input", refl)

all_tables-requeue_example :
    Post (λ r _. r.requeue ≡ true) (λ _. ⊥) (reconcile (std_manager knowing) all_jobs [])
all_tables-requeue_example =
    all_tables-requeue knowing all_jobs [] all_query "publication already exists" refl all_built
      refl no_table_refused
