-- ===== src/Server/Publications/Tests.antt =====
-- The theorems at inputs: a publication that is there and altered, and one that a config lists.
use postgres_config_operator.Base.{
  arith, ◌⊎◌, inl, Listed, contains, none, some, [], ◌∷◌, ◌≡◌, refl,
}
use postgres_config_operator.Errors.{ok}
use postgres_config_operator.Effects.{history, History, done}
use postgres_config_operator.Events.{finished}
use postgres_config_operator.Manager.Std.{std_manager}
use postgres_config_operator.Publication.{publication_manager, reconcile_request}
use postgres_config_operator.Server.{Opens}
use postgres_config_operator.Server.Publications.{Manages, settled}
use postgres_config_operator.Server.Publications.Managers.{publication_manager-Manages}
use postgres_config_operator.Server.Publications.Requests.{is_held, publication_request-Settled}
use postgres_config_operator.Config
use postgres_config_operator.Config.Naming.{names, wanted_names}
use postgres_config_operator.Config.Store.{IsApart, stored}
use postgres_config_operator.Config.Tests.{as_stored, as_stored-IsRangeOrders}
use postgres_config_operator.Server.Publications.FromConfig.{IsListed, config_to_server-IsListed}
use postgres_config_operator.Samples.{at, leaving_jobs, some_jobs}
use postgres_config_operator.Server.Publications.Samples.{
  asked, jobs_config, jobs_server, opens, poor, published, serves, stored_jobs,
}

standard : publication_manager jobs_server some_jobs ≡ ok (std_manager jobs_server)
unfolding publication_manager
standard = refl

publication_manager-Manages_example : Manages (std_manager jobs_server) some_jobs published
publication_manager-Manages_example =
    publication_manager-Manages jobs_server (λ x. x) some_jobs published serves
      (std_manager jobs_server) (λ e. cc) standard

publication_request-Settled_example :
    (h' : History) × (reconcile_request jobs_server (at "some-jobs") [] ≡ done finished h')
    × (published h' ≡ settled none (is_held some_jobs) asked (published []))
publication_request-Settled_example =
    publication_request-Settled jobs_server (λ x. x) some_jobs published serves
      (std_manager jobs_server) (at "some-jobs") [] (λ e. cc) standard opens
      (λ h q. (q, refl, refl)) refl tt

-- What the theorem says of the same publication, while it is being deleted
dropped : settled (some 7) (is_held leaving_jobs) asked (some poor) ≡ none
unfolding settled contains
dropped = refl

abbrev after_config : History
after_config = history (Config.reconcile_request jobs_server as_stored (at "app") [])

config_ran :
    Config.reconcile_request jobs_server as_stored (at "app") [] ≡ done finished after_config
unfolding Config.reconcile_request
config_ran = refl

stored_there : Listed stored_jobs (stored jobs_server [] after_config)
unfolding Config.reconcile_request
stored_there = inl refl

one_name : IsApart "app" (λ n. Listed n (names []) ⊎ Listed n (wanted_names jobs_config))
one_name m n im in_ e = ground arith

stored-Opens : Opens jobs_server stored_jobs.spec.postgres_ref stored_jobs.metadata
stored-Opens = record {
  secret = ("POSTGRES_USER", "ann") ∷ ("pass", "pw") ∷ [];
  reads = λ h. refl;
  connects = λ h. refl;
}

known_variant : publication_manager jobs_server stored_jobs ≡ ok (std_manager jobs_server)
unfolding publication_manager
known_variant = refl

config_to_server-IsListed_example :
    (h : History) × (reconcile_request jobs_server (at "app-some-jobs") after_config
      ≡ done finished h)
    × IsListed jobs_config "some_jobs" published h
config_to_server-IsListed_example =
    config_to_server-IsListed jobs_server [] jobs_config as_stored as_stored-IsRangeOrders
      (at "app") [] after_config after_config stored_jobs (std_manager jobs_server) (λ x. x)
      published (at "app-some-jobs") refl refl tt one_name config_ran stored_there refl (λ e. cc)
      known_variant serves stored-Opens (λ h q. (q, refl, refl)) refl
