-- ===== src/Manager/Tests.antt =====
-- Statements of the standard manager, and its theorem at an input.
use postgres_config_operator.Base.{false, [], ◌∷◌, ◌≡◌, refl}
use postgres_config_operator.Effects.{done, exec}
use postgres_config_operator.Effects.Hoare.{Post}
use postgres_config_operator.Manager.Alter.{IsAltered, IsCutShort, alter_existing_publication_lem}
use postgres_config_operator.Manager.Std.{
  alter_existing_publication, build_create_publication_query, create_publication,
}
use postgres_config_operator.Samples.{all_jobs, calm, knowing, some_jobs}

creation :
    build_create_publication_query calm some_jobs []
    ≡ done
        "CREATE PUBLICATION \"some_jobs\" FOR TABLE \"public\".\"jobs\" WITH (publish = 'insert, update')"
        []
unfolding build_create_publication_query
creation = refl

alteration :
    alter_existing_publication calm some_jobs []
    ≡ done tt (
        exec "ALTER PUBLICATION \"some_jobs\" SET (publish = 'insert, update')" []
        ∷ exec "ALTER PUBLICATION \"some_jobs\" SET TABLE \"public\".\"jobs\"" []
        ∷ [])
unfolding alter_existing_publication
alteration = refl

known :
    create_publication knowing all_jobs []
    ≡ done false (exec "CREATE PUBLICATION \"all_jobs\" FOR ALL TABLES " [] ∷ [])
unfolding create_publication
known = refl

alter_existing_publication_lem_example :
    Post
      (λ _. IsAltered calm some_jobs [])
      (IsCutShort calm some_jobs [])
      (alter_existing_publication calm some_jobs [])
alter_existing_publication_lem_example = alter_existing_publication_lem calm some_jobs []
