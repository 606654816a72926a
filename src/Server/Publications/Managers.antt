-- ===== src/Server/Publications/Managers.antt =====
-- The managers of `controllers/publicationmanager` on a PostgreSQL server that serves a publication.
use postgres_config_operator.Base.{
  Bool-cases, eq_iff, inl, inr, String, ◌<>◌, Bool, true, false, Option, none, some, List, [], ◌∷◌,
  ◌==◌, ◌≡◌, ◌≢◌, refl, sym, ap, join, subst,
}
use postgres_config_operator.Errors.{Result, ok, err}
use postgres_config_operator.Api.{PostgresPublication}
use postgres_config_operator.Effects.{Argument, History, exec, wrap, answer}
use postgres_config_operator.Effects.Hoare.{Post, attempt-Triple, bind-Triple, wrap-Triple}
use postgres_config_operator.Effects.World.{World, do_exec}
use postgres_config_operator.Manager.{Manager, created_or_known}
use postgres_config_operator.Manager.Std
use postgres_config_operator.Manager.Std.{
  build_create_publication_query, drop_query, set_param_query, set_table_query, std_manager,
  with_part,
}
use postgres_config_operator.Manager.Texts.{
  alter_by, drop_text, for_table_part_lem, joined_operations_lem, published_operations,
  set_operations_text, set_tables_text, table_identifiers_lem,
}
use postgres_config_operator.Manager.Aiven
use postgres_config_operator.Manager.Aiven.{aiven_manager, create_query}
use postgres_config_operator.Publication.{publication_manager, variant_aiven, variant_standard}
use postgres_config_operator.Server.{Ends, Never, perform-Ends, refused-Ends}
use postgres_config_operator.Server.Publications.{
  Creates, Manages, Published, ServesPublication, View, create_arguments, create_text,
  operations_text, tables_text, wanted, with_text,
}

module _ (w : World) (escaped : String → String) (p : PostgresPublication) (view : View)
    (server : ServesPublication w escaped p.spec view) where
  abbrev Is : Option Published → History → Type 0
  Is s h = view h ≡ s

  escape-Ends :
      (s : Option Published) (x : String)
      → Ends (Is s) (Std.escape w x) (λ e h. (e ≡ escaped x) × Is s h)
  escape-Ends s x h is =
      subst (λ r. Post (λ e h. (e ≡ escaped x) × Is s h) Never (answer r h))
        (sym (server.escapes h x)) (refl, is)

  abbrev Created : Option Published → Bool → History → Type 0
  Created none created h = (created ≡ true) × Is (some (wanted p.spec)) h
  Created (some now) created h = (created ≡ false) × Is (some now) h

  created_or_known-Ends :
      (sql : String) (args : List Argument)
      → Creates w escaped p.spec view sql args
      → (s : Option Published) → Ends (Is s) (created_or_known (do_exec w sql args)) (Created s)
  unfolding created_or_known
  created_or_known-Ends sql args creation none =
      attempt-Triple (λ _. Is (some (wanted p.spec))) Never Never (Created none) (Is none)
        (do_exec w sql args) _ _
        (perform-Ends (Is none) (λ _. Is (some (wanted p.spec))) _ (λ h. w.executed h sql args) tt
          (λ h is. creation.accepts h is) (λ h is. creation.after_new h is))
        (λ e h never. absurd never) (λ _ h is. (refl, is))
  created_or_known-Ends sql args creation (some now) =
      refused-Ends (Is (some now)) (Created (some now)) (exec sql args) (λ h. w.executed h sql args)
        _ _
        (λ h is.
          let (e, refused, duplicate) = creation.refuses h now is in
          (e, refused, rw duplicate (refl, creation.after_old h now is)))

  with_part-Ends :
      (s : Option Published) (os : List String)
      → Ends (Is s) (with_part w os) (λ t h. (t ≡ with_text w escaped p.spec os) × Is s h)
  unfolding with_part
  with_part-Ends s [] = λ h is. (refl, is)
  with_part-Ends s (o ∷ os) =
      bind-Triple (λ e h. (e ≡ escaped (join ", " (o ∷ os))) × Is s h) Never _ (Is s) _ _
        (wrap-Triple (λ e h. (e ≡ escaped (join ", " (o ∷ os))) × Is s h) Never (Is s) _ _
          (escape-Ends s (join ", " (o ∷ os))))
        (λ e h is. (ap (λ x. "WITH (publish = '" <> x <> "')") is.0, is.1))

  build-Ends :
      (s : Option Published)
      → Ends
          (Is s)
          (build_create_publication_query w p)
          (λ t h. (t ≡ create_text w escaped p.spec) × Is s h)
  unfolding build_create_publication_query
  build-Ends s =
      bind-Triple (λ t h. (t ≡ with_text w escaped p.spec p.spec.operations) × Is s h) Never _
        (Is s) (with_part w p.spec.operations) _ (with_part-Ends s p.spec.operations)
        (λ t h is. (rw (is.0, for_table_part_lem w p.spec.tables) refl, is.1))

  create-Ends :
      p.spec.postgres_ref.variant ≢ variant_aiven
      → (s : Option Published) → Ends (Is s) (Std.create_publication w p) (Created s)
  unfolding Std.create_publication
  create-Ends plain s =
      bind-Triple (λ t h. (t ≡ create_text w escaped p.spec) × Is s h) Never (Created s) (Is s)
        (wrap "failed to build create publication query" (build_create_publication_query w p)) _
        (wrap-Triple (λ t h. (t ≡ create_text w escaped p.spec) × Is s h) Never (Is s) _ _
          (build-Ends s))
        (λ t h is. rw is.0 (
          created_or_known-Ends (create_text w escaped p.spec) [] (server.by_statement plain) s h
            is.1))

  aiven_create-Ends :
      p.spec.postgres_ref.variant ≡ variant_aiven
      → (s : Option Published) → Ends (Is s) (Aiven.create_publication w p) (Created s)
  unfolding Aiven.create_publication
  aiven_create-Ends aiven s =
      rw (joined_operations_lem p.spec.operations, table_identifiers_lem w p.spec.tables)
        (created_or_known-Ends create_query (create_arguments w escaped p.spec)
          (server.by_function aiven) s)

  altered-Ends :
      p.spec.tables ≢ []
      → (now : Published)
      → Ends
          (Is (some now))
          (alter_by w
            (set_tables_text w p.spec)
            (published_operations p.spec.operations)
            (set_operations_text w p.spec))
          (λ _. Is (some (wanted p.spec)))
  altered-Ends tables now =
      let os = published_operations p.spec.operations in
      let mid : Published = record now { tables = p.spec.tables } in
      bind-Triple (λ _. Is (some mid)) Never (λ _. Is (some (wanted p.spec))) (Is (some now))
        (wrap "failed to set table to publication" (do_exec w (set_tables_text w p.spec) [])) _
        (wrap-Triple (λ _. Is (some mid)) Never (Is (some now)) _ _
          (perform-Ends (Is (some now)) (λ _. Is (some mid)) _
            (λ h. w.executed h (tables_text w escaped p.spec) []) tt
            (λ h is. server.sets_tables h now tables is) (λ h is. server.after_tables h now is)))
        (λ _.
          bind-Triple (λ e h. (e ≡ escaped os) × Is (some mid) h) Never
            (λ _. Is (some (wanted p.spec))) (Is (some mid))
            (wrap "failed to escape operations" (Std.escape w os)) _
            (wrap-Triple (λ e h. (e ≡ escaped os) × Is (some mid) h) Never (Is (some mid)) _ _
              (escape-Ends (some mid) os))
            (λ e h is. rw is.0 (
              wrap-Triple (λ _. Is (some (wanted p.spec))) Never (Is (some mid)) _ _
                (perform-Ends (Is (some mid)) (λ _. Is (some (wanted p.spec))) _
                  (λ h. w.executed h (operations_text w escaped p.spec) []) tt
                  (λ h is. server.sets_operations h mid is)
                  (λ h is. server.after_operations h mid is))
                h is.1)))

  alter-Ends :
      p.spec.tables ≢ []
      → (now : Published)
      → Ends (Is (some now)) (Std.alter_existing_publication w p) (λ _. Is (some (wanted p.spec)))
  unfolding Std.alter_existing_publication set_table_query set_param_query
  alter-Ends tables now =
      rw (table_identifiers_lem w p.spec.tables, joined_operations_lem p.spec.operations)
        (altered-Ends tables now)

  drop-Ends :
      (now : Published) → Ends (Is (some now)) (Std.drop_publication w p.spec.name) (λ _. Is none)
  unfolding Std.drop_publication drop_query
  drop-Ends now =
      wrap-Triple (λ _. Is none) Never (Is (some now)) _ _
        (perform-Ends (Is (some now)) (λ _. Is none) _
          (λ h. w.executed h (drop_text w p.spec.name) []) tt (λ h is. server.drops h now is)
          (λ h is. server.after_drop h))

  std_manager-Manages :
      p.spec.postgres_ref.variant ≢ variant_aiven
      → p.spec.tables ≢ []
      → Manages (std_manager w) p view
  unfolding std_manager
  std_manager-Manages plain tables = record {
    creates = create-Ends plain none;
    knows = λ now. create-Ends plain (some now);
    alters = alter-Ends tables;
    drops = drop-Ends;
  }

  aiven_manager-Manages :
      p.spec.postgres_ref.variant ≡ variant_aiven
      → p.spec.tables ≢ []
      → Manages (aiven_manager w) p view
  unfolding aiven_manager
  aiven_manager-Manages aiven tables = record {
    creates = aiven_create-Ends aiven none;
    knows = λ now. aiven_create-Ends aiven (some now);
    alters = alter-Ends tables;
    drops = drop-Ends;
  }

  abbrev Chosen : Result Manager → Type 0
  Chosen (err e) = Unit {0}
  Chosen (ok m) = Manages m p view

  -- If the server serves the publication of the spec, which lists a table, then the manager that
  -- `publicationManager` chooses, whichever it is, keeps the contract of the interface: it creates
  -- the publication as the spec asks, knows one that is there and leaves it alone, brings one that is
  -- there to what the spec asks, and drops it, each without an error.
  pub publication_manager-Manages :
      (m : Manager) → p.spec.tables ≢ [] → publication_manager w p ≡ ok m → Manages m p view
  unfolding publication_manager
  publication_manager-Manages m tables chosen =
      let variant = p.spec.postgres_ref.variant in
      subst Chosen chosen
        (elim (Bool-cases (variant == variant_standard))
          as (λ _. Chosen (publication_manager w p)) [
            | inl is ↦
                rw is
                  (std_manager-Manages (λ e. cc ((eq_iff variant variant_standard).0 is, e)) tables)
            | inr other ↦
                elim (Bool-cases (variant == "")) as (λ _. Chosen (publication_manager w p)) [
                  | inl is ↦
                      rw (other, is)
                        (std_manager-Manages (λ e. cc ((eq_iff variant "").0 is, e)) tables)
                  | inr some_name ↦
                      elim (Bool-cases (variant == variant_aiven))
                        as (λ _. Chosen (publication_manager w p)) [
                          | inl is ↦
                              rw (other, some_name, is)
                                (aiven_manager-Manages ((eq_iff variant variant_aiven).0 is) tables)
                          | inr unknown ↦ rw (other, some_name, unknown) tt
                        ]
                ]
          ])
