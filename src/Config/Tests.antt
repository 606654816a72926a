-- ===== src/Config/Tests.antt =====
-- Plans and names of resources, and the theorems at inputs.
use postgres_config_operator.Base.{
  ◌↔◌, some, [], ◌∷◌, ◌≡◌, refl, String, Listed, All, replace_all, ◌⊎◌, inl, inr, sym, ◌∙◌,
}
use postgres_config_operator.Effects.Runs.{Ran}
use postgres_config_operator.Config.{
  Orders, apply_plan, build_publication_resource, index_owner, plan, publication_resource_name,
  reconcile_request, resource_of, spec_name,
}
use postgres_config_operator.Config.Apply.{apply_plan-plan, plan_requests}
use postgres_config_operator.Config.Convergence.{IsCarriedOut, plan-plan}
use postgres_config_operator.Config.Owner.{IsToConfig, index_owner_iff}
use postgres_config_operator.Config.Planning.{IsDiff, IsRangeOrders, plan-IsDiff}
use postgres_config_operator.Api.{OwnerReference, PostgresConfig, PostgresPublication}
use postgres_config_operator.Errors.{ok}
use postgres_config_operator.Effects.{history}
use postgres_config_operator.Effects.Hoare.{Post}
use postgres_config_operator.Effects.World.{World}
use postgres_config_operator.Config.Naming.{KeepsWanted, names, wanted_names}
use postgres_config_operator.Config.Reconciled.{HasWanted, reconcile_request-HasWanted}
use postgres_config_operator.Config.Store.{IsApart, resource_name, resource_name_of, stored}
use postgres_config_operator.Samples.{
  at, new_jobs, all_jobs, app_config, app_ref, calm, some_jobs, wanted,
}

abbrev pub as_stored : Orders
as_stored = record { desired_order = λ m. m; current_order = λ m. m }

pub as_stored-IsRangeOrders : IsRangeOrders as_stored
as_stored-IsRangeOrders = record {
  desired_complete = λ m d. record { visits = λ k v. (λ l. l, λ l. l); once = d };
  current_complete = λ m d. record { visits = λ k v. (λ l. l, λ l. l); once = d };
}

planned : plan as_stored (some_jobs ∷ all_jobs ∷ []) app_config.spec.publications ≡ record {
  to_create = wanted "new_jobs" ∷ [];
  to_update_current = some_jobs ∷ [];
  to_update_desired = wanted "some_jobs" ∷ [];
  to_delete = all_jobs ∷ [];
}
unfolding plan
planned = refl

-- Two publications of one config whose resources have one name
same_resource :
    publication_resource_name "app" (wanted "a_b") ≡ publication_resource_name "app" (wanted "a-b")
unfolding publication_resource_name
same_resource = refl

plan-IsDiff_example :
    IsDiff
      (some_jobs ∷ all_jobs ∷ [])
      app_config.spec.publications
      (plan as_stored (some_jobs ∷ all_jobs ∷ []) app_config.spec.publications)
plan-IsDiff_example =
    plan-IsDiff as_stored as_stored-IsRangeOrders (some_jobs ∷ all_jobs ∷ [])
      app_config.spec.publications

apply_plan-plan_example :
    let p = plan as_stored (some_jobs ∷ all_jobs ∷ []) app_config.spec.publications in
    Ran calm (plan_requests calm app_config p) [] (apply_plan calm app_config p [])
apply_plan-plan_example =
    apply_plan-plan calm app_config as_stored as_stored-IsRangeOrders (some_jobs ∷ all_jobs ∷ []) []

index_owner_iff_example :
    Listed "app" (index_owner calm (resource_of calm app_config app_ref (wanted "x"))) ↔ (
      (owner : OwnerReference) × (calm.get_controller_of
          ((resource_of calm app_config app_ref (wanted "x")).metadata.owner_references)
        ≡ some owner)
      × IsToConfig owner "app")
index_owner_iff_example =
    index_owner_iff calm (resource_of calm app_config app_ref (wanted "x")) "app"

indexed : index_owner calm (resource_of calm app_config app_ref (wanted "x")) ≡ "app" ∷ []
unfolding index_owner build_publication_resource
indexed = refl

other_name : ¬ (Path String "some_jobs" "all_jobs")
other_name e = cc

carried :
    IsCarriedOut
      (plan as_stored (some_jobs ∷ all_jobs ∷ []) app_config.spec.publications)
      (some_jobs ∷ all_jobs ∷ [])
      (new_jobs ∷ some_jobs ∷ [])
carried = rw planned (record {
  stored = λ n. (
    elim [
      | inl e ↦ inl (inl e)
      | inr (inl e) ↦ inr (inl e, elim [ inl f ↦ other_name (sym e ∙ f) | inr l ↦ elim l [ ] ])
      | inr (inr l) ↦ elim l [ ]
    ],
    elim [
      | inl (inl e) ↦ inl e
      | inl (inr l) ↦ elim l [ ]
      | inr (inl e, kept) ↦ inr (inl e)
      | inr (inr (inl e), kept) ↦ absurd (kept (inl e))
      | inr (inr (inr l), kept) ↦ elim l [ ]
    ],
  );
})

plan-plan_example :
    let p = plan as_stored (new_jobs ∷ some_jobs ∷ []) app_config.spec.publications in
    (p.to_create ≡ []) × (p.to_delete ≡ [])
plan-plan_example =
    plan-plan as_stored as_stored (some_jobs ∷ all_jobs ∷ []) (new_jobs ∷ some_jobs ∷ [])
      app_config.spec.publications as_stored-IsRangeOrders as_stored-IsRangeOrders carried

-- A config that lists one publication, where the API server has another one.
abbrev small_config : PostgresConfig
small_config = record app_config {
  spec = record (app_config.spec) { publications = wanted "some_jobs" ∷ [] };
}

abbrev old_jobs : PostgresPublication
old_jobs = record {
  metadata = record (some_jobs.metadata) { name = "app-old-jobs" };
  spec = record (some_jobs.spec) { name = "old_jobs" };
}

abbrev keeping : World
keeping = record calm {
  config_at = λ h key. ok small_config;
  publications_of = λ h owner namespace. ok (old_jobs ∷ []);
}

SmallNames : String → Type 0
SmallNames n = Listed n (names (old_jobs ∷ [])) ⊎ Listed n (wanted_names small_config)

SmallNames-cases : (n : String) → SmallNames n → (n ≡ "old_jobs") ⊎ (n ≡ "some_jobs")
unfolding SmallNames
SmallNames-cases n (inl (inl e)) = inl e
SmallNames-cases n (inl (inr l)) = elim l [ ]
SmallNames-cases n (inr (inl e)) = inr e
SmallNames-cases n (inr (inr l)) = elim l [ ]

apart_old_new : ¬ (resource_name_of "app" "old_jobs" ≡ resource_name_of "app" "some_jobs")
unfolding replace_all
apart_old_new e = cc

SmallNames-IsApart : IsApart "app" SmallNames
SmallNames-IsApart m n im in_ e = elim (SmallNames-cases m im) [
  | inl em ↦ elim (SmallNames-cases n in_) [
    | inl en ↦ em ∙ sym en
    | inr en ↦ absurd (apart_old_new (rw (em, en) at e))
  ]
  | inr em ↦ elim (SmallNames-cases n in_) [
    | inl en ↦ absurd (apart_old_new (sym (rw (em, en) at e)))
    | inr en ↦ em ∙ sym en
  ]
]

old_jobs_named : All (λ p. resource_name p ≡ resource_name_of "app" (spec_name p)) (old_jobs ∷ [])
unfolding replace_all
old_jobs_named = (refl, tt)

reconcile_request-HasWanted_example :
    Post
      (λ _. HasWanted keeping (old_jobs ∷ []) small_config)
      (KeepsWanted keeping (old_jobs ∷ []) small_config (old_jobs ∷ []))
      (reconcile_request keeping as_stored (at "app") [])
unfolding SmallNames
reconcile_request-HasWanted_example =
    reconcile_request-HasWanted keeping (old_jobs ∷ []) small_config as_stored (at "app") []
      as_stored-IsRangeOrders refl refl old_jobs_named SmallNames-IsApart

-- What the store holds then
settled :
    names
      (stored keeping (old_jobs ∷ []) (history (reconcile_request keeping as_stored (at "app") [])))
    ≡ "some_jobs" ∷ []
unfolding reconcile_request
settled = refl
