-- ===== src/Config/Apply.antt =====
-- What `Reconcile` of a PostgresConfig sends to the API server.
use mathlib.Core.List.{append_assoc}
use postgres_config_operator.Base.{
  suc, some, List, [], ◌∷◌, ◌++◌, ◌≡◌, refl, ap, map, arith, length, get_elem?, length-append,
}
use postgres_config_operator.Api.{PostgresConfig, PostgresPublication, PostgresRef, Publication}
use postgres_config_operator.Effects.{
  Request, History, create_resource, delete_resource, return, update_resource, wrap,
}
use postgres_config_operator.Effects.Runs.{
  Runs, Ran, wrap-Runs, bind-Runs, then_return-Runs, step-Runs,
}
use postgres_config_operator.Effects.World.{World}
use postgres_config_operator.Config.{
  Orders, Plan, apply_plan, at_index, create_publications, delete_publications, desired_name, plan,
  resource_of, spec_name, update_from, update_publications,
}
use postgres_config_operator.Events.{finished}
use postgres_config_operator.Config.Planning.{IsRangeOrders, plan-IsDiff}

get_elem?-length :
    {A : Type 0} (front : List A) (a : A) (back : List A)
    → get_elem? (front ++ a ∷ back) (length front) ≡ some a
get_elem?-length [] a back = refl
get_elem?-length (x ∷ front) a back = get_elem?-length front a back

pub at_index-length :
    (front : List PostgresPublication) (c : PostgresPublication) (cs : List PostgresPublication)
    → at_index (front ++ c ∷ cs) (length front) ≡ return c
unfolding at_index
at_index-length front c cs = rw (get_elem?-length front c cs, at_index)

pub length_next :
    (front : List PostgresPublication) (c : PostgresPublication)
    → length (front ++ c ∷ []) ≡ suc (length front)
length_next front c = omega (arith, length-append front (c ∷ []))

module _ (w : World) (config : PostgresConfig) (ref : PostgresRef) where
  abbrev pub create_requests : List Publication → List Request
  create_requests [] = []
  create_requests (p ∷ ps) = create_resource (resource_of w config ref p) ∷ create_requests ps

  -- Each update keeps the object that is there, and gives it the spec of the desired publication.
  abbrev pub update_requests : List PostgresPublication → List Publication → List Request
  update_requests (c ∷ cs) (p ∷ ps) =
      update_resource (record c { spec = (resource_of w config ref p).spec })
      ∷ update_requests cs ps
  update_requests _ _ = []

  abbrev pub delete_requests : List PostgresPublication → List Request
  delete_requests [] = []
  delete_requests (p ∷ ps) = delete_resource p ∷ delete_requests ps

  create-Runs :
      (ps : List Publication) → Runs w (create_requests ps) (create_publications w config ps ref)
  unfolding create_publications
  create-Runs [] h = (refl, tt)
  create-Runs (p ∷ ps) h =
      step-Runs w _ (create_requests ps) _ (λ h'. w.created h' (resource_of w config ref p)) _
        (λ _. refl) (λ _. create-Runs ps) h

  delete-Runs :
      (ps : List PostgresPublication) → Runs w (delete_requests ps) (delete_publications w ps)
  unfolding delete_publications
  delete-Runs [] h = (refl, tt)
  delete-Runs (p ∷ ps) h =
      step-Runs w _ (delete_requests ps) _ (λ h'. w.deleted h' p) _ (λ _. refl)
        (λ _. delete-Runs ps) h

  -- The index stays within the list as long as both lists are equally long.
  update_from-Runs :
      (front current : List PostgresPublication) (ps : List Publication)
      → length current ≡ length ps
      → Runs w
          (update_requests current ps)
          (update_from w config (front ++ current) (length front) ps ref)
  unfolding update_from
  update_from-Runs front [] [] e h = (refl, tt)
  update_from-Runs front [] (p ∷ ps) e h = absurd (omega arith)
  update_from-Runs front (c ∷ cs) [] e h = absurd (omega arith)
  update_from-Runs front (c ∷ cs) (p ∷ ps) e h =
      let there : PostgresPublication = record c { spec = (resource_of w config ref p).spec } in
      rw at_index-length (
        step-Runs w (update_resource there) (update_requests cs ps) _ (λ h'. w.updated h' there) _
          (λ _. refl)
          (λ _.
            rw (append_assoc, length_next front c) at
              (update_from-Runs (front ++ c ∷ []) cs ps (omega arith)))
          h)

-- All that a plan sends: the creations, then the updates, then the deletions.
abbrev pub plan_requests : World → PostgresConfig → Plan → List Request
plan_requests w config p =
    create_requests w config config.spec.postgres_ref p.to_create
    ++ (update_requests w config config.spec.postgres_ref p.to_update_current p.to_update_desired
        ++ delete_requests w config config.spec.postgres_ref p.to_delete)

length_of_names :
    (cs : List PostgresPublication) (ps : List Publication)
    → map spec_name cs ≡ map desired_name ps
    → length cs ≡ length ps
length_of_names [] [] e = refl
length_of_names [] (p ∷ ps) e = cc
length_of_names (c ∷ cs) [] e = cc
length_of_names (c ∷ cs) (p ∷ ps) e =
    let rest : map spec_name cs ≡ map desired_name ps = cc in ap suc (length_of_names cs ps rest)

apply_plan-Runs :
    (w : World) (config : PostgresConfig) (p : Plan)
    → length p.to_update_current ≡ length p.to_update_desired
    → Runs w (plan_requests w config p) (apply_plan w config p)
unfolding apply_plan update_publications
apply_plan-Runs w config p e =
    let ref = config.spec.postgres_ref in
    bind-Runs w (create_requests w config ref p.to_create) _ _ _
      (wrap-Runs w (create_requests w config ref p.to_create) _ _
        (create-Runs w config ref p.to_create))
      (λ _.
        bind-Runs w (update_requests w config ref p.to_update_current p.to_update_desired)
          (delete_requests w config ref p.to_delete) _ _
          (wrap-Runs w (update_requests w config ref p.to_update_current p.to_update_desired) _ _
            (update_from-Runs w config ref [] p.to_update_current p.to_update_desired e))
          (λ _.
            then_return-Runs w (delete_requests w config ref p.to_delete)
              (wrap "failed to delete publication resources" (delete_publications w p.to_delete))
              (λ _. finished)
              (wrap-Runs w (delete_requests w config ref p.to_delete) _ _
                (delete-Runs w config ref p.to_delete))))

-- Carrying out the plan for any two lists of publications sends its creations, its updates and its
-- deletions in that order. It succeeds only if all of them were sent and accepted; if it fails, the
-- API server accepted those before one request and refused that one, and nothing was sent behind
-- it. In particular no index is out of range. The orders in which Go visits the maps are complete.
pub apply_plan-plan :
    (w : World) (config : PostgresConfig) (orders : Orders)
    → IsRangeOrders orders
    → (current : List PostgresPublication) (h : History)
    → let p = plan orders current config.spec.publications in
      Ran w (plan_requests w config p) h (apply_plan w config p h)
apply_plan-plan w config orders complete current h =
    let p = plan orders current config.spec.publications in
    let diff = plan-IsDiff orders complete current config.spec.publications in
    apply_plan-Runs w config p
      (length_of_names p.to_update_current p.to_update_desired diff.aligned) h
