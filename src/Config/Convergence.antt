-- ===== src/Config/Convergence.antt =====
-- What a config plans after its plan was carried out.
use postgres_config_operator.Base.{
  String, List, [], ◌∷◌, ◌≡◌, refl, ◌↔◌, ◌⊎◌, inl, inr, map, Listed, contains, contains_iff,
  Bool-cases,
}
use postgres_config_operator.Api.{PostgresPublication, Publication}
use postgres_config_operator.Config.{Orders, Plan, desired_name, plan, spec_name}
use postgres_config_operator.Config.Planning.{IsDiff, IsRangeOrders, plan-IsDiff}

-- The API server then has what the plan creates, and what it had and the plan does not delete.
pub record IsCarriedOut (p : Plan) (current current' : List PostgresPublication) : Type 0 where
  pub stored :
      (n : String)
      → Listed n (map spec_name current') ↔ (
          Listed n (map desired_name p.to_create)
          ⊎ (Listed n (map spec_name current) × (¬ Listed n (map spec_name p.to_delete))))

nothing-Listed :
    {V : Type 0} (name : V → String) (xs : List V)
    → ((n : String) → ¬ Listed n (map name xs))
    → xs ≡ []
nothing-Listed name [] h = refl
nothing-Listed name (x ∷ xs) h = absurd (h (name x) (inl refl))

module _ (current current' : List PostgresPublication) (desired : List Publication) (p : Plan)
    (diff : IsDiff current desired p) (carried : IsCarriedOut p current current') where
  pub desired_stored :
      (n : String) → Listed n (map desired_name desired) → Listed n (map spec_name current')
  desired_stored n wanted = elim (Bool-cases (contains (map spec_name current) n)) [
    | inl there ↦
        let old = (contains_iff (map spec_name current) n).0 there in
        (carried.stored n).1 (inr (old, λ gone. ((diff.deletes n).0 gone).1 wanted))
    | inr missing ↦ (carried.stored n).1 (
        inl
          ((diff.creates n).1 (wanted, λ old. cc ((contains_iff (map spec_name current) n).1 old))))
  ]

  pub stored_desired :
      (n : String) → Listed n (map spec_name current') → ¬ (¬ Listed n (map desired_name desired))
  stored_desired n there unwanted = elim ((carried.stored n).0 there) [
    | inl new ↦ unwanted ((diff.creates n).0 new).0
    | inr (old, kept) ↦ kept ((diff.deletes n).1 (old, unwanted))
  ]

-- Once a plan is carried out, so that the API server has what the plan creates and what it had and
-- the plan does not delete, the next plan for the same config creates nothing and deletes nothing,
-- in whatever orders Go visits the maps.
pub plan-plan :
    (orders orders' : Orders) (current current' : List PostgresPublication)
    (desired : List Publication)
    → IsRangeOrders orders
    → IsRangeOrders orders'
    → IsCarriedOut (plan orders current desired) current current'
    → ((plan orders' current' desired).to_create ≡ [])
      × ((plan orders' current' desired).to_delete ≡ [])
plan-plan orders orders' current current' desired complete complete' carried =
    let diff = plan-IsDiff orders complete current desired in
    let next = plan-IsDiff orders' complete' current' desired in
    let p = plan orders current desired in
    (
      nothing-Listed desired_name _ (λ n l.
          ((next.creates n).0 l).1
            (desired_stored current current' desired p diff carried n ((next.creates n).0 l).0)),
      nothing-Listed spec_name _ (λ n l.
          stored_desired current current' desired p diff carried n ((next.deletes n).0 l).0
            ((next.deletes n).0 l).1),
    )
