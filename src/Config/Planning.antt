-- ===== src/Config/Planning.antt =====
-- What `Reconcile` of a PostgresConfig plans: the differences between the publications there are and
-- those that the config lists, compared by name.
use postgres_config_operator.Base.{
  String, none, List, [], ◌∷◌, ◌≡◌, refl, sym, ap₂, ◌∙◌, ◌↔◌, ◌⊎◌, inl, inr, map, Listed, Distinct,
  Option-cases, ◌≢◌, arith, All-of_Listed, at_Listed,
}
use postgres_config_operator.Base.GoMap.{
  GoMap, keys, lookup, insert, IsNamed, IsRangeOrder, insert-IsNamed, lookup-IsNamed,
  lookup-none_iff, lookup-ne-none_iff, Listed-keys-insert_iff, insert-Distinct, visited_key_iff,
  visited-IsNamed,
}
use postgres_config_operator.Api.{PostgresPublication, Publication}
use postgres_config_operator.Config.{
  Orders, Plan, by_name, spec_name, desired_name, plan_one, plan_desired, delete_one, plan_delete,
  plan,
}

module _ {V : Type 0} (name : V → String) where
  by_name-IsNamed : (ps : List V) (m : GoMap V) → IsNamed name m → IsNamed name (by_name name ps m)
  unfolding by_name
  by_name-IsNamed [] m h = h
  by_name-IsNamed (p ∷ ps) m h =
      by_name-IsNamed ps (insert (name p) p m) (insert-IsNamed name p m h)

  pub by_name-Distinct :
      (ps : List V) (m : GoMap V) → Distinct (keys m) → Distinct (keys (by_name name ps m))
  unfolding by_name
  by_name-Distinct [] m d = d
  by_name-Distinct (p ∷ ps) m d =
      by_name-Distinct ps (insert (name p) p m) (insert-Distinct (name p) p m d)

  keys-by_name_onto :
      (n : String) (ps : List V) (m : GoMap V)
      → Listed n (keys (by_name name ps m)) ↔ (Listed n (map name ps) ⊎ Listed n (keys m))
  unfolding by_name
  keys-by_name_onto n [] m = (inr, elim [ inl l ↦ elim l [ ] | inr l ↦ l ])
  keys-by_name_onto n (p ∷ ps) m =
      let rest = keys-by_name_onto n ps (insert (name p) p m) in
      let here = Listed-keys-insert_iff (name p) n p m in ground (arith, rest, here)

  keys-by_name :
      (n : String) (ps : List V) → Listed n (keys (by_name name ps [])) ↔ Listed n (map name ps)
  keys-by_name n ps = (
    λ l. elim ((keys-by_name_onto n ps []).0 l) [ inl h ↦ h | inr h ↦ elim h [ ] ],
    λ l. (keys-by_name_onto n ps []).1 (inl l),
  )

module _ (current : GoMap PostgresPublication) where
  -- A name is to be created if it is visited and there is no such publication.
  created_names :
      (n : String) (visited : GoMap Publication)
      → IsNamed desired_name visited
      → Listed n (map desired_name (plan_desired current visited).to_create)
        ↔ (Listed n (keys visited) × (lookup n current ≡ none))
  unfolding plan_desired plan_one
  created_names n [] h = (λ l. elim l [ ], λ p. elim p.0 [ ])
  created_names n ((k, p) ∷ visited) h = elim (Option-cases (lookup k current)) [
    | inl absent ↦ rw absent (ground (arith, created_names n visited h.1))
    | inr (c, there) ↦ rw there (ground (arith, created_names n visited h.1))
  ]

  -- A name is to be updated if it is visited and there is such a publication.
  updated_names :
      (n : String) (visited : GoMap Publication)
      → IsNamed desired_name visited
      → Listed n (map desired_name (plan_desired current visited).to_update_desired)
        ↔ (Listed n (keys visited) × (lookup n current ≢ none))
  unfolding plan_desired plan_one
  updated_names n [] h = (λ l. elim l [ ], λ p. elim p.0 [ ])
  updated_names n ((k, p) ∷ visited) h = elim (Option-cases (lookup k current)) [
    | inl absent ↦ rw absent (ground (arith, updated_names n visited h.1))
    | inr (c, there) ↦ rw there (ground (arith, updated_names n visited h.1))
  ]

  -- The two lists of publications to update name the same publications, index by index.
  aligned_names :
      (visited : GoMap Publication)
      → IsNamed desired_name visited
      → IsNamed spec_name current
      → map spec_name (plan_desired current visited).to_update_current
        ≡ map desired_name (plan_desired current visited).to_update_desired
  unfolding plan_desired plan_one
  aligned_names [] h c = refl
  aligned_names ((k, p) ∷ visited) h c = elim (Option-cases (lookup k current)) [
    | inl absent ↦ rw absent (aligned_names visited h.1 c)
    | inr (q, there) ↦ rw there (
        ap₂ ◌∷◌ (lookup-IsNamed spec_name k q current c there ∙ sym h.0)
          (aligned_names visited h.1 c))
  ]

  -- The values of the visited entries are split between the two lists.
  created_Distinct :
      (visited : GoMap Publication)
      → IsNamed desired_name visited
      → Distinct (keys visited)
      → Distinct (map desired_name (plan_desired current visited).to_create)
  unfolding plan_desired plan_one
  created_Distinct [] h d = tt
  created_Distinct ((k, p) ∷ visited) h d = elim (Option-cases (lookup k current)) [
    | inl absent ↦ rw absent (
      All-of_Listed (λ j. desired_name p ≢ j) _
          (λ j l e.
            at_Listed (λ x. k ≢ x) j (keys visited) d.0 ((created_names j visited h.1).0 l).0
              (sym h.0 ∙ e)),
      created_Distinct visited h.1 d.1,
    )
    | inr (q, there) ↦ rw there (created_Distinct visited h.1 d.1)
  ]

deleted_names :
    (desired : GoMap Publication) (n : String) (visited : GoMap PostgresPublication)
    → IsNamed spec_name visited
    → Listed n (map spec_name (plan_delete desired visited))
      ↔ (Listed n (keys visited) × (lookup n desired ≡ none))
unfolding plan_delete delete_one
deleted_names desired n [] h = (λ l. elim l [ ], λ p. elim p.0 [ ])
deleted_names desired n ((k, p) ∷ visited) h = elim (Option-cases (lookup k desired)) [
  | inl absent ↦ rw absent (ground (arith, deleted_names desired n visited h.1))
  | inr (c, there) ↦ rw there (ground (arith, deleted_names desired n visited h.1))
]

-- The orders visit each map that they are given completely.
pub record IsRangeOrders (orders : Orders) : Type 0 where
  pub desired_complete :
      (m : GoMap Publication) → Distinct (keys m) → IsRangeOrder m (orders.desired_order m)
  pub current_complete :
      (m : GoMap PostgresPublication) → Distinct (keys m) → IsRangeOrder m (orders.current_order m)

-- What a plan does, in terms of the names in the two lists that it compares.
pub record IsDiff (current : List PostgresPublication) (desired : List Publication) (p : Plan)
    : Type 0 where
  -- what is to be created is desired and not there
  pub creates :
      (n : String)
      → Listed n (map desired_name p.to_create)
        ↔ (Listed n (map desired_name desired) × (¬ Listed n (map spec_name current)))
  -- what is to be updated is desired and there
  pub updates :
      (n : String)
      → Listed n (map desired_name p.to_update_desired)
        ↔ (Listed n (map desired_name desired) × Listed n (map spec_name current))
  -- what is to be deleted is there and not desired
  pub deletes :
      (n : String)
      → Listed n (map spec_name p.to_delete)
        ↔ (Listed n (map spec_name current) × (¬ Listed n (map desired_name desired)))
  -- the two lists of updates agree index by index
  pub aligned : map spec_name p.to_update_current ≡ map desired_name p.to_update_desired
  -- nothing is created twice
  pub once : Distinct (map desired_name p.to_create)

module _ (orders : Orders) (complete : IsRangeOrders orders) (current : List PostgresPublication)
    (desired : List Publication) where
  current_map : GoMap PostgresPublication
  current_map = by_name spec_name current []

  desired_map : GoMap Publication
  desired_map = by_name desired_name desired []

  current-IsNamed : IsNamed spec_name current_map
  unfolding current_map
  current-IsNamed = by_name-IsNamed spec_name current [] tt

  desired-IsNamed : IsNamed desired_name desired_map
  unfolding desired_map
  desired-IsNamed = by_name-IsNamed desired_name desired [] tt

  desired_visits : IsRangeOrder desired_map (orders.desired_order desired_map)
  unfolding desired_map
  desired_visits = complete.desired_complete _ (by_name-Distinct desired_name desired [] tt)

  current_visits : IsRangeOrder current_map (orders.current_order current_map)
  unfolding current_map
  current_visits = complete.current_complete _ (by_name-Distinct spec_name current [] tt)

  desired_visited : IsNamed desired_name (orders.desired_order desired_map)
  desired_visited = visited-IsNamed desired_visits desired_name desired-IsNamed

  current_visited : IsNamed spec_name (orders.current_order current_map)
  current_visited = visited-IsNamed current_visits spec_name current-IsNamed

  desired_keys :
      (n : String)
      → Listed n (keys (orders.desired_order desired_map)) ↔ Listed n (map desired_name desired)
  unfolding desired_map
  desired_keys n =
      let visit = visited_key_iff desired_visits n in
      let named = keys-by_name desired_name n desired in
      (λ l. named.0 (visit.0 l), λ l. visit.1 (named.1 l))

  current_keys :
      (n : String)
      → Listed n (keys (orders.current_order current_map)) ↔ Listed n (map spec_name current)
  unfolding current_map
  current_keys n =
      let visit = visited_key_iff current_visits n in
      let named = keys-by_name spec_name n current in
      (λ l. named.0 (visit.0 l), λ l. visit.1 (named.1 l))

  absent_iff : (n : String) → (lookup n current_map ≡ none) ↔ (¬ Listed n (map spec_name current))
  unfolding current_map
  absent_iff n =
      let named = keys-by_name spec_name n current in
      let found = lookup-none_iff n (by_name spec_name current []) in
      (λ e l. found.0 e (named.1 l), λ f. found.1 (λ l. f (named.0 l)))

  present_iff : (n : String) → (lookup n current_map ≢ none) ↔ Listed n (map spec_name current)
  unfolding current_map
  present_iff n =
      let named = keys-by_name spec_name n current in
      let found = lookup-ne-none_iff n (by_name spec_name current []) in
      (λ e. named.0 (found.0 e), λ l. found.1 (named.1 l))

  unwanted_iff :
      (n : String) → (lookup n desired_map ≡ none) ↔ (¬ Listed n (map desired_name desired))
  unfolding desired_map
  unwanted_iff n =
      let named = keys-by_name desired_name n desired in
      let found = lookup-none_iff n (by_name desired_name desired []) in
      (λ e l. found.0 e (named.1 l), λ f. found.1 (λ l. f (named.0 l)))

  -- Whatever the orders in which Go visits the two maps, the plan is the difference of the two lists
  -- by name: it creates, once each, what is desired and not there, updates what is both, deletes what
  -- is there and not desired, and pairs each update with the publication of the same name.
  pub plan-IsDiff : IsDiff current desired (plan orders current desired)
  unfolding plan current_map desired_map
  plan-IsDiff =
      let vd = orders.desired_order desired_map in
      let vc = orders.current_order current_map in
      record {
        creates = λ n.
            let c = created_names current_map n vd desired_visited in
            (
              λ l. ((desired_keys n).0 (c.0 l).0, (absent_iff n).0 (c.0 l).1),
              λ p. c.1 ((desired_keys n).1 p.0, (absent_iff n).1 p.1),
            );
        updates = λ n.
            let c = updated_names current_map n vd desired_visited in
            (
              λ l. ((desired_keys n).0 (c.0 l).0, (present_iff n).0 (c.0 l).1),
              λ p. c.1 ((desired_keys n).1 p.0, (present_iff n).1 p.1),
            );
        deletes = λ n.
            let c = deleted_names desired_map n vc current_visited in
            (
              λ l. ((current_keys n).0 (c.0 l).0, (unwanted_iff n).0 (c.0 l).1),
              λ p. c.1 ((current_keys n).1 p.0, (unwanted_iff n).1 p.1),
            );
        aligned = aligned_names current_map vd desired_visited current-IsNamed;
        once = created_Distinct current_map vd desired_visited desired_visits.once;
      }
