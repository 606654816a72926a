-- ===== src/Config/Members.antt =====
-- The publications that a plan updates or deletes are among those that there are.
use postgres_config_operator.Base.{
  String, some, List, [], ◌∷◌, ◌≡◌, subst, ◌==◌, inl, inr, Listed, All, All-of_Listed, at_Listed,
  Bool-cases, Option-cases,
}
use postgres_config_operator.Base.GoMap.{GoMap, insert, lookup}
use postgres_config_operator.Api.{PostgresPublication, Publication}
use postgres_config_operator.Config.{
  Orders, by_name, delete_one, plan, plan_delete, plan_desired, plan_one, spec_name, desired_name,
}
use postgres_config_operator.Config.Planning.{IsRangeOrders, by_name-Distinct}

found_value : {V : Type 0} (q p : V) → some q ≡ some p → q ≡ p
found_value q p e = cc

module _ {V : Type 0} (P : V → Type 0) where
  abbrev Values : GoMap V → Type 0
  Values m = All (λ e. P e.1) m

  insert-Values : (k : String) (p : V) (m : GoMap V) → P p → Values m → Values (insert k p m)
  unfolding insert
  insert-Values k p [] h a = (h, tt)
  insert-Values k p ((j, q) ∷ m) h a = elim (Bool-cases (j == k)) [
    | inl same ↦ rw same (h, a.1)
    | inr other ↦ rw other (a.0, insert-Values k p m h a.1)
  ]

  by_name-Values :
      (name : V → String) (ps : List V) (m : GoMap V)
      → All P ps
      → Values m
      → Values (by_name name ps m)
  unfolding by_name
  by_name-Values name [] m h a = a
  by_name-Values name (p ∷ ps) m h a =
      by_name-Values name ps (insert (name p) p m) h.1 (insert-Values (name p) p m h.0 a)

  lookup-Values : (k : String) (p : V) (m : GoMap V) → Values m → lookup k m ≡ some p → P p
  unfolding lookup
  lookup-Values k p [] a e = cc
  lookup-Values k p ((j, q) ∷ m) a e = elim (Bool-cases (j == k)) [
    | inl same ↦ subst P (found_value q p (rw same at e)) a.0
    | inr other ↦ lookup-Values k p m a.1 (rw other at e)
  ]

  -- The entries that `range` visits are those of the map.
  visited-Values :
      (m m' : GoMap V)
      → ((k : String) (v : V) → Listed (k, v) m' → Listed (k, v) m)
      → Values m
      → Values m'
  visited-Values m m' visits values =
      All-of_Listed (λ e. P e.1) m' (λ e l. at_Listed (λ e'. P e'.1) e m values (visits e.0 e.1 l))

module _ (P : PostgresPublication → Type 0) where
  plan_desired-Values :
      (current : GoMap PostgresPublication) (visited : GoMap Publication)
      → Values P current
      → All P (plan_desired current visited).to_update_current
  unfolding plan_desired plan_one
  plan_desired-Values current [] a = tt
  plan_desired-Values current ((k, p) ∷ visited) a = elim (Option-cases (lookup k current)) [
    | inl absent ↦ rw absent (plan_desired-Values current visited a)
    | inr (c, there) ↦
        rw there (lookup-Values P k c current a there, plan_desired-Values current visited a)
  ]

  plan_delete-Values :
      (desired : GoMap Publication) (visited : GoMap PostgresPublication)
      → Values P visited
      → All P (plan_delete desired visited)
  unfolding plan_delete delete_one
  plan_delete-Values desired [] a = tt
  plan_delete-Values desired ((k, p) ∷ visited) a = elim (Option-cases (lookup k desired)) [
    | inl absent ↦ rw absent (a.0, plan_delete-Values desired visited a.1)
    | inr (c, there) ↦ rw there (plan_delete-Values desired visited a.1)
  ]

  -- What holds of all publications there are holds of those that the plan updates and deletes.
  pub plan-All :
      (orders : Orders) (current : List PostgresPublication) (desired : List Publication)
      → IsRangeOrders orders
      → All P current
      → All P (plan orders current desired).to_update_current
        × All P (plan orders current desired).to_delete
  unfolding plan
  plan-All orders current desired complete a =
      let m = by_name spec_name current [] in
      let values = by_name-Values P spec_name current [] a tt in
      let visits = complete.current_complete m (by_name-Distinct spec_name current [] tt) in
      (
        plan_desired-Values m _ values,
        plan_delete-Values _ (orders.current_order m)
            (visited-Values P m (orders.current_order m) (λ k v. (visits.visits k v).0) values),
      )

module _ (P : Publication → Type 0) where
  plan_desired-Listed :
      (current : GoMap PostgresPublication) (visited : GoMap Publication)
      → Values P visited
      → All P (plan_desired current visited).to_create
        × All P (plan_desired current visited).to_update_desired
  unfolding plan_desired plan_one
  plan_desired-Listed current [] a = (tt, tt)
  plan_desired-Listed current ((k, p) ∷ visited) a =
      let rest = plan_desired-Listed current visited a.1 in
      elim (Option-cases (lookup k current)) [
        | inl absent ↦ rw absent ((a.0, rest.0), rest.1)
        | inr (c, there) ↦ rw there (rest.0, (a.0, rest.1))
      ]

  -- What holds of all publications that are listed holds of those that the plan creates, and of
  -- those by which it updates.
  pub plan-Wanted :
      (orders : Orders) (current : List PostgresPublication) (desired : List Publication)
      → IsRangeOrders orders
      → All P desired
      → All P (plan orders current desired).to_create
        × All P (plan orders current desired).to_update_desired
  unfolding plan
  plan-Wanted orders current desired complete a =
      let m = by_name desired_name desired [] in
      let values = by_name-Values P desired_name desired [] a tt in
      let visits = complete.desired_complete m (by_name-Distinct desired_name desired [] tt) in
      plan_desired-Listed (by_name spec_name current []) (orders.desired_order m)
        (visited-Values P m (orders.desired_order m) (λ k v. (visits.visits k v).0) values)
