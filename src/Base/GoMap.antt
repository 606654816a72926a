-- ===== src/Base/GoMap.antt =====
-- A Go map with text keys, as an association list that holds each key once.
use mathlib.Core.Path.{◌≡◌, refl, sym, ap, subst, ◌∙◌}
use mathlib.Core.Logic.{◌⊎◌, inl, inr, ◌↔◌, ◌≢◌}
use mathlib.Core.Option.{Option, none, some}
use mathlib.Core.List.{List, [], ◌∷◌}
use Prim.Native.String.{String}
use native.Mathlib.Omega.{arith}
use text.Mathlib.Text.{◌==◌}
use text.Mathlib.TextEquality.{eq_iff}
use postgres_config_operator.Base.Tests.{if◌then◌else◌, Bool-cases}
use postgres_config_operator.Base.Lists.{All, Distinct, Listed, All-of_Listed, at_Listed}

abbrev pub GoMap : Type 0 → Type 0
GoMap V = List (String × V)

module _ {V : Type 0} where
  abbrev pub keys : GoMap V → List String
  keys [] = []
  keys ((k, v) ∷ m) = k ∷ keys m

  -- `v, ok := m[k]`
  unfoldable pub lookup : String → GoMap V → Option V
  lookup k [] = none
  lookup k ((j, v) ∷ m) = if j == k then some v else lookup k m

  -- `m[k] = v`
  unfoldable pub insert : String → V → GoMap V → GoMap V
  insert k v [] = (k, v) ∷ []
  insert k v ((j, w) ∷ m) = if j == k then (k, v) ∷ m else (j, w) ∷ insert k v m

  Listed-keys-insert :
      (k j : String) (v : V) (m : GoMap V)
      → Listed j (keys (insert k v m))
      → (j ≡ k) ⊎ Listed j (keys m)
  unfolding insert
  Listed-keys-insert k j v [] h = h
  Listed-keys-insert k j v ((i, w) ∷ m) h = ground (arith, Listed-keys-insert k j v m)

  Listed-keys-insert_new : (k : String) (v : V) (m : GoMap V) → Listed k (keys (insert k v m))
  unfolding insert
  Listed-keys-insert_new k v [] = inl refl
  Listed-keys-insert_new k v ((i, w) ∷ m) = ground (arith, Listed-keys-insert_new k v m)

  Listed-keys-insert_old :
      (k j : String) (v : V) (m : GoMap V) → Listed j (keys m) → Listed j (keys (insert k v m))
  unfolding insert
  Listed-keys-insert_old k j v [] h = elim h [ ]
  Listed-keys-insert_old k j v ((i, w) ∷ m) h =
      ground (arith, Listed-keys-insert_old k j v m, eq_iff i k)

  pub Listed-keys-insert_iff :
      (k j : String) (v : V) (m : GoMap V)
      → Listed j (keys (insert k v m)) ↔ ((j ≡ k) ⊎ Listed j (keys m))
  Listed-keys-insert_iff k j v m = (
    Listed-keys-insert k j v m,
    elim [
      | inl e ↦ subst (λ x. Listed x (keys (insert k v m))) (sym e) (Listed-keys-insert_new k v m)
      | inr l ↦ Listed-keys-insert_old k j v m l
    ],
  )

  -- Every value stands under the name that it carries.
  abbrev pub IsNamed : (V → String) → GoMap V → Type 0
  IsNamed name m = All (λ e. name e.1 ≡ e.0) m

  pub insert-IsNamed :
      (name : V → String) (v : V) (m : GoMap V)
      → IsNamed name m
      → IsNamed name (insert (name v) v m)
  unfolding insert
  insert-IsNamed name v [] h = (refl, tt)
  insert-IsNamed name v ((i, w) ∷ m) h = elim (Bool-cases (i == name v)) [
    | inl same ↦ rw same (refl, h.1)
    | inr other ↦ rw other (h.0, insert-IsNamed name v m h.1)
  ]

  pub lookup-IsNamed :
      (name : V → String) (k : String) (v : V) (m : GoMap V)
      → IsNamed name m
      → lookup k m ≡ some v
      → name v ≡ k
  unfolding lookup
  lookup-IsNamed name k v [] h e = cc
  lookup-IsNamed name k v ((i, w) ∷ m) h e =
      ground (arith, eq_iff i k, h.0, lookup-IsNamed name k v m h.1)

  pub lookup-none_iff : (k : String) (m : GoMap V) → (lookup k m ≡ none) ↔ (¬ Listed k (keys m))
  unfolding lookup
  lookup-none_iff k [] = (λ _ l. l, λ _. refl)
  lookup-none_iff k ((i, w) ∷ m) = ground (arith, eq_iff i k, lookup-none_iff k m)

  pub lookup-ne-none_iff : (k : String) (m : GoMap V) → (lookup k m ≢ none) ↔ Listed k (keys m)
  unfolding lookup
  lookup-ne-none_iff k [] = (λ f. f refl, λ l. elim l [ ])
  lookup-ne-none_iff k ((i, w) ∷ m) = ground (arith, eq_iff i k, lookup-ne-none_iff k m)

  pub Listed-keys_of_Listed :
      (k : String) (v : V) (m : GoMap V) → Listed (k, v) m → Listed k (keys m)
  Listed-keys_of_Listed k v [] h = h
  Listed-keys_of_Listed k v ((i, w) ∷ m) (inl e) = inl (ap (λ (t : String × V). t.0) e)
  Listed-keys_of_Listed k v ((i, w) ∷ m) (inr l) = inr (Listed-keys_of_Listed k v m l)

  pub entry_of_key : (k : String) (m : GoMap V) → Listed k (keys m) → (v : V) × Listed (k, v) m
  entry_of_key k [] h = elim h [ ]
  entry_of_key k ((i, w) ∷ m) (inl e) = (w, inl (ap (λ (x : String). (x, w)) e))
  entry_of_key k ((i, w) ∷ m) (inr l) = let (v, there) = entry_of_key k m l in (v, inr there)

  pub insert-Distinct :
      (k : String) (v : V) (m : GoMap V) → Distinct (keys m) → Distinct (keys (insert k v m))
  unfolding insert
  insert-Distinct k v [] d = (tt, tt)
  insert-Distinct k v ((i, w) ∷ m) d = elim (Bool-cases (i == k)) [
    | inl same ↦ rw same (rw (← (eq_iff i k).0 same) d)
    | inr other ↦ rw other (
      All-of_Listed (λ j. i ≢ j) (keys (insert k v m))
          (λ j l. elim ((Listed-keys-insert_iff k j v m).0 l) [
            | inl e ↦ λ f. absurd (cc ((eq_iff i k).1 (f ∙ e)))
            | inr there ↦ at_Listed (λ x. i ≢ x) j (keys m) d.0 there
          ]),
      insert-Distinct k v m d.1,
    )
  ]

-- An order in which `range` may visit a map: every entry, each key once.
pub record IsRangeOrder {V : Type 0} (m visited : GoMap V) : Type 0 where
  pub visits : (k : String) (v : V) → Listed (k, v) visited ↔ Listed (k, v) m
  pub once : Distinct (keys visited)

module _ {V : Type 0} {m visited : GoMap V} (order : IsRangeOrder m visited) where
  pub visited_key_iff : (k : String) → Listed k (keys visited) ↔ Listed k (keys m)
  visited_key_iff k = (
    λ l.
        let (v, there) = entry_of_key k visited l in
        Listed-keys_of_Listed k v m ((order.visits k v).0 there),
    λ l.
        let (v, there) = entry_of_key k m l in
        Listed-keys_of_Listed k v visited ((order.visits k v).1 there),
  )

  pub visited-IsNamed : (name : V → String) → IsNamed name m → IsNamed name visited
  visited-IsNamed name h =
      All-of_Listed (λ e. name e.1 ≡ e.0) visited
        (λ e l. at_Listed (λ e'. name e'.1 ≡ e'.0) e m h ((order.visits e.0 e.1).0 l))
