-- ===== src/Base/Lists.antt =====
-- Lists: lengths and positions over the native numbers, and predicates by recursion.
use Prim.Native.Nat.{ℕ, zero, suc, ◌+◌}
use mathlib.Core.Path.{◌≡◌, refl, sym, ap, subst}
use mathlib.Core.Logic.{◌⊎◌, inl, inr, ◌≢◌}
use mathlib.Core.List.{List, [], ◌∷◌, ◌++◌, map}
use mathlib.Core.Option.{Option, none, some}
use native.Mathlib.Omega.{arith}

module _ {ℓ} {A : Type ℓ} where
  abbrev pub length : List A → ℕ
  length [] = 0
  length (x ∷ xs) = suc (length xs)

  abbrev pub get_elem? : List A → ℕ → Option A
  get_elem? [] i = none
  get_elem? (x ∷ xs) zero = some x
  get_elem? (x ∷ xs) (suc i) = get_elem? xs i

  pub length-append : (xs ys : List A) → length (xs ++ ys) ≡ length xs + length ys
  length-append [] ys = omega arith
  length-append (x ∷ xs) ys = omega (arith, length-append xs ys)

module _ {A : Type 0} where
  -- `a` stands in the list.
  abbrev pub Listed : A → List A → Type 0
  Listed a [] = ⊥
  Listed a (x ∷ xs) = (a ≡ x) ⊎ Listed a xs

  pub Listed-append_right : (a : A) (xs ys : List A) → Listed a ys → Listed a (xs ++ ys)
  Listed-append_right a [] ys h = h
  Listed-append_right a (x ∷ xs) ys h = inr (Listed-append_right a xs ys h)

  pub Listed-append_left : (a : A) (xs ys : List A) → Listed a xs → Listed a (xs ++ ys)
  Listed-append_left a [] ys h = elim h [ ]
  Listed-append_left a (x ∷ xs) ys (inl e) = inl e
  Listed-append_left a (x ∷ xs) ys (inr h) = inr (Listed-append_left a xs ys h)

  pub Listed-append_cases :
      (a : A) (xs ys : List A) → Listed a (xs ++ ys) → Listed a xs ⊎ Listed a ys
  Listed-append_cases a [] ys h = inr h
  Listed-append_cases a (x ∷ xs) ys (inl e) = inl (inl e)
  Listed-append_cases a (x ∷ xs) ys (inr h) = elim (Listed-append_cases a xs ys h) [
    | inl l ↦ inl (inr l)
    | inr r ↦ inr r
  ]

-- Every member satisfies the predicate.
abbrev pub All {ℓ κ} : {A : Type ℓ} → (A → Type κ) → List A → Type κ
All P [] = Unit
All P (x ∷ xs) = P x × All P xs

-- No member stands twice.
abbrev pub Distinct {ℓ} : {A : Type ℓ} → List A → Type ℓ
Distinct [] = Unit
Distinct (x ∷ xs) = All (λ y. x ≢ y) xs × Distinct xs

module _ {ℓ κ} {A : Type ℓ} (P : A → Type κ) where
  pub All-append : (xs ys : List A) → All P xs → All P ys → All P (xs ++ ys)
  All-append [] ys hx hy = hy
  All-append (x ∷ xs) ys hx hy = (hx.0, All-append xs ys hx.1 hy)

module _ {κ} {A : Type 0} (P : A → Type κ) where
  pub All-of_Listed : (xs : List A) → ((a : A) → Listed a xs → P a) → All P xs
  All-of_Listed [] h = tt
  All-of_Listed (x ∷ xs) h = (h x (inl refl), All-of_Listed xs (λ a l. h a (inr l)))

  pub at_Listed : (a : A) (xs : List A) → All P xs → Listed a xs → P a
  at_Listed a [] h l = elim l [ ]
  at_Listed a (x ∷ xs) h (inl e) = subst P (sym e) h.0
  at_Listed a (x ∷ xs) h (inr l) = at_Listed a xs h.1 l

module _ {ℓ κ λ'} {A : Type ℓ} {P : A → Type κ} {Q : A → Type λ'} where
  pub All-map : (xs : List A) → ((a : A) → P a → Q a) → All P xs → All Q xs
  All-map [] f h = tt
  All-map (x ∷ xs) f h = (f x h.0, All-map xs f h.1)

module _ {A B : Type 0} (f : A → B) where
  pub Listed-map : (a : A) (xs : List A) → Listed a xs → Listed (f a) (map f xs)
  Listed-map a [] l = l
  Listed-map a (x ∷ xs) (inl e) = inl (ap f e)
  Listed-map a (x ∷ xs) (inr l) = inr (Listed-map a xs l)
