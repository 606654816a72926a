-- ===== src/Base/Text.antt =====
-- Text: the functions of Go's `strings` that the program calls, and membership in a list of texts.
use Prim.Native.Nat.{ℕ}
use Prim.Native.Char.{Char, code}
use Prim.Native.String
use Prim.Native.String.{String, ◌++◌ as ◌<>◌}
use mathlib.Core.Path.{◌≡◌, refl, sym, ap}
use mathlib.Core.Logic.{inl, inr, ◌↔◌, ite}
use mathlib.Core.Bool.{Bool, true, false, ◌||◌}
use mathlib.Core.List.{List, [], ◌∷◌, ◌++◌}
use native.Mathlib.Decide.{ℕ_discrete}
use native.Mathlib.Omega.{arith}
use text.Mathlib.Text.{◌==◌}
use text.Mathlib.TextEquality.{eq_iff}
use postgres_config_operator.Base.Tests.{if◌then◌else◌, Bool-cases}
use postgres_config_operator.Base.Lists.{Listed}

-- `strings.Join(parts, sep)`
unfoldable pub join : String → List String → String
join sep [] = ""
join sep (s ∷ []) = s
join sep (s ∷ t ∷ rest) = s <> sep <> join sep (t ∷ rest)

-- `strings.ReplaceAll(s, old, new)` where `old` and `new` are one character each.
unfoldable pub replace_all : String → Char → Char → String
unfolding ℕ_discrete
replace_all String.[] old new = ""
replace_all (String.◌∷◌ c s) old new =
    String.◌∷◌ (ite (ℕ_discrete (code c) (code old)) new c) (replace_all s old new)

-- The bytes of a text, where each character stands for a byte.
unfoldable pub bytes : String → List ℕ
bytes String.[] = []
bytes (String.◌∷◌ c s) = code c ∷ bytes s

pub bytes-append : (s t : String) → bytes (s <> t) ≡ bytes s ++ bytes t
unfolding bytes
bytes-append String.[] t = rw (String.append.nil t)
bytes-append (String.◌∷◌ c s) t =
    rw (String.append.cons c s t) (ap (λ r. code c ∷ r) (bytes-append s t))

unfoldable pub contains : List String → String → Bool
contains [] s = false
contains (x ∷ xs) s = if x == s then true else contains xs s

pub eq_of_== : (s t : String) → (s == t) ≡ true → s ≡ t
eq_of_== s t h = (eq_iff s t).0 h

pub ==_of_eq : (s t : String) → s ≡ t → (s == t) ≡ true
==_of_eq s t h = (eq_iff s t).1 h

pub contains_iff : (xs : List String) (s : String) → (contains xs s ≡ true) ↔ Listed s xs
unfolding contains
contains_iff [] s = (λ h. cc, λ h. elim h [ ])
contains_iff (x ∷ xs) s = elim (Bool-cases (x == s)) [
  | inl same ↦ (λ _. inl (sym (eq_of_== x s same)), λ _. rw same)
  | inr other ↦ rw other (
    λ h. inr ((contains_iff xs s).0 h),
    elim [ inl e ↦ absurd (cc (==_of_eq x s (sym e))) | inr l ↦ (contains_iff xs s).1 l ],
  )
]

pub Listed-of_contains : (xs : List String) (s : String) → contains xs s ≡ true → Listed s xs
Listed-of_contains xs s h = (contains_iff xs s).0 h

pub contains_of_Listed : (xs : List String) (s : String) → Listed s xs → contains xs s ≡ true
contains_of_Listed xs s h = (contains_iff xs s).1 h

pub contains-append :
    (xs ys : List String) (s : String) → contains (xs ++ ys) s ≡ (contains xs s || contains ys s)
unfolding contains
contains-append [] ys s = refl
contains-append (x ∷ xs) ys s = ground (arith, contains-append xs ys s)
