-- ===== src/DeepCopy/Pointers.antt =====
-- `DeepCopy` of a pointer, for a target that is copied right.
use mathlib.Core.Option
use postgres_config_operator.Base.{
  ℕ, ◌≤◌, Option, none, some, [], ◌∷◌, ◌≡◌, inl, inr, sym, ap, ◌∙◌, arith, length,
}
use postgres_config_operator.DeepCopy.Parts.{deep_copy}
use postgres_config_operator.DeepCopy.Memory.{
  Library, Heap, Kind, M, and_then, ◌>>=◌, array_at, one_of_array, deref, target, Pointer,
  nil_pointer, element,
}
use postgres_config_operator.DeepCopy.Gives.{Keeps, Result, Gives, return-Gives, bind-Gives}
use postgres_config_operator.DeepCopy.Copier.{Relation, IsCopier, array-stable, alloc-Gives}

module _ {lib : Library} where
  -- The pointer is not nil, and its target stands for `v`.
  pub record HoldsTarget {T V : Type 0} (k : Kind lib T) (R : Relation lib T V) (lo : ℕ)
      (h : Heap lib) (a i : ℕ) (v : V) : Type 0 where
    pub value : T
    pub from : lo ≤ a
    pub there : target k (element a i) h ≡ some value
    pub holds : R lo h value v

  -- A nil pointer stands for `none`.
  abbrev pub HoldsPointer :
      {T V : Type 0} → Kind lib T → Relation lib T V → ℕ → Heap lib → Pointer → Option V → Type 0
  HoldsPointer k R lo h nil_pointer none = Unit
  HoldsPointer k R lo h (element a i) (some v) = HoldsTarget k R lo h a i v
  HoldsPointer k R lo h _ _ = ⊥

  module _ {T V : Type 0} {R : Relation lib T V} {copy : T → M lib T} (copier : IsCopier R copy)
      (k : Kind lib T) where
    target-stable :
        (lo a i : ℕ) (h h' : Heap lib) (x : T)
        → Keeps lo h h'
        → lo ≤ a
        → target k (element a i) h ≡ some x
        → target k (element a i) h' ≡ some x
    unfolding target
    target-stable lo a i h h' x keeps l e = elim (array-stable k lo a h h' keeps l) [
      | inl gone ↦ absurd (cc (sym (ap (one_of_array k i) gone) ∙ e))
      | inr same ↦ ap (one_of_array k i) same ∙ e
    ]

    deref-Gives :
        {B : Type 0} {base : Heap lib} {x : T} {Q : Heap lib → B → Type 0} (a i : ℕ)
        (f : T → M lib B)
        → target k (element a i) base ≡ some x
        → Gives base (f x) Q
        → Gives base (deref k (element a i) >>= f) Q
    unfolding deref
    deref-Gives {B} {base} {x} {Q} a i f there rest h e =
        let s : Result (f x) Q h = rest h e in
        record {
          value = s.value;
          after = s.after;
          runs =
              ap (λ r. and_then f (Option.map (λ y. (y, h)) r))
                (target-stable 0 a i base h x e.keeps (omega arith) there)
              ∙ s.runs;
          extends = s.extends;
          holds = s.holds;
        }

    new-target :
        (b : ℕ) (h : Heap lib) (y : T)
        → array_at k b h ≡ some (y ∷ [])
        → target k (element b 0) h ≡ some y
    unfolding target
    new-target b h y e = ap (one_of_array k 0) e

    HoldsPointer-stable :
        (lo : ℕ) (h h' : Heap lib) (p : Pointer) (v : Option V)
        → Keeps lo h h'
        → HoldsPointer k R lo h p v
        → HoldsPointer k R lo h' p v
    HoldsPointer-stable lo h h' nil_pointer none keeps held = held
    HoldsPointer-stable lo h h' nil_pointer (some v) keeps held = held
    HoldsPointer-stable lo h h' (element a i) none keeps held = held
    HoldsPointer-stable lo h h' (element a i) (some v) keeps held = record {
      value = held.value;
      from = held.from;
      there = target-stable lo a i h h' held.value keeps held.from held.there;
      holds = copier.stable lo h h' held.value v keeps held.holds;
    }

    deep_copy-Gives :
        (base : Heap lib) (p : Pointer) (v : Option V)
        → HoldsPointer k R 0 base p v
        → Gives base (deep_copy k copy p) (λ h p'. HoldsPointer k R (length base) h p' v)
    unfolding deep_copy
    deep_copy-Gives base nil_pointer none held = return-Gives base nil_pointer _ (λ h ext. tt)
    deep_copy-Gives base nil_pointer (some v) held = absurd held
    deep_copy-Gives base (element a i) none held = absurd held
    deep_copy-Gives base (element a i) (some v) held = deref-Gives a i _ held.there (
        bind-Gives (copier.copies base held.value v held.holds) (λ y.
          bind-Gives (alloc-Gives k base (y ∷ [])) (λ b.
            return-Gives base (element b 0) _ (λ h ext there copied. record {
              value = y;
              from = there.0;
              there = new-target b h y there.1;
              holds = copied;
            }))))

    pub deep_copy-IsCopier : IsCopier (HoldsPointer k R) (deep_copy k copy)
    deep_copy-IsCopier = record { stable = HoldsPointer-stable; copies = deep_copy-Gives }
