-- ===== src/DeepCopy/Copier.antt =====
-- What a value in memory stands for, and the copying of slices.
use mathlib.Core.Option
use postgres_config_operator.Base.{
  ℕ, ◌+◌, ◌≤◌, none, some, List, [], ◌∷◌, ◌++◌, ◌≡◌, ◌⊎◌, inl, inr, refl, sym, ap, ◌∙◌, arith,
  length, get_elem?, Option-cases, if◌then◌else◌, ltb,
}
use postgres_config_operator.DeepCopy.Parts.{copy_value}
use postgres_config_operator.DeepCopy.Memory.{
  Library, Heap, Kind, M, and_then, ◌>>=◌, array_at, elements, windowed, unboxed, load, alloc, take,
  Slice, nil_slice, window,
}
use postgres_config_operator.DeepCopy.Gives.{
  Keeps, Result, Gives, return-Gives, get_elem?-length, snoc-Extends,
}

-- That `t` on the heap stands for `v`, all arrays that belong to it having addresses from `lo` on
abbrev pub Relation : Library → Type 0 → Type 0 → Type 1
Relation lib T V = ℕ → Heap lib → T → V → Type 0

take-length : {A : Type 0} (xs : List A) → take (length xs) xs ≡ xs
take-length [] = refl
take-length (x ∷ xs) = ap (λ ys. x ∷ ys) (take-length xs)

not_longer : {A : Type 0} (n : ℕ) (x y : A) → (if ltb n (0 + n) then x else y) ≡ y
not_longer n x y = ground arith

module _ {lib : Library} where
  abbrev pub IsValue : {T : Type 0} → ℕ → Heap lib → T → T → Type 0
  IsValue lo h t v = t ≡ v

  abbrev pub AllHold : {T V : Type 0} → Relation lib T V → ℕ → Heap lib → List T → List V → Type 0
  AllHold R lo h [] [] = Unit
  AllHold R lo h (x ∷ xs) (v ∷ vs) = R lo h x v × AllHold R lo h xs vs
  AllHold R lo h _ _ = ⊥

  -- The elements of the slice are `xs`.
  abbrev pub Reads : {T : Type 0} → Kind lib T → ℕ → Heap lib → Slice → List T → Type 0
  Reads k lo h nil_slice xs = xs ≡ []
  Reads k lo h (window a o n) xs = (lo ≤ a) × (elements k (window a o n) h ≡ some xs)

  -- A slice that is nil or empty stands for the empty list.
  pub record HoldsSlice {T V : Type 0} (k : Kind lib T) (R : Relation lib T V) (lo : ℕ)
      (h : Heap lib) (s : Slice) (vs : List V) : Type 0 where
    pub items : List T
    pub reads : Reads k lo h s items
    pub each : AllHold R lo h items vs

  pub record IsCopier {T V : Type 0} (R : Relation lib T V) (copy : T → M lib T) : Type 0 where
    pub stable :
        (lo : ℕ) (h h' : Heap lib) (t : T) (v : V) → Keeps lo h h' → R lo h t v → R lo h' t v
    pub copies :
        (base : Heap lib) (t : T) (v : V)
        → R 0 base t v
        → Gives base (copy t) (λ h t'. R (length base) h t' v)

  pub copy_value-IsCopier : {T : Type 0} → IsCopier {T = T} IsValue copy_value
  copy_value-IsCopier = record {
    stable = λ lo h h' t v keeps e. e;
    copies = λ base t v e. return-Gives base t (λ h t'. t' ≡ v) (λ h ext. e);
  }

  module _ {T : Type 0} (k : Kind lib T) where
    pub array-stable :
        (lo a : ℕ) (h h' : Heap lib)
        → Keeps lo h h'
        → lo ≤ a
        → (array_at k a h ≡ none) ⊎ (array_at k a h' ≡ array_at k a h)
    unfolding array_at
    array-stable lo a h h' keeps l = elim (Option-cases (get_elem? h a)) [
      | inl e ↦ inl (ap (unboxed k) e)
      | inr (c, e) ↦ inr (ap (unboxed k) (keeps.at a c l e ∙ sym e))
    ]

    pub Reads-stable :
        (lo : ℕ) (h h' : Heap lib) (s : Slice) (xs : List T)
        → Keeps lo h h'
        → Reads k lo h s xs
        → Reads k lo h' s xs
    unfolding elements
    Reads-stable lo h h' nil_slice xs keeps e = e
    Reads-stable lo h h' (window a o n) xs keeps r = elim (array-stable lo a h h' keeps r.0) [
      | inl gone ↦ absurd (cc (sym (ap (windowed k o n) gone) ∙ r.1))
      | inr same ↦ (r.0, ap (windowed k o n) same ∙ r.1)
    ]

    -- A slice that is read goes on with its elements.
    pub load-Gives :
        {B : Type 0} {base : Heap lib} {xs : List T} {Q : Heap lib → B → Type 0} (a o n : ℕ)
        (f : List T → M lib B)
        → Reads k 0 base (window a o n) xs
        → Gives base (f xs) Q
        → Gives base (load k (window a o n) >>= f) Q
    unfolding load
    load-Gives {B} {base} {xs} {Q} a o n f r rest h e =
        let s : Result (f xs) Q h = rest h e in
        record {
          value = s.value;
          after = s.after;
          runs =
              ap (λ r'. and_then f (Option.map (λ ys. (ys, h)) r'))
                (Reads-stable 0 base h (window a o n) xs e.keeps r).1
              ∙ s.runs;
          extends = s.extends;
          holds = s.holds;
        }

    pub alloc-Gives :
        (base : Heap lib) (ys : List T)
        → Gives base (alloc k ys) (λ h b. (length base ≤ b) × (array_at k b h ≡ some ys))
    unfolding alloc array_at
    alloc-Gives base ys h e = record {
      value = length h;
      after = h ++ (k.box ys ∷ []);
      runs = refl;
      extends = snoc-Extends h (k.box ys);
      holds = λ later ext. (
        e.longer,
        ap (unboxed k)
              (ext.keeps.at (length h) (k.box ys) (omega arith) (get_elem?-length h (k.box ys)))
            ∙ k.unbox-box ys,
      );
    }

    pub whole-Reads :
        (lo b : ℕ) (h : Heap lib) (ys : List T)
        → lo ≤ b
        → array_at k b h ≡ some ys
        → Reads k lo h (window b 0 (length ys)) ys
    unfolding elements
    whole-Reads lo b h ys l e = (
      l,
      ap (windowed k 0 (length ys)) e
          ∙ not_longer (length ys) none (some (take (length ys) ys))
          ∙ ap some (take-length ys),
    )
