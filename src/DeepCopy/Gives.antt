-- ===== src/DeepCopy/Gives.antt =====
-- Rules of proof for computations on the heap that only allocate.
use postgres_config_operator.Base.{
  ℕ, zero, suc, ◌≤◌, some, List, [], ◌∷◌, ◌++◌, ◌≡◌, refl, ap, ◌∙◌, arith, length, get_elem?,
  length-append,
}
use postgres_config_operator.DeepCopy.Memory.{Library, Cell, Heap, M, and_then, return, ◌>>=◌}

module _ {lib : Library} where
  -- The arrays from the address `lo` on are kept.
  pub record Keeps (lo : ℕ) (h h' : Heap lib) : Type 0 where
    pub at : (a : ℕ) (c : Cell lib) → lo ≤ a → get_elem? h a ≡ some c → get_elem? h' a ≡ some c

  -- All arrays are kept, and there may be new ones.
  pub record Extends (h h' : Heap lib) : Type 0 where
    pub keeps : Keeps 0 h h'
    pub longer : length h ≤ length h'

  pub Extends-refl : (h : Heap lib) → Extends h h
  Extends-refl h = record { keeps = record { at = λ a c l e. e }; longer = omega arith }

  pub Extends-trans : (h h' h'' : Heap lib) → Extends h h' → Extends h' h'' → Extends h h''
  Extends-trans h h' h'' e e' = record {
    keeps = record { at = λ a c l there. e'.keeps.at a c l (e.keeps.at a c l there) };
    longer = let a = e.longer in let b = e'.longer in omega arith;
  }

  get_elem?-left :
      (h : Heap lib) (cs : List (Cell lib)) (a : ℕ) (c : Cell lib)
      → get_elem? h a ≡ some c
      → get_elem? (h ++ cs) a ≡ some c
  get_elem?-left [] cs a c e = cc
  get_elem?-left (d ∷ h) cs zero c e = e
  get_elem?-left (d ∷ h) cs (suc a) c e = get_elem?-left h cs a c e

  pub get_elem?-length :
      (h : Heap lib) (c : Cell lib) → get_elem? (h ++ (c ∷ [])) (length h) ≡ some c
  get_elem?-length [] c = refl
  get_elem?-length (d ∷ h) c = get_elem?-length h c

  pub snoc-Extends : (h : Heap lib) (c : Cell lib) → Extends h (h ++ (c ∷ []))
  snoc-Extends h c = record {
    keeps = record { at = λ a d l e. get_elem?-left h (c ∷ []) a d e };
    longer = rw (length-append h (c ∷ [])) (omega arith);
  }

  -- On every heap that extends `base`, the computation returns a value, only allocates, and the value
  -- satisfies `P` on all heaps that extend the one it leaves.
  pub record Result {A : Type 0} (m : M lib A) (P : Heap lib → A → Type 0) (h : Heap lib)
      : Type 0 where
    pub value : A
    pub after : Heap lib
    pub runs : m h ≡ some (value, after)
    pub extends : Extends h after
    pub holds : (later : Heap lib) → Extends after later → P later value

  abbrev pub Gives : {A : Type 0} → Heap lib → M lib A → (Heap lib → A → Type 0) → Type 0
  Gives base m P = (h : Heap lib) → Extends base h → Result m P h

  pub return-Gives :
      {A : Type 0} (base : Heap lib) (a : A) (P : Heap lib → A → Type 0)
      → ((h : Heap lib) → Extends base h → P h a)
      → Gives base (return a) P
  return-Gives base a P p h e = record {
    value = a;
    after = h;
    runs = refl;
    extends = Extends-refl h;
    holds = λ later e'. p later (Extends-trans base h later e e');
  }

  pub bind-Gives :
      {A B : Type 0} {base : Heap lib} {m : M lib A} {k : A → M lib B} {P : Heap lib → A → Type 0}
      {Q : Heap lib → B → Type 0}
      → Gives base m P
      → ((a : A) → Gives base (k a) (λ h b. P h a → Q h b))
      → Gives base (m >>= k) Q
  bind-Gives {base} {m} {k} {P} {Q} first rest h e =
      let r : Result m P h = first h e in
      let s : Result (k r.value) (λ h' b. P h' r.value → Q h' b) r.after =
        rest r.value r.after (Extends-trans base h r.after e r.extends) in
      record {
        value = s.value;
        after = s.after;
        runs = ap (and_then k) r.runs ∙ s.runs;
        extends = Extends-trans h r.after s.after r.extends s.extends;
        holds = λ later e'.
            s.holds later e' (r.holds later (Extends-trans r.after s.after later s.extends e'));
      }
