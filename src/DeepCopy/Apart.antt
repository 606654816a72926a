-- ===== src/DeepCopy/Apart.antt =====
-- What `DeepCopy` promises of a pointer: an equal value in new arrays, apart from the original.
use postgres_config_operator.Base.{
  ℕ, zero, suc, ◌≤◌, ◌<◌, some, List, [], ◌∷◌, ◌≡◌, refl, ap, ◌∙◌, arith, All, length, All-map,
  get_elem?,
}
use postgres_config_operator.DeepCopy.Parts.{Object, object_of}
use postgres_config_operator.DeepCopy.Memory.{
  Library, Cell, Heap, M, and_then, return, ◌>>=◌, Pointer, write, write_all,
}
use postgres_config_operator.DeepCopy.Gives.{Extends-refl, Result}
use postgres_config_operator.DeepCopy.Copier.{Relation, IsCopier}

length-get_elem? :
    {A : Type 0} (xs : List A) (a : ℕ) (x : A) → get_elem? xs a ≡ some x → a < length xs
length-get_elem? [] a x e = cc
length-get_elem? (y ∷ xs) zero x e = omega arith
length-get_elem? (y ∷ xs) (suc a) x e = let l = length-get_elem? xs a x e in omega arith

module _ {lib : Library} where
  write-other :
      (a b : ℕ) (c d : Cell lib) (h : Heap lib)
      → (a ≡ b → ⊥)
      → get_elem? h b ≡ some d
      → get_elem? (write a c h) b ≡ some d
  unfolding write
  write-other a b c d [] other e = e
  write-other zero zero c d (x ∷ h) other e = absurd (other refl)
  write-other zero (suc b) c d (x ∷ h) other e = e
  write-other (suc a) zero c d (x ∷ h) other e = e
  write-other (suc a) (suc b) c d (x ∷ h) other e = write-other a b c d h (λ s. other (ap suc s)) e

  write_all-other :
      (ws : List (ℕ × Cell lib)) (b : ℕ) (d : Cell lib) (h : Heap lib)
      → All (λ w. w.0 ≡ b → ⊥) ws
      → get_elem? h b ≡ some d
      → get_elem? (write_all ws h) b ≡ some d
  unfolding write_all
  write_all-other [] b d h other e = e
  write_all-other ((a, c) ∷ ws) b d h other e =
      write_all-other ws b d (write a c h) other.1 (write-other a b c d h other.0 e)

  -- The copy and the heap after it: all arrays of the copy are new, and the original is what it was.
  pub record IsDeepCopied {V : Type 0} (R : Relation lib Pointer V)
      (deep_copy : Pointer → M lib Pointer) (deep_copy_object : Pointer → M lib Object)
      (h : Heap lib) (p : Pointer) (v : V) : Type 0 where
    pub copy : Pointer
    pub after : Heap lib
    pub runs : deep_copy p h ≡ some (copy, after)
    pub runs_object : deep_copy_object p h ≡ some (object_of copy, after)
    pub copied : R (length h) after copy v
    pub kept : R 0 after p v

  module _ {V : Type 0} {R : Relation lib Pointer V} {f : Pointer → M lib Pointer}
      (copier : IsCopier R f) where
    result :
        (h : Heap lib) (p : Pointer) (v : V)
        → R 0 h p v
        → Result (f p) (λ h' p'. R (length h) h' p' v) h
    result h p v held = copier.copies h p v held h (Extends-refl h)

    pub copier-IsDeepCopied :
        (g : Pointer → M lib Object)
        → ((h : Heap lib) (p : Pointer) → g p h ≡ (f p >>= λ c. return (object_of c)) h)
        → (h : Heap lib) (p : Pointer) (v : V) → R 0 h p v
        → IsDeepCopied R f g h p v
    copier-IsDeepCopied g object h p v held =
        let r : Result (f p) (λ h' p'. R (length h) h' p' v) h = result h p v held in
        record {
          copy = r.value;
          after = r.after;
          runs = r.runs;
          runs_object = object h p ∙ ap (and_then (λ c. return (object_of c))) r.runs;
          copied = r.holds r.after (Extends-refl r.after);
          kept = copier.stable 0 h r.after p v r.extends.keeps held;
        }

    module _ (h : Heap lib) (p : Pointer) (v : V) (held : R 0 h p v) (copy : Pointer)
        (after : Heap lib) (runs : f p h ≡ some (copy, after)) (ws : List (ℕ × Cell lib)) where
      pub copier-apart : All (λ w. w.0 < length h) ws → R (length h) (write_all ws after) copy v
      copier-apart old =
          let r : Result (f p) (λ h' p'. R (length h) h' p' v) h = result h p v held in
          let same : r.after ≡ after = cc (r.runs, runs) in
          let value : r.value ≡ copy = cc (r.runs, runs) in
          let copied : R (length h) r.after r.value v = r.holds r.after (Extends-refl r.after) in
          copier.stable (length h) after (write_all ws after) copy v
            (record {
              at = λ a c l e.
                  write_all-other ws a c after (All-map ws (λ w b. λ same_place. omega arith) old)
                    e;
            })
            (rw (same, value) at copied)

      pub original-apart : All (λ w. length h ≤ w.0) ws → R 0 (write_all ws after) p v
      original-apart new =
          let r : Result (f p) (λ h' p'. R (length h) h' p' v) h = result h p v held in
          let same : r.after ≡ after = cc (r.runs, runs) in
          copier.stable 0 h (write_all ws after) p v
            (record {
              at = λ a c l e.
                  let below = length-get_elem? h a c e in
                  let there : get_elem? after a ≡ some c =
                    rw same at (r.extends.keeps.at a c l e) in
                  write_all-other ws a c after (All-map ws (λ w b. λ same_place. omega arith) new)
                    there;
            })
            held
