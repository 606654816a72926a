-- ===== src/DeepCopy/Slices.antt =====
-- Copying a slice, for elements that are copied right.
use postgres_config_operator.Base.{ℕ, List, [], ◌∷◌, ◌≡◌, length}
use postgres_config_operator.DeepCopy.Parts.{copy_each, copy_slice}
use postgres_config_operator.DeepCopy.Memory.{Library, Heap, Kind, M, Slice, nil_slice, window}
use postgres_config_operator.DeepCopy.Gives.{Keeps, Gives, return-Gives, bind-Gives}
use postgres_config_operator.DeepCopy.Copier.{
  Relation, AllHold, HoldsSlice, IsCopier, Reads-stable, load-Gives, alloc-Gives, whole-Reads,
}

module _ {lib : Library} where
  module _ {T V : Type 0} {R : Relation lib T V} {copy : T → M lib T}
      (copier : IsCopier R copy) where
    AllHold-stable :
        (lo : ℕ) (h h' : Heap lib) (xs : List T) (vs : List V)
        → Keeps lo h h'
        → AllHold R lo h xs vs
        → AllHold R lo h' xs vs
    AllHold-stable lo h h' [] [] keeps each = tt
    AllHold-stable lo h h' [] (v ∷ vs) keeps each = each
    AllHold-stable lo h h' (x ∷ xs) [] keeps each = each
    AllHold-stable lo h h' (x ∷ xs) (v ∷ vs) keeps each =
        (copier.stable lo h h' x v keeps each.0, AllHold-stable lo h h' xs vs keeps each.1)

    AllHold-nil :
        (lo lo' : ℕ) (h h' : Heap lib) (xs : List T) (vs : List V)
        → xs ≡ []
        → AllHold R lo h xs vs
        → AllHold R lo' h' xs vs
    AllHold-nil lo lo' h h' [] [] e each = tt
    AllHold-nil lo lo' h h' [] (v ∷ vs) e each = each
    AllHold-nil lo lo' h h' (x ∷ xs) [] e each = each
    AllHold-nil lo lo' h h' (x ∷ xs) (v ∷ vs) e each = absurd (cc e)

    copy_each-Gives :
        (base : Heap lib) (xs : List T) (vs : List V)
        → AllHold R 0 base xs vs
        → Gives base (copy_each copy xs) (λ h ys. AllHold R (length base) h ys vs)
    unfolding copy_each
    copy_each-Gives base [] [] each =
        return-Gives base [] (λ h ys. AllHold R (length base) h ys []) (λ h ext. tt)
    copy_each-Gives base [] (v ∷ vs) each = absurd each
    copy_each-Gives base (x ∷ xs) [] each = absurd each
    copy_each-Gives base (x ∷ xs) (v ∷ vs) each = bind-Gives (copier.copies base x v each.0) (λ y.
        bind-Gives (copy_each-Gives base xs vs each.1)
          (λ ys. return-Gives base (y ∷ ys) _ (λ h ext hys hy. (hy, hys))))

    module _ (k : Kind lib T) where
      copy_slice-Gives :
          (base : Heap lib) (s : Slice) (vs : List V)
          → HoldsSlice k R 0 base s vs
          → Gives base (copy_slice k copy s) (λ h s'. HoldsSlice k R (length base) h s' vs)
      unfolding copy_slice
      copy_slice-Gives base nil_slice vs holds = return-Gives base nil_slice _ (λ h ext. record {
        items = holds.items;
        reads = holds.reads;
        each = AllHold-nil 0 (length base) base h holds.items vs holds.reads holds.each;
      })
      copy_slice-Gives base (window a o n) vs holds = load-Gives k a o n _ holds.reads (
          bind-Gives (copy_each-Gives base holds.items vs holds.each) (λ ys.
            bind-Gives (alloc-Gives k base ys) (λ b.
              return-Gives base (window b 0 (length ys)) _ (λ h ext there each. record {
                items = ys;
                reads = whole-Reads k (length base) b h ys there.0 there.1;
                each = each;
              }))))

      pub copy_slice-IsCopier : IsCopier (HoldsSlice k R) (copy_slice k copy)
      copy_slice-IsCopier = record {
        stable = λ lo h h' s vs keeps holds. record {
          items = holds.items;
          reads = Reads-stable k lo h h' s holds.items keeps holds.reads;
          each = AllHold-stable lo h h' holds.items vs keeps holds.each;
        };
        copies = copy_slice-Gives;
      }
