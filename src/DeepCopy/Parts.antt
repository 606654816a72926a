-- ===== src/DeepCopy/Parts.antt =====
-- What all functions of `zz_generated.deepcopy.go` do: copying a struct without slices, a slice, the
-- target of a pointer.
use postgres_config_operator.Base.{ℕ, List, [], ◌∷◌, length}
use postgres_config_operator.DeepCopy.Memory.{
  Library, Kind, M, Pointer, Slice, alloc, deref, load, element, nil_pointer, nil_slice, window,
  return, ◌>>=◌,
}

-- What `DeepCopyObject` returns: a pointer as a `runtime.Object`, or nil
pub data Object : Type 0 where
  nil_object : Object
  object : ℕ → ℕ → Object

abbrev pub object_of : Pointer → Object
object_of nil_pointer = nil_object
object_of (element a i) = object a i

module _ {lib : Library} where
  -- `*out = *in`, for a struct without slices
  abbrev pub copy_value : {T : Type 0} → T → M lib T
  copy_value x = return x

  unfoldable pub copy_each : {T : Type 0} → (T → M lib T) → List T → M lib (List T)
  copy_each copy [] = return []
  copy_each copy (x ∷ xs) = do y ← copy x; ys ← copy_each copy xs; return (y ∷ ys)

  -- `make`, and `copy` or the loop over the elements. The array is allocated with its elements in it,
  -- behind what they allocate; the program sees no addresses.
  unfoldable pub copy_slice : {T : Type 0} → Kind lib T → (T → M lib T) → Slice → M lib Slice
  copy_slice k copy nil_slice = return nil_slice
  copy_slice k copy (window a o n) = do
    xs ← load k (window a o n)
    ys ← copy_each copy xs
    b ← alloc k ys
    return (window b 0 (length ys))

  -- `DeepCopy`: `new`, and `DeepCopyInto`
  unfoldable pub deep_copy : {T : Type 0} → Kind lib T → (T → M lib T) → Pointer → M lib Pointer
  deep_copy k copy nil_pointer = return nil_pointer
  deep_copy k copy (element a i) = do
    x ← deref k (element a i)
    y ← copy x
    b ← alloc k (y ∷ [])
    return (element b 0)
