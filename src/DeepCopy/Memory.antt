-- ===== src/DeepCopy/Memory.antt =====
-- The memory that `DeepCopy` works on: arrays on a heap, and the structs of `api/v1alpha1` as they
-- stand in memory, where a slice is a window of an array.
use mathlib.Core.Option
use postgres_config_operator.Base.{
  ℕ, zero, suc, ◌+◌, String, Option, none, some, List, [], ◌∷◌, ◌++◌, ◌≡◌, if◌then◌else◌, ltb,
  length, get_elem?,
}
use postgres_config_operator.Api.{
  PostgresColumn, PostgresConfigStatus, PostgresGrantStatus, PostgresPublicationStatus,
  PostgresTableStatus, TypeMeta, PostgresIdentifier, PostgresRef, SecretRef,
}

-- The array, the first element and the number of elements
pub data Slice : Type 0 where
  nil_slice : Slice
  window : ℕ → ℕ → ℕ → Slice

-- An element of an array; `new` makes an array of one element.
pub data Pointer : Type 0 where
  nil_pointer : Pointer
  element : ℕ → ℕ → Pointer

pub record StoredPublication : Type 0 where
  pub name : String
  pub tables : Slice
  pub operations : Slice

pub record StoredTable : Type 0 where
  pub columns : Slice
  pub identifier : PostgresIdentifier

pub record StoredConfigSpec : Type 0 where
  pub postgres_ref : PostgresRef
  pub publications : Slice
  pub tables : Slice

pub record StoredGrantSpec : Type 0 where
  pub postgres_ref : PostgresRef
  pub role : String
  pub tables : Slice
  pub table_privileges : Slice
  pub sequences : Slice
  pub sequence_privileges : Slice
  pub databases : Slice
  pub database_privileges : Slice
  pub schemas : Slice
  pub schema_privileges : Slice
  pub functions : Slice
  pub function_privileges : Slice

pub record StoredPublicationSpec : Type 0 where
  pub postgres_ref : PostgresRef
  pub name : String
  pub tables : Slice
  pub operations : Slice

pub record StoredTableSpec : Type 0 where
  pub postgres_ref : PostgresRef
  pub columns : Slice
  pub identifier : PostgresIdentifier

-- What of the library's objects stands in memory: `metav1.ObjectMeta`, `metav1.ListMeta`, and what
-- arrays and maps they refer to
pub record Library : Type 1 where
  pub object_meta : Type 0
  pub list_meta : Type 0
  pub foreign : Type 0

module _ (lib : Library) where
  pub record StoredConfig : Type 0 where
    pub type_meta : TypeMeta
    pub metadata : lib.object_meta
    pub spec : StoredConfigSpec
    pub status : PostgresConfigStatus

  pub record StoredGrant : Type 0 where
    pub type_meta : TypeMeta
    pub metadata : lib.object_meta
    pub spec : StoredGrantSpec

  pub record StoredPublicationObject : Type 0 where
    pub type_meta : TypeMeta
    pub metadata : lib.object_meta
    pub spec : StoredPublicationSpec

  pub record StoredTableObject : Type 0 where
    pub type_meta : TypeMeta
    pub metadata : lib.object_meta
    pub spec : StoredTableSpec

  -- A list of objects of one kind
  pub record StoredList : Type 0 where
    pub type_meta : TypeMeta
    pub list_meta : lib.list_meta
    pub items : Slice

  -- An array of each of the types that are made by `make` or `new`
  pub data Cell : Type 0 where
    string_array : List String → Cell
    identifier_array : List PostgresIdentifier → Cell
    column_array : List PostgresColumn → Cell
    publication_array : List StoredPublication → Cell
    table_array : List StoredTable → Cell
    config_spec_array : List StoredConfigSpec → Cell
    grant_spec_array : List StoredGrantSpec → Cell
    publication_spec_array : List StoredPublicationSpec → Cell
    table_spec_array : List StoredTableSpec → Cell
    secret_ref_array : List SecretRef → Cell
    postgres_ref_array : List PostgresRef → Cell
    config_status_array : List PostgresConfigStatus → Cell
    grant_status_array : List PostgresGrantStatus → Cell
    publication_status_array : List PostgresPublicationStatus → Cell
    table_status_array : List PostgresTableStatus → Cell
    config_array : List StoredConfig → Cell
    grant_array : List StoredGrant → Cell
    publication_object_array : List StoredPublicationObject → Cell
    table_object_array : List StoredTableObject → Cell
    object_list_array : List StoredList → Cell
    foreign_array : List lib.foreign → Cell

  -- The arrays, by their addresses
  abbrev pub Heap : Type 0
  Heap = List Cell

  -- The arrays whose elements have the type `T`
  pub record Kind (T : Type 0) : Type 0 where
    pub box : List T → Cell
    pub unbox : Cell → Option (List T)
    pub unbox-box : (xs : List T) → unbox (box xs) ≡ some xs

  -- `none` is a fault: a read of what is not there.
  abbrev pub M : Type 0 → Type 0
  M A = Heap → Option (A × Heap)

module _ {lib : Library} where
  abbrev pub return : {A : Type 0} → A → M lib A
  return a h = some (a, h)

  abbrev pub and_then :
      {A B : Type 0} → (A → M lib B) → Option (A × Heap lib) → Option (B × Heap lib)
  and_then k none = none
  and_then k (some (a, h)) = k a h

  infixl 5 ◌>>=◌
  abbrev pub ◌>>=◌ : {A B : Type 0} → M lib A → (A → M lib B) → M lib B
  m >>= k = λ h. and_then k (m h)

abbrev pub take {ℓ} : {A : Type ℓ} → ℕ → List A → List A
take zero xs = []
take (suc n) [] = []
take (suc n) (x ∷ xs) = x ∷ take n xs

abbrev pub drop {ℓ} : {A : Type ℓ} → ℕ → List A → List A
drop zero xs = xs
drop (suc n) [] = []
drop (suc n) (x ∷ xs) = drop n xs

module _ {lib : Library} where
  module _ {T : Type 0} (k : Kind lib T) where
    abbrev pub unboxed : Option (Cell lib) → Option (List T)
    unboxed none = none
    unboxed (some c) = k.unbox c

    -- The whole array at an address
    unfoldable pub array_at : ℕ → Heap lib → Option (List T)
    array_at a h = unboxed (get_elem? h a)

    abbrev pub windowed : ℕ → ℕ → Option (List T) → Option (List T)
    windowed o n none = none
    windowed o n (some xs) = if ltb (length xs) (o + n) then none else some (take n (drop o xs))

    -- The elements of a slice
    unfoldable pub elements : Slice → Heap lib → Option (List T)
    elements nil_slice h = some []
    elements (window a o n) h = windowed o n (array_at a h)

    abbrev pub one_of_array : ℕ → Option (List T) → Option T
    one_of_array i none = none
    one_of_array i (some xs) = get_elem? xs i

    -- What a pointer points to
    unfoldable pub target : Pointer → Heap lib → Option T
    target nil_pointer h = none
    target (element a i) h = one_of_array i (array_at a h)

    unfoldable pub load : Slice → M lib (List T)
    load s h = Option.map (λ xs. (xs, h)) (elements s h)

    unfoldable pub deref : Pointer → M lib T
    deref p h = Option.map (λ x. (x, h)) (target p h)

    -- A new array, and its address
    unfoldable pub alloc : List T → M lib ℕ
    alloc xs h = some (length h, h ++ (k.box xs ∷ []))

  -- A write to the array at an address
  unfoldable pub write : ℕ → Cell lib → Heap lib → Heap lib
  write a c [] = []
  write zero c (d ∷ h) = c ∷ h
  write (suc a) c (d ∷ h) = d ∷ write a c h

  -- Several of them
  unfoldable pub write_all : List (ℕ × Cell lib) → Heap lib → Heap lib
  write_all [] h = h
  write_all ((a, c) ∷ ws) h = write_all ws (write a c h)
