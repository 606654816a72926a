-- ===== src/Matcher/Scan.antt =====
-- What the two maps hold once all rows are scanned.
use postgres_config_operator.Base.{
  String, Bool, true, false, Option, none, some, List, [], ◌∷◌, ◌≡◌, refl, ◌∙◌, ◌⊎◌, inl, inr, ◌↔◌,
  ◌==◌, if◌then◌else◌, Bool-cases, arith, contains, eq_iff,
}
use postgres_config_operator.Base.GoMap.{GoMap, insert, lookup}
use postgres_config_operator.Effects.World.{ColumnRow}
use postgres_config_operator.Matcher.{Found, none_found, scan_row, scan_rows}

module _ {V : Type 0} where
  lookup-insert_same : (k : String) (v : V) (m : GoMap V) → lookup k (insert k v m) ≡ some v
  unfolding lookup insert
  lookup-insert_same k v [] = rw ((eq_iff k k).1 refl) refl
  lookup-insert_same k v ((i, w) ∷ m) = elim (Bool-cases (i == k)) [
    | inl same ↦ rw (same, lookup) (rw ((eq_iff k k).1 refl) refl)
    | inr other ↦ rw (other, lookup) (rw other (lookup-insert_same k v m))
  ]

  lookup-insert_other :
      (k j : String) (v : V) (m : GoMap V) → (k == j) ≡ false → lookup j (insert k v m) ≡ lookup j m
  unfolding lookup insert
  lookup-insert_other k j v [] differ = rw differ refl
  lookup-insert_other k j v ((i, w) ∷ m) differ =
      ground (arith, eq_iff i k, eq_iff i j, eq_iff k j, lookup-insert_other k j v m)

  -- The first value that there is
  abbrev pub or_else : Option V → Option V → Option V
  or_else none other = other
  or_else (some v) other = some v

-- `is_nullable` of the last row of the name
abbrev pub last_nullable : String → List ColumnRow → Option Bool
last_nullable name [] = none
last_nullable name (row ∷ rows) =
    or_else (last_nullable name rows)
      (if row.column_name == name then some row.is_nullable else none)

-- Some row of the name is part of the primary key.
abbrev pub IsPrimary : String → List ColumnRow → Type 0
IsPrimary name [] = ⊥
IsPrimary name (row ∷ rows) =
    ((row.column_name ≡ name) × (row.is_primary_key ≡ true)) ⊎ IsPrimary name rows

or_else-insert :
    (k j : String) (v : Bool) (m : GoMap Bool) (o : Option Bool)
    → or_else o (lookup j (insert k v m))
      ≡ or_else (or_else o (if k == j then some v else none)) (lookup j m)
or_else-insert k j v m (some b) = refl
or_else-insert k j v m none = elim (Bool-cases (k == j)) [
  | inl same ↦ rw (same, ← (eq_iff k j).0 same) (lookup-insert_same k v m)
  | inr other ↦ rw other (lookup-insert_other k j v m other)
]

scan_rows-nullable :
    (name : String) (rows : List ColumnRow) (found : Found)
    → lookup name (scan_rows rows found).nullable
      ≡ or_else (last_nullable name rows) (lookup name found.nullable)
unfolding scan_rows scan_row
scan_rows-nullable name [] found = refl
scan_rows-nullable name (row ∷ rows) found =
    scan_rows-nullable name rows (scan_row row found)
    ∙ or_else-insert row.column_name name row.is_nullable found.nullable (last_nullable name rows)

or_none : (o : Option Bool) → or_else o none ≡ o
or_none none = refl
or_none (some b) = refl

pub scanned-nullable :
    (name : String) (rows : List ColumnRow)
    → lookup name (scan_rows rows none_found).nullable ≡ last_nullable name rows
unfolding lookup
scanned-nullable name rows =
    scan_rows-nullable name rows none_found ∙ or_none (last_nullable name rows)

scan_rows-IsPrimary :
    (name : String) (rows : List ColumnRow) (found : Found)
    → (contains (scan_rows rows found).primary_keys name ≡ true)
      ↔ (IsPrimary name rows ⊎ (contains found.primary_keys name ≡ true))
unfolding scan_rows scan_row contains
scan_rows-IsPrimary name [] found = (λ h. inr h, elim [ inl l ↦ elim l [ ] | inr h ↦ h ])
scan_rows-IsPrimary name (row ∷ rows) found =
    ground (arith, scan_rows-IsPrimary name rows (scan_row row found), eq_iff row.column_name name)

pub scanned-IsPrimary :
    (name : String) (rows : List ColumnRow)
    → (contains (scan_rows rows none_found).primary_keys name ≡ true) ↔ IsPrimary name rows
unfolding contains
scanned-IsPrimary name rows =
    let all = scan_rows-IsPrimary name rows none_found in
    (λ h. elim (all.0 h) [ inl p ↦ p | inr f ↦ cc ], λ p. all.1 (inl p))
