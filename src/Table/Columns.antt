-- ===== src/Table/Columns.antt =====
-- Which columns `alterExistingTable` adds to a table that is there.
use postgres_config_operator.Base.{
  String, true, List, [], ◌∷◌, ◌≡◌, refl, ◌↔◌, inl, inr, arith, contains, contains_iff,
  contains_of_Listed, Listed, All, Bool-cases, All-of_Listed,
}
use postgres_config_operator.Api.{PostgresColumn}
use postgres_config_operator.Table.{columns_to_add}

column_name : PostgresColumn → String
column_name c = c.name

-- A column is added exactly when the spec lists it and the table has no column of its name.
pub columns_to_add_iff :
    (names : List String) (c : PostgresColumn) (cs : List PostgresColumn)
    → Listed c (columns_to_add names cs) ↔ (Listed c cs × (¬ Listed c.name names))
unfolding columns_to_add
columns_to_add_iff names c [] = (λ l. elim l [ ], λ p. elim p.0 [ ])
columns_to_add_iff names c (d ∷ cs) = elim (Bool-cases (contains names d.name)) [
  | inl there ↦ rw there (
      ground (
        arith,
        columns_to_add_iff names c cs,
        contains_iff names d.name,
        contains_iff names c.name,
      ))
  | inr missing ↦ rw missing (
      ground (
        arith,
        columns_to_add_iff names c cs,
        contains_iff names d.name,
        contains_iff names c.name,
      ))
]

columns_to_add-nil :
    (names : List String) (cs : List PostgresColumn)
    → All (λ c. contains names c.name ≡ true) cs
    → columns_to_add names cs ≡ []
unfolding columns_to_add
columns_to_add-nil names [] h = refl
columns_to_add-nil names (c ∷ cs) h = rw h.0 (columns_to_add-nil names cs h.1)

-- Once the table has the columns that were added, beside those that it had, nothing is left to add.
pub columns_to_add-settled :
    (names names' : List String) (cs : List PostgresColumn)
    → ((n : String) → Listed n names → Listed n names')
    → ((c : PostgresColumn) → Listed c (columns_to_add names cs) → Listed c.name names')
    → columns_to_add names' cs ≡ []
columns_to_add-settled names names' cs old new = columns_to_add-nil names' cs (
    All-of_Listed (λ c. contains names' c.name ≡ true) cs
      (λ c l. contains_of_Listed names' c.name (elim (Bool-cases (contains names c.name)) [
        | inl there ↦ old c.name ((contains_iff names c.name).0 there)
        | inr missing ↦ new c (
            (columns_to_add_iff names c cs).1
              (l, λ here. cc (contains_of_Listed names c.name here)))
      ])))
