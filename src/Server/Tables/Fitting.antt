-- ===== src/Server/Tables/Fitting.antt =====
-- The columns that `alterExistingTable` adds can be added one after the other.
use postgres_config_operator.Base.{
  arith, String, ◌≡◌, refl, ap, List, [], ◌∷◌, ◌++◌, ◌≢◌, inl, inr, Listed, All, Distinct,
  Bool-cases, All-of_Listed, Listed-append_cases, contains,
}
use postgres_config_operator.Api.{PostgresColumn}
use postgres_config_operator.Table.{columns_to_add}
use postgres_config_operator.Table.Columns.{columns_to_add_iff}
use postgres_config_operator.Server.Tables.{column_names, has_name, lacking}

-- Each column is one of `wanted`, and its name is neither one of `names` nor one of `new`, nor that
-- of a column before it.
abbrev pub Fits : List PostgresColumn → List String → List String → List PostgresColumn → Type 0
Fits wanted names new [] = Unit
Fits wanted names new (c ∷ cs) =
    Listed c wanted × (¬ Listed c.name (names ++ new)) × Fits wanted names (new ++ (c.name ∷ [])) cs

apart :
    (c : PostgresColumn) (new : List String) (cs : List PostgresColumn)
    → All (λ d. ¬ Listed d.name new) cs
    → All (λ n. c.name ≢ n) (column_names cs)
    → All (λ d. ¬ Listed d.name (new ++ (c.name ∷ []))) cs
apart c new [] old other = tt
apart c new (d ∷ cs) old other = (
  λ l. elim (Listed-append_cases d.name new (c.name ∷ []) l) [
    | inl there ↦ old.0 there
    | inr (inl same) ↦ other.0 (cc same)
    | inr (inr nowhere) ↦ nowhere
  ],
  apart c new cs old.1 other.1,
)

Fits-if_apart :
    (wanted : List PostgresColumn) (names new : List String) (cs : List PostgresColumn)
    → All (λ c. Listed c wanted × (¬ Listed c.name names)) cs
    → All (λ c. ¬ Listed c.name new) cs
    → Distinct (column_names cs)
    → Fits wanted names new cs
Fits-if_apart wanted names new [] missing old other = tt
Fits-if_apart wanted names new (c ∷ cs) missing old other = (
  missing.0.0,
  λ l. elim (Listed-append_cases c.name names new l) [
    | inl there ↦ missing.0.1 there
    | inr before ↦ old.0 before
  ],
  Fits-if_apart wanted names (new ++ (c.name ∷ [])) cs missing.1 (apart c new cs old.1 other.0)
      other.1,
)

has_name_lem : (names : List String) (n : String) → has_name names n ≡ contains names n
unfolding has_name contains
has_name_lem [] n = refl
has_name_lem (m ∷ ms) n = ground (arith, has_name_lem ms n)

-- The added columns are those whose names the table lacks.
pub columns_to_add-lacking :
    (names : List String) (cs : List PostgresColumn)
    → column_names (columns_to_add names cs) ≡ lacking names (column_names cs)
unfolding columns_to_add lacking
columns_to_add-lacking names [] = refl
columns_to_add-lacking names (c ∷ cs) = elim (Bool-cases (contains names c.name)) [
  | inl there ↦ rw (has_name_lem names c.name, there) (columns_to_add-lacking names cs)
  | inr missing ↦
      rw (has_name_lem names c.name, missing)
        (ap (λ l. c.name ∷ l) (columns_to_add-lacking names cs))
]

module _ (names : List String) where
  All-columns_to_add :
      (P : String → Type 0) (cs : List PostgresColumn)
      → All P (column_names cs)
      → All P (column_names (columns_to_add names cs))
  unfolding columns_to_add
  All-columns_to_add P [] all = tt
  All-columns_to_add P (c ∷ cs) all = elim (Bool-cases (contains names c.name)) [
    | inl there ↦ rw there (All-columns_to_add P cs all.1)
    | inr missing ↦ rw missing (all.0, All-columns_to_add P cs all.1)
  ]

  Distinct-columns_to_add :
      (cs : List PostgresColumn)
      → Distinct (column_names cs)
      → Distinct (column_names (columns_to_add names cs))
  unfolding columns_to_add
  Distinct-columns_to_add [] d = tt
  Distinct-columns_to_add (c ∷ cs) d = elim (Bool-cases (contains names c.name)) [
    | inl there ↦ rw there (Distinct-columns_to_add cs d.1)
    | inr missing ↦
        rw missing (All-columns_to_add (λ n. c.name ≢ n) cs d.0, Distinct-columns_to_add cs d.1)
  ]

  pub columns_to_add-Fits :
      (cs : List PostgresColumn)
      → Distinct (column_names cs)
      → Fits cs names [] (columns_to_add names cs)
  columns_to_add-Fits cs d =
      Fits-if_apart cs names [] (columns_to_add names cs)
        (All-of_Listed (λ c. Listed c cs × (¬ Listed c.name names)) (columns_to_add names cs)
          (λ c l. (columns_to_add_iff names c cs).0 l))
        (All-of_Listed (λ c. ¬ Listed c.name []) (columns_to_add names cs) (λ c l nowhere. nowhere))
        (Distinct-columns_to_add cs d)
