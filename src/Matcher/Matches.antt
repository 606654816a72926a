-- ===== src/Matcher/Matches.antt =====
-- What `Match` answers.
use postgres_config_operator.Base.{
  String, Bool, true, false, Option, none, some, List, [], ◌∷◌, ◌≡◌, refl, ◌↔◌, ◌∙◌, sym, ap, All,
  arith, contains,
}
use postgres_config_operator.Base.GoMap.{lookup}
use postgres_config_operator.Errors.{Err, Result, ok, err}
use postgres_config_operator.Api.{PostgresColumn}
use postgres_config_operator.Effects.{Request, History, answer, done, perform, query}
use postgres_config_operator.Effects.Hoare.{Post, attempt-Triple, perform-Triple}
use postgres_config_operator.Effects.Steps.{attempt-done, perform-done}
use postgres_config_operator.Effects.World.{ColumnRow, World}
use postgres_config_operator.Matcher.{
  Found, column_data_query, connection, fetch_column_data_from_pg, match, match_column,
  match_columns, none_found, query_arguments, scan_rows,
}
use postgres_config_operator.Matcher.Scan.{
  IsPrimary, last_nullable, scanned-nullable, scanned-IsPrimary,
}

-- The rows describe the column: the last row of its name has its nullability, and it is a primary
-- key just if some row of its name says so.
pub record IsMatch (rows : List ColumnRow) (c : PostgresColumn) : Type 0 where
  pub nullable : last_nullable c.name rows ≡ some c.nullable
  pub primary : (c.primary_key ≡ true) ↔ IsPrimary c.name rows

match_column-ok_iff :
    (o : Option Bool) (primary : Bool) (c : PostgresColumn)
    → (match_column o primary c ≡ ok tt) ↔ ((o ≡ some c.nullable) × (c.primary_key ≡ primary))
unfolding match_column
match_column-ok_iff none primary c = (λ h. cc, λ p. cc)
match_column-ok_iff (some nullable) primary c = ground arith

-- A result after another one that carries no value
after_ok :
    (r : Result (Unit {0})) (rest : Result Bool) (b : Bool)
    → ((elim r [ err e ↦ err e | ok _ ↦ rest ]) ≡ ok b) ↔ ((r ≡ ok tt) × (rest ≡ ok b))
after_ok (err e) rest b = (λ h. cc, λ p. cc)
after_ok (ok _) rest b = (λ h. (refl, h), λ p. p.1)

equal_of_iff : (a b : Bool) → ((a ≡ true) ↔ (b ≡ true)) → a ≡ b
equal_of_iff true b both = sym (both.0 refl)
equal_of_iff false true both = both.1 refl
equal_of_iff false false both = refl

module _ (rows : List ColumnRow) where
  abbrev scanned : Found
  scanned = scan_rows rows none_found

  column-ok_iff :
      (c : PostgresColumn)
      → (match_column (lookup c.name scanned.nullable) (contains scanned.primary_keys c.name) c
          ≡ ok tt)
        ↔ IsMatch rows c
  column-ok_iff c =
      let answer =
        match_column-ok_iff (lookup c.name scanned.nullable) (contains scanned.primary_keys c.name)
          c in
      let key = scanned-IsPrimary c.name rows in
      (
        λ h. record {
          nullable = sym (scanned-nullable c.name rows) ∙ (answer.0 h).0;
          primary = (λ e. key.0 (sym (answer.0 h).1 ∙ e), λ p. (answer.0 h).1 ∙ key.1 p);
        },
        λ m. answer.1 (
          scanned-nullable c.name rows ∙ m.nullable,
          equal_of_iff c.primary_key (contains scanned.primary_keys c.name)
              (λ e. key.1 (m.primary.0 e), λ e. m.primary.1 (key.0 e)),
        ),
      )

  match_columns-ok_iff :
      (cs : List PostgresColumn) → (match_columns scanned cs ≡ ok true) ↔ All (IsMatch rows) cs
  unfolding match_columns
  match_columns-ok_iff [] = (λ _. tt, λ _. refl)
  match_columns-ok_iff (c ∷ cs) =
      let both =
        after_ok
          (match_column (lookup c.name scanned.nullable) (contains scanned.primary_keys c.name) c)
          (match_columns scanned cs) true in
      let one = column-ok_iff c in
      let rest = match_columns-ok_iff cs in
      (λ h. (one.0 (both.0 h).0, rest.0 (both.0 h).1), λ a. both.1 (one.1 a.0, rest.1 a.1))

match_columns-true :
    (found : Found) (cs : List PostgresColumn) (b : Bool) → match_columns found cs ≡ ok b → b ≡ true
unfolding match_columns
match_columns-true found [] b h = cc
match_columns-true found (c ∷ cs) b h =
    match_columns-true found cs b
      ((after_ok
          (match_column (lookup c.name found.nullable) (contains found.primary_keys c.name) c)
          (match_columns found cs) b).0
        h).1

answer-true :
    (r : Result Bool) (h : History) (S : History → Type 0)
    → ((b : Bool) → r ≡ ok b → b ≡ true)
    → S h
    → Post (λ b g. (b ≡ true) × S g) S (answer r h)
answer-true (ok b) h S only s = (only b refl, s)
answer-true (err e) h S only s = s

module _ (w : World) (format_object : Err → String) (schema table : String)
    (cs : List PostgresColumn) where
  abbrev columns_query : Request
  columns_query = query column_data_query (query_arguments schema table cs)

  abbrev reply : History → Result (List ColumnRow)
  reply h = w.columns_found h column_data_query (query_arguments schema table cs)

  fetched :
      (h : History) (rows : List ColumnRow)
      → reply h ≡ ok rows
      → fetch_column_data_from_pg w format_object schema table cs h
        ≡ done (scan_rows rows none_found) (columns_query ∷ h)
  unfolding fetch_column_data_from_pg
  fetched h rows e =
      attempt-done (perform columns_query reply) _ _ (perform-done columns_query reply e)

  answer_iff : (r : Result Bool) (h : History) → (answer r h ≡ done true h) ↔ (r ≡ ok true)
  answer_iff (ok b) h = (λ e. cc, λ e. cc)
  answer_iff (err x) h = (λ e. cc, λ e. cc)

  -- On a connection whose server answers the query, `Match` succeeds exactly when the rows describe
  -- every column: the last row of its name has its nullability, and some row of its name is part of
  -- the primary key just if the column is.
  pub match-ok_iff :
      (h : History) (rows : List ColumnRow)
      → reply h ≡ ok rows
      → (match w format_object schema table cs connection h ≡ done true (columns_query ∷ h))
        ↔ All (IsMatch rows) cs
  unfolding match
  match-ok_iff h rows e =
      let ran =
        attempt-done (fetch_column_data_from_pg w format_object schema table cs) _
          (λ found. answer (match_columns found cs)) (fetched h rows e) in
      let answered =
        answer_iff (match_columns (scan_rows rows none_found) cs) (columns_query ∷ h) in
      let columns = match_columns-ok_iff rows cs in
      (λ m. columns.0 (answered.0 (sym ran ∙ m)), λ a. ran ∙ answered.1 (columns.1 a))

  -- On a connection, `Match` sends one query, and it never answers that the columns do not match: it
  -- answers that they do, or it fails.
  pub match-connection :
      (h : History)
      → Post
          (λ b h'. (b ≡ true) × (h' ≡ columns_query ∷ h))
          (λ h'. h' ≡ columns_query ∷ h)
          (match w format_object schema table cs connection h)
  unfolding match fetch_column_data_from_pg
  match-connection h =
      let Sent : History → Type 0 = λ h'. h' ≡ columns_query ∷ h in
      attempt-Triple (λ _. Sent) Sent Sent (λ b h'. (b ≡ true) × Sent h') (λ h'. h' ≡ h)
        (fetch_column_data_from_pg w format_object schema table cs) _ _
        (attempt-Triple (λ _. Sent) Sent Sent (λ _. Sent) (λ h'. h' ≡ h)
          (perform columns_query reply) _ _
          (perform-Triple (λ h'. h' ≡ h) (λ _. Sent) Sent columns_query reply
            (λ _ h' e _. ap (λ l. columns_query ∷ l) e) (λ _ h' e _. ap (λ l. columns_query ∷ l) e))
          (λ _ h' s. s) (λ _ h' s. s))
        (λ _ h' s. s)
        (λ found h' s. answer-true (match_columns found cs) h' Sent (match_columns-true found cs) s)
        h refl
