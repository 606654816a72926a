-- ===== src/Manager/Alter.antt =====
-- What `AlterExistingPublication` sends, and where it stops.
use postgres_config_operator.Base.{String, [], ◌∷◌, ◌≡◌, refl, ◌⊎◌, inl, inr, ap}
use postgres_config_operator.Errors.{Result, ok, err}
use postgres_config_operator.Api.{PostgresPublication}
use postgres_config_operator.Effects.{History, exec, wrap, answer}
use postgres_config_operator.Effects.Hoare.{Post, Triple, bind-Triple, perform-Triple, wrap-Triple}
use postgres_config_operator.Effects.World.{World, do_exec}
use postgres_config_operator.Manager.Std.{
  alter_existing_publication, escape, set_param_query, set_table_query,
}
use postgres_config_operator.Manager.Texts.{
  alter_by, joined_operations_lem, published_operations, set_operations_text, set_tables_text,
  table_identifiers_lem,
}

module _ (w : World) (p : PostgresPublication) (h : History) where
  -- The history after the first statement
  abbrev pub table_set : History
  table_set = exec (set_tables_text w p.spec) [] ∷ h

  abbrev pub TableAccepted : Type 0
  TableAccepted = w.executed h (set_tables_text w p.spec) [] ≡ ok tt

  -- Both statements were sent and accepted: the tables, then the operations of the spec, escaped.
  pub record IsAltered (h' : History) : Type 0 where
    pub tables_accepted : TableAccepted
    pub operations : String
    pub escaped : w.escape_string table_set (published_operations p.spec.operations) ≡ ok operations
    pub operations_accepted :
        w.executed table_set (set_operations_text w p.spec operations) [] ≡ ok tt
    pub now : h' ≡ exec (set_operations_text w p.spec operations) [] ∷ table_set

  -- The second statement is sent only if the first was accepted, and at most once.
  abbrev pub IsCutShort : History → Type 0
  IsCutShort h' =
      (h' ≡ table_set)
      ⊎ (TableAccepted
          × ((s : String) × (h' ≡ exec (set_operations_text w p.spec s) [] ∷ table_set)))

  First : Unit {0} → History → Type 0
  First _ h' = (h' ≡ table_set) × TableAccepted

  Second : String → History → Type 0
  Second s h' =
      (h' ≡ table_set)
      × TableAccepted
      × (w.escape_string table_set (published_operations p.spec.operations) ≡ ok s)

  escape-Post :
      (r : Result String)
      → w.escape_string table_set (published_operations p.spec.operations) ≡ r
      → TableAccepted
      → Post Second IsCutShort (answer r table_set)
  unfolding Second
  escape-Post (ok s) e a = (refl, a, e)
  escape-Post (err x) e a = inl refl

  escape-Triple :
      Triple (First tt) (escape w (published_operations p.spec.operations)) Second IsCutShort
  unfolding First
  escape-Triple h' f = rw f.0 (escape-Post (w.escape_string table_set _) refl f.1)

  last-Triple :
      (s : String)
      → Triple
          (Second s)
          (do_exec w (set_operations_text w p.spec s) [])
          (λ _. IsAltered)
          IsCutShort
  unfolding Second
  last-Triple s =
      perform-Triple _ (λ _. IsAltered) IsCutShort _
        (λ h'. w.executed h' (set_operations_text w p.spec s) [])
        (λ _ h' f e. record {
          tables_accepted = f.1;
          operations = s;
          escaped = f.2;
          operations_accepted = rw f.0 at e;
          now = ap (λ l. exec (set_operations_text w p.spec s) [] ∷ l) f.0;
        })
        (λ _ h' f e. inr (f.1, (s, ap (λ l. exec (set_operations_text w p.spec s) [] ∷ l) f.0)))

  altered :
      Post
        (λ _. IsAltered)
        IsCutShort
        (alter_by w
          (set_tables_text w p.spec)
          (published_operations p.spec.operations)
          (set_operations_text w p.spec)
          h)
  unfolding First
  altered =
      bind-Triple First IsCutShort (λ _. IsAltered) (λ h'. h' ≡ h)
        (wrap "failed to set table to publication" (do_exec w (set_tables_text w p.spec) [])) _
        (wrap-Triple First IsCutShort _ _ _ (
          perform-Triple (λ h'. h' ≡ h) First IsCutShort _
            (λ h'. w.executed h' (set_tables_text w p.spec) [])
            (λ _ h' e s. (ap (λ l. exec (set_tables_text w p.spec) [] ∷ l) e, rw e at s))
            (λ _ h' e _. inl (ap (λ l. exec (set_tables_text w p.spec) [] ∷ l) e))))
        (λ _.
          bind-Triple Second IsCutShort (λ _. IsAltered) (First tt)
            (wrap "failed to escape operations" (escape w (published_operations p.spec.operations)))
            _ (wrap-Triple Second IsCutShort (First tt) _ _ escape-Triple)
            (λ s. wrap-Triple (λ _. IsAltered) IsCutShort (Second s) _ _ (last-Triple s)))
        h refl

  -- `AlterExistingPublication` of both managers: it succeeds only after the server accepted the
  -- statement that sets the tables of the spec, and then the one that sets its operations, escaped,
  -- which are the listed ones or all four; if it fails, it has sent the first statement, and the
  -- second only if the first was accepted.
  pub alter_existing_publication_lem :
      Post (λ _. IsAltered) IsCutShort (alter_existing_publication w p h)
  unfolding alter_existing_publication set_table_query set_param_query
  alter_existing_publication_lem =
      rw (table_identifiers_lem w p.spec.tables, joined_operations_lem p.spec.operations) altered
