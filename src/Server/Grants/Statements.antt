-- ===== src/Server/Grants/Statements.antt =====
-- The statements for the tables of a grant, on a server that accepts them.
use postgres_config_operator.Base.{
  String, List, [], ◌∷◌, ◌≡◌, inl, inr, refl, sym, subst, map, Listed,
}
use postgres_config_operator.Api.{PostgresGrant, PostgresIdentifier, qualified}
use postgres_config_operator.Effects.{History, Outcome, ReconcileResult, done, exec, failed}
use postgres_config_operator.Effects.Hoare.{Post, attempt-Triple}
use postgres_config_operator.Effects.World.{World, do_exec}
use postgres_config_operator.Events.{finished}
use postgres_config_operator.Grant.{grant_objects, grant_query, wanted_privileges}
use postgres_config_operator.Server.{Ends, Never, perform-Ends}
use postgres_config_operator.Server.Grants.{Asked, IsGrantable, ServesGrant, grant_text}
use postgres_config_operator.Server.Grants.Wanted.{wanted_privileges-Names}

module _ (w : World) (g : PostgresGrant) (Allows : PostgresIdentifier → String → History → Type 0)
    (server : ServesGrant w g.spec.role g.spec.tables Allows)
    (grantable : IsGrantable (wanted_privileges g.spec.table_privileges)) where
  -- The role has the rights that the resource asks for on these tables.
  abbrev pub AllowsAll : List PostgresIdentifier → History → Type 0
  AllowsAll ts h =
      (t : PostgresIdentifier) (x : String)
      → Listed t ts
      → Asked g.spec.table_privileges x
      → Allows t x h

  -- The statement for one table
  abbrev sent : PostgresIdentifier → String
  sent t = grant_text w (wanted_privileges g.spec.table_privileges) t g.spec.role

  abbrev pub KeptByGrants : (History → Type 0) → Type 0
  KeptByGrants P =
      (h : History) (u : PostgresIdentifier)
      → Listed u g.spec.tables
      → P h
      → P (exec (sent u) [] ∷ h)

  AllowsAll-KeptByGrants : (ts : List PostgresIdentifier) → KeptByGrants (AllowsAll ts)
  AllowsAll-KeptByGrants ts h u l all t x lt lx =
      server.after_others h t u _ x grantable (all t x lt lx)

  -- What the loop over the rest leaves, with what the first statement did
  first_and_rest :
      (P : History → Type 0) (t : PostgresIdentifier) (ts : List PostgresIdentifier)
      (r : Outcome ReconcileResult)
      → Post (λ r h. (r ≡ finished) × ((P h × AllowsAll (t ∷ []) h) × AllowsAll ts h)) Never r
      → Post (λ r h. (r ≡ finished) × (P h × AllowsAll (t ∷ ts) h)) Never r
  first_and_rest P t ts (failed e h) never = never
  first_and_rest P t ts (done r h) (end, ((p, first), rest)) =
      (end, (p, λ u x. elim [ inl e ↦ λ lx. first u x (inl e) lx | inr l ↦ λ lx. rest u x l lx ]))

  pub grant_objects-Ends :
      (o : String) (P : History → Type 0) (ts : List PostgresIdentifier)
      → KeptByGrants P
      → ((t : PostgresIdentifier) → Listed t ts → Listed t g.spec.tables)
      → Ends P
          (grant_objects w g o (wanted_privileges g.spec.table_privileges) (map qualified ts))
          (λ r h. (r ≡ finished) × (P h × AllowsAll ts h))
  unfolding grant_objects grant_query
  grant_objects-Ends o P [] kept among = λ h p. (refl, (p, λ t x l. elim l [ ]))
  grant_objects-Ends o P (t ∷ ts) kept among =
      let here : Listed t g.spec.tables = among t (inl refl) in
      let P' : History → Type 0 = λ h. P h × AllowsAll (t ∷ []) h in
      attempt-Triple (λ _. P') Never Never (λ r h. (r ≡ finished) × (P h × AllowsAll (t ∷ ts) h)) P
        (do_exec w (sent t) []) _ _
        (perform-Ends P (λ _. P') (exec (sent t) []) (λ h. w.executed h (sent t) []) tt
          (λ h p. server.accepts h t _ here grantable)
          (λ h p. (
            kept h t here p,
            λ u x. elim [
              | inl e ↦ λ lx.
                  subst (λ v. Allows v x (exec (sent t) [] ∷ h)) (sym e)
                    (server.after_grant h t _ x here grantable
                      (wanted_privileges-Names g.spec.table_privileges x lx))
              | inr l ↦ elim l [ ]
            ],
          )))
        (λ e h never. absurd never)
        (λ _ h p'.
          first_and_rest P t ts
            (grant_objects w g o (wanted_privileges g.spec.table_privileges) (map qualified ts) h)
            (grant_objects-Ends o P' ts
              (λ h u l p. (kept h u l p.0, AllowsAll-KeptByGrants (t ∷ []) h u l p.1))
              (λ u l. among u (inr l)) h p'))
