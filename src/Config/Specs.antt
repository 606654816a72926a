-- ===== src/Config/Specs.antt =====
-- The specs that the API server has stored once a config was reconciled.
use mathlib.Core.List.{append_assoc}
use postgres_config_operator.Base.{
  String, List, [], ◌∷◌, ◌++◌, ◌≡◌, refl, sym, ap, subst, ◌∙◌, inl, inr, ◌⊎◌, map, All, Listed,
  length, ◌==◌, Bool-cases,
}
use postgres_config_operator.Api.{PostgresConfig, PostgresPublication, Publication}
use postgres_config_operator.Effects.{
  History, create_resource, delete_resource, update_resource, wrap,
}
use postgres_config_operator.Effects.Hoare.{Triple, bind-Triple, perform-Triple, wrap-Triple}
use postgres_config_operator.Effects.World.{World, do_create, do_delete, do_update}
use postgres_config_operator.Config.{
  create_publications, delete_publications, desired_name, resource_of, spec_name, update_from,
}
use postgres_config_operator.Config.Apply.{at_index-length, length_next}
use postgres_config_operator.Config.Settles.{tails_equal}
use postgres_config_operator.Config.Store.{
  All-without, IsBuilt, differ_name, on_ok, replace, resource_name, resource_name_of, stored,
  without,
}

-- The spec is the one that the config builds from a publication that it lists.
abbrev pub IsWanted : World → PostgresConfig → PostgresPublication → Type 0
IsWanted w config p =
    (d : Publication) × Listed d config.spec.publications
    × (p.spec ≡ (resource_of w config config.spec.postgres_ref d).spec)

abbrev pub AfterUpdates : (String → Type 0) → List Publication → String → Type 0
AfterUpdates T [] = T
AfterUpdates T (p ∷ ps) = AfterUpdates (λ n. T n × (¬ (n ≡ p.name))) ps

pub AfterUpdates-names :
    (n : String) (T : String → Type 0) (ps : List Publication)
    → AfterUpdates T ps n
    → T n × (¬ Listed n (map desired_name ps))
AfterUpdates-names n T [] t = (t, λ l. elim l [ ])
AfterUpdates-names n T (p ∷ ps) t =
    let ((old, other), rest) = AfterUpdates-names n (λ m. T m × (¬ (m ≡ p.name))) ps t in
    (old, elim [ inl e ↦ other e | inr l ↦ rest l ])

-- Nothing is said of a reconciliation that fails.
abbrev pub Anyhow : History → Type 0
Anyhow h = Unit

module _ (w : World) (initial : List PostgresPublication) (config : PostgresConfig)
    (InPlay : String → Type 0) where
  abbrev Built : PostgresPublication → Type 0
  Built p = IsBuilt config.metadata.name InPlay p

  -- Built by the config from what it lists, or not updated yet
  abbrev pub Fresh : (String → Type 0) → PostgresPublication → Type 0
  Fresh T p = Built p × (IsWanted w config p ⊎ T (spec_name p))

  abbrev pub AllFresh : (String → Type 0) → History → Type 0
  AllFresh T h = All (Fresh T) (stored w initial h)

  replace-Fresh :
      (T : String → Type 0) (p : PostgresPublication) (s : List PostgresPublication)
      → Built p
      → IsWanted w config p
      → All (Fresh T) s
      → All (Fresh (λ n. T n × (¬ (n ≡ spec_name p)))) (replace p s)
  replace-Fresh T p [] built wanted fresh = tt
  replace-Fresh T p (q ∷ qs) built wanted fresh =
      let rest = replace-Fresh T p qs built wanted fresh.1 in
      elim (Bool-cases (resource_name q == resource_name p)) [
        | inl same ↦ rw same ((built, inl wanted), rest)
        | inr other ↦
            let apart = differ_name config.metadata.name InPlay p q built fresh.0.0 other in
            rw other
              ((fresh.0.0, elim fresh.0.1 [ inl new ↦ inl new | inr old ↦ inr (old, apart) ]), rest)
      ]

  pub create-Fresh :
      (T : String → Type 0) (ps : List Publication)
      → All (λ p. InPlay p.name) ps
      → All (λ p. Listed p config.spec.publications) ps
      → Triple
          (AllFresh T)
          (create_publications w config ps config.spec.postgres_ref)
          (λ _. AllFresh T)
          Anyhow
  unfolding create_publications
  create-Fresh T [] play listed = λ h fresh. fresh
  create-Fresh T (p ∷ ps) play listed =
      let r = resource_of w config config.spec.postgres_ref p in
      bind-Triple (λ _. AllFresh T) Anyhow (λ _. AllFresh T) (AllFresh T)
        (wrap "failed to create publication resource" (do_create w r)) _
        (wrap-Triple (λ _. AllFresh T) Anyhow (AllFresh T) "failed to create publication resource"
          (do_create w r)
          (perform-Triple (AllFresh T) (λ _. AllFresh T) Anyhow (create_resource r)
            (λ h. w.created h r)
            (λ _ h fresh s.
              subst (All (Fresh T))
                (ap (λ x. on_ok x (r ∷ stored w initial h) (stored w initial h)) (sym s))
                ((record { named = refl; in_play = play.0 }, inl (p, listed.0, refl)), fresh))
            (λ _ h fresh s. tt)))
        (λ _. create-Fresh T ps play.1 listed.1)

  pub update-Fresh :
      (T : String → Type 0) (front cs : List PostgresPublication) (ps : List Publication)
      → All Built cs
      → All (λ p. InPlay p.name) ps
      → All (λ p. Listed p config.spec.publications) ps
      → map spec_name cs ≡ map desired_name ps
      → Triple
          (AllFresh T)
          (update_from w config (front ++ cs) (length front) ps config.spec.postgres_ref)
          (λ _. AllFresh (AfterUpdates T ps))
          Anyhow
  unfolding update_from
  update-Fresh T front [] [] built play listed e = λ h fresh. fresh
  update-Fresh T front [] (p ∷ ps) built play listed e = cc
  update-Fresh T front (c ∷ cs) [] built play listed e = cc
  update-Fresh T front (c ∷ cs) (p ∷ ps) built play listed e = λ h fresh.
      let there : PostgresPublication = record c {
        spec = (resource_of w config config.spec.postgres_ref p).spec;
      } in
      let same : spec_name c ≡ p.name = cc in
      let named : Built there = record {
        named = built.0.named ∙ ap (resource_name_of config.metadata.name) same;
        in_play = play.0;
      } in
      let T' : String → Type 0 = λ n. T n × (¬ (n ≡ p.name)) in
      rw at_index-length (
        bind-Triple (λ _. AllFresh T') Anyhow (λ _. AllFresh (AfterUpdates T' ps)) (AllFresh T)
          (wrap "failed to update publication resource" (do_update w there)) _
          (wrap-Triple (λ _. AllFresh T') Anyhow (AllFresh T)
            "failed to update publication resource" (do_update w there)
            (perform-Triple (AllFresh T) (λ _. AllFresh T') Anyhow (update_resource there)
              (λ h'. w.updated h' there)
              (λ _ h' fresh' s.
                let s' = stored w initial h' in
                subst (All (Fresh T')) (ap (λ x. on_ok x (replace there s') s') (sym s))
                  (replace-Fresh T there s' named (p, listed.0, refl) fresh'))
              (λ _ h' fresh' s. tt)))
          (λ _.
            rw (append_assoc, length_next front c) at
              (update-Fresh T' (front ++ c ∷ []) cs ps built.1 play.1 listed.1 (tails_equal e)))
          h fresh)

  pub delete-Fresh :
      (T : String → Type 0) (ps : List PostgresPublication)
      → Triple (AllFresh T) (delete_publications w ps) (λ _. AllFresh T) Anyhow
  unfolding delete_publications
  delete-Fresh T [] = λ h fresh. fresh
  delete-Fresh T (p ∷ ps) =
      bind-Triple (λ _. AllFresh T) Anyhow (λ _. AllFresh T) (AllFresh T)
        (wrap "failed to delete publication resource" (do_delete w p)) _
        (wrap-Triple (λ _. AllFresh T) Anyhow (AllFresh T) "failed to delete publication resource"
          (do_delete w p)
          (perform-Triple (AllFresh T) (λ _. AllFresh T) Anyhow (delete_resource p)
            (λ h. w.deleted h p)
            (λ _ h fresh s.
              let s' = stored w initial h in
              subst (All (Fresh T)) (ap (λ x. on_ok x (without p s') s') (sym s))
                (All-without (Fresh T) p s' fresh))
            (λ _ h fresh s. tt)))
        (λ _. delete-Fresh T ps)
