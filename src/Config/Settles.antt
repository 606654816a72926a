-- ===== src/Config/Settles.antt =====
-- What the API server has stored once a config was reconciled.
use mathlib.Core.List.{append_assoc}
use postgres_config_operator.Base.{
  String, List, [], ◌∷◌, ◌++◌, ◌≡◌, refl, sym, ap, subst, ◌∙◌, ◌↔◌, inl, inr, ◌⊎◌, map, All, Listed,
  arith, length,
}
use postgres_config_operator.Api.{PostgresConfig, PostgresPublication, PostgresRef, Publication}
use postgres_config_operator.Effects.{
  History, create_resource, delete_resource, update_resource, wrap,
}
use postgres_config_operator.Effects.Hoare.{Triple, bind-Triple, perform-Triple, wrap-Triple}
use postgres_config_operator.Effects.World.{World, do_create, do_delete, do_update}
use postgres_config_operator.Config.{
  create_publications, delete_publications, desired_name, resource_of, spec_name, update_from,
}
use postgres_config_operator.Config.Apply.{at_index-length, length_next}
use postgres_config_operator.Config.Store.{
  IsApart, IsBuilt, Listed-without_iff, on_ok, replace, replace-All, replace-names,
  resource_name_of, stored, without, without-All,
}

abbrev pub AfterCreates : (String → Type 0) → List Publication → String → Type 0
AfterCreates S [] = S
AfterCreates S (p ∷ ps) = AfterCreates (λ n. (n ≡ p.name) ⊎ S n) ps

abbrev pub AfterDeletes : (String → Type 0) → List PostgresPublication → String → Type 0
AfterDeletes S [] = S
AfterDeletes S (p ∷ ps) = AfterDeletes (λ n. S n × (¬ (n ≡ spec_name p))) ps

pub AfterCreates-iff :
    (n : String) (S : String → Type 0) (ps : List Publication)
    → AfterCreates S ps n ↔ (Listed n (map desired_name ps) ⊎ S n)
AfterCreates-iff n S [] = (λ s. inr s, elim [ inl l ↦ elim l [ ] | inr s ↦ s ])
AfterCreates-iff n S (p ∷ ps) =
    let rest = AfterCreates-iff n (λ m. (m ≡ p.name) ⊎ S m) ps in
    (
      λ a. elim (rest.0 a) [
        | inl l ↦ inl (inr l)
        | inr (inl e) ↦ inl (inl e)
        | inr (inr s) ↦ inr s
      ],
      elim [
        | inl (inl e) ↦ rest.1 (inr (inl e))
        | inl (inr l) ↦ rest.1 (inl l)
        | inr s ↦ rest.1 (inr (inr s))
      ],
    )

pub AfterDeletes-iff :
    (n : String) (S : String → Type 0) (ps : List PostgresPublication)
    → AfterDeletes S ps n ↔ (S n × (¬ Listed n (map spec_name ps)))
AfterDeletes-iff n S [] = (λ s. (s, λ l. l), λ a. a.0)
AfterDeletes-iff n S (p ∷ ps) =
    let rest = AfterDeletes-iff n (λ m. S m × (¬ (m ≡ spec_name p))) ps in
    (
      λ a. let (s, gone) = rest.0 a in (s.0, elim [ inl e ↦ s.1 e | inr l ↦ gone l ]),
      λ a. rest.1 ((a.0, λ e. a.1 (inl e)), λ l. a.1 (inr l)),
    )

pub tails_equal : {x y : String} {xs ys : List String} → x ∷ xs ≡ y ∷ ys → xs ≡ ys
tails_equal e = cc

module _ (w : World) (initial : List PostgresPublication) (config : PostgresConfig)
    (ref : PostgresRef) (InPlay : String → Type 0) (apart : IsApart config.metadata.name InPlay)
    (Kept : String → Type 0) where
  abbrev pub Built : PostgresPublication → Type 0
  Built p = IsBuilt config.metadata.name InPlay p

  -- The publications in a store are built by the config, and their names are those of the set.
  abbrev pub Has : (String → Type 0) → List PostgresPublication → Type 0
  Has S s = All Built s × ((n : String) → Listed n (map spec_name s) ↔ S n)

  abbrev pub At : (String → Type 0) → History → Type 0
  At S h = Has S (stored w initial h)

  abbrev pub Safe : History → Type 0
  Safe h = (n : String) → Kept n → Listed n (map spec_name (stored w initial h))

  Safe_of_Has :
      (S : String → Type 0) (s : List PostgresPublication)
      → Has S s
      → ((n : String) → Kept n → S n)
      → (n : String) → Kept n
      → Listed n (map spec_name s)
  Safe_of_Has S s a keep n k = (a.1 n).1 (keep n k)

  pub create-Triple :
      (S : String → Type 0) (ps : List Publication)
      → All (λ p. InPlay p.name) ps
      → ((n : String) → Kept n → S n)
      → Triple (At S) (create_publications w config ps ref) (λ _. At (AfterCreates S ps)) Safe
  unfolding create_publications
  create-Triple S [] play keep = λ h a. a
  create-Triple S (p ∷ ps) play keep =
      let r = resource_of w config ref p in
      let S' : String → Type 0 = λ n. (n ≡ p.name) ⊎ S n in
      bind-Triple (λ _. At S') Safe (λ _. At (AfterCreates S' ps)) (At S)
        (wrap "failed to create publication resource" (do_create w r)) _
        (wrap-Triple (λ _. At S') Safe (At S) _ _
          (perform-Triple (At S) (λ _. At S') Safe (create_resource r) (λ h. w.created h r)
            (λ _ h a s.
              subst (Has S')
                (ap (λ x. on_ok x (r ∷ stored w initial h) (stored w initial h)) (sym s))
                ((record { named = refl; in_play = play.0 }, a.0), λ n. ground (arith, a.1 n)))
            (λ _ h a s.
              subst (λ l. (n : String) → Kept n → Listed n (map spec_name l))
                (ap (λ x. on_ok x (r ∷ stored w initial h) (stored w initial h)) (sym s))
                (Safe_of_Has S _ a keep))))
        (λ _. create-Triple S' ps play.1 (λ n k. inr (keep n k)))

  pub update-Triple :
      (S : String → Type 0) (front cs : List PostgresPublication) (ps : List Publication)
      → All Built cs
      → All (λ p. InPlay p.name) ps
      → map spec_name cs ≡ map desired_name ps
      → ((n : String) → Kept n → S n)
      → Triple (At S) (update_from w config (front ++ cs) (length front) ps ref) (λ _. At S) Safe
  unfolding update_from
  update-Triple S front [] [] b play e keep = λ h a. a
  update-Triple S front [] (p ∷ ps) b play e keep = cc
  update-Triple S front (c ∷ cs) [] b play e keep = cc
  update-Triple S front (c ∷ cs) (p ∷ ps) b play e keep = λ h a.
      let there : PostgresPublication = record c { spec = (resource_of w config ref p).spec } in
      let same : spec_name c ≡ p.name = cc in
      let built : Built there = record {
        named = b.0.named ∙ ap (resource_name_of config.metadata.name) same;
        in_play = play.0;
      } in
      rw at_index-length (
        bind-Triple (λ _. At S) Safe (λ _. At S) (At S)
          (wrap "failed to update publication resource" (do_update w there)) _
          (wrap-Triple (λ _. At S) Safe (At S) _ _
            (perform-Triple (At S) (λ _. At S) Safe (update_resource there)
              (λ h'. w.updated h' there)
              (λ _ h' a' s.
                let s' = stored w initial h' in
                subst (Has S) (ap (λ x. on_ok x (replace there s') s') (sym s)) (
                  replace-All config.metadata.name InPlay apart there s' built a'.0,
                  λ n.
                      rw (replace-names config.metadata.name InPlay apart there s' built a'.0)
                        (a'.1 n),
                ))
              (λ _ h' a' s.
                let s' = stored w initial h' in
                subst (λ l. (n : String) → Kept n → Listed n (map spec_name l))
                  (ap (λ x. on_ok x (replace there s') s') (sym s)) (Safe_of_Has S s' a' keep))))
          (λ _.
            rw (append_assoc, length_next front c) at
              (update-Triple S (front ++ c ∷ []) cs ps b.1 play.1 (tails_equal e) keep))
          h a)

  pub delete-Triple :
      (S : String → Type 0) (ps : List PostgresPublication)
      → All Built ps
      → All (λ p. (n : String) → Kept n → ¬ (n ≡ spec_name p)) ps
      → ((n : String) → Kept n → S n)
      → Triple (At S) (delete_publications w ps) (λ _. At (AfterDeletes S ps)) Safe
  unfolding delete_publications
  delete-Triple S [] b unkept keep = λ h a. a
  delete-Triple S (p ∷ ps) b unkept keep =
      let S' : String → Type 0 = λ n. S n × (¬ (n ≡ spec_name p)) in
      bind-Triple (λ _. At S') Safe (λ _. At (AfterDeletes S' ps)) (At S)
        (wrap "failed to delete publication resource" (do_delete w p)) _
        (wrap-Triple (λ _. At S') Safe (At S) _ _
          (perform-Triple (At S) (λ _. At S') Safe (delete_resource p) (λ h. w.deleted h p)
            (λ _ h a s.
              let s' = stored w initial h in
              subst (Has S') (ap (λ x. on_ok x (without p s') s') (sym s)) (
                without-All config.metadata.name InPlay apart p s' a.0,
                λ n. ground (
                  arith,
                  a.1 n,
                  Listed-without_iff config.metadata.name InPlay apart n p s' b.0 a.0,
                ),
              ))
            (λ _ h a s.
              let s' = stored w initial h in
              subst (λ l. (n : String) → Kept n → Listed n (map spec_name l))
                (ap (λ x. on_ok x (without p s') s') (sym s)) (Safe_of_Has S s' a keep))))
        (λ _. delete-Triple S' ps b.1 unkept.1 (λ n k. (keep n k, unkept.0 n k)))
