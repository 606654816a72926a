-- ===== src/Manager/Keeping.antt =====
-- Properties of the history that both managers keep, whatever statements they send.
use postgres_config_operator.Base.{String, List, [], ◌∷◌}
use postgres_config_operator.Errors.{has_code}
use postgres_config_operator.Api.{PostgresPublication}
use postgres_config_operator.Effects.{History, M, Argument, exec}
use postgres_config_operator.Effects.Hoare.{
  Keeps, attempt-Keeps, bind-Keeps, if-Keeps, wrap-Keeps, perform-Keeps, answer-Keeps,
}
use postgres_config_operator.Effects.World.{World, do_exec}
use postgres_config_operator.Manager.{Manager, created_or_known, duplicate_object}
use postgres_config_operator.Manager.Std
use postgres_config_operator.Manager.Std.{std_manager}
use postgres_config_operator.Manager.Aiven
use postgres_config_operator.Manager.Aiven.{aiven_manager}

-- Every operation of the manager keeps the property.
pub record IsKeeper (P : History → Type 0) (m : Manager) : Type 0 where
  pub create_keeps : (p : PostgresPublication) → Keeps P (m.create_publication p)
  pub alter_keeps : (p : PostgresPublication) → Keeps P (m.alter_existing_publication p)
  pub drop_keeps : (name : String) → Keeps P (m.drop_publication name)

module _ (P : History → Type 0)
    (on_exec : (sql : String) (args : List Argument) (h : History) → P h → P (exec sql args ∷ h))
    (w : World) where
  pub exec-Keeps : (sql : String) (args : List Argument) → Keeps P (do_exec w sql args)
  exec-Keeps sql args = perform-Keeps P _ (λ h. w.executed h sql args) (on_exec sql args)

  created_or_known-Keeps : (m : M (Unit {0})) → Keeps P m → Keeps P (created_or_known m)
  unfolding created_or_known
  created_or_known-Keeps m keep =
      attempt-Keeps P m _ _ keep
        (λ e. if-Keeps P (has_code e duplicate_object) _ _ (λ h g. g) (λ h g. g)) (λ _ h g. g)

  escape-Keeps : (s : String) → Keeps P (Std.escape w s)
  escape-Keeps s h g = answer-Keeps P (w.escape_string h s) h g

  pub alter-Keeps : (p : PostgresPublication) → Keeps P (Std.alter_existing_publication w p)
  unfolding Std.alter_existing_publication
  alter-Keeps p = bind-Keeps P _ _ (wrap-Keeps P _ _ (exec-Keeps _ _)) (λ _.
      bind-Keeps P _ _ (wrap-Keeps P _ _ (escape-Keeps _)) (λ _. wrap-Keeps P _ _ (exec-Keeps _ _)))

  with_part-Keeps : (ops : List String) → Keeps P (Std.with_part w ops)
  unfolding Std.with_part
  with_part-Keeps [] h g = g
  with_part-Keeps (o ∷ os) h g =
      bind-Keeps P _ _ (wrap-Keeps P _ _ (escape-Keeps _)) (λ _ h' g'. g') h g

  pub create-Keeps : (p : PostgresPublication) → Keeps P (Std.create_publication w p)
  unfolding Std.create_publication
  create-Keeps p =
      bind-Keeps P _ _
        (wrap-Keeps P _ _ (bind-Keeps P _ _ (with_part-Keeps p.spec.operations) (λ _ h g. g)))
        (λ q. created_or_known-Keeps _ (exec-Keeps q []))

  pub aiven_create-Keeps : (p : PostgresPublication) → Keeps P (Aiven.create_publication w p)
  unfolding Aiven.create_publication
  aiven_create-Keeps p = created_or_known-Keeps _ (exec-Keeps _ _)

  drop-Keeps : (name : String) → Keeps P (Std.drop_publication w name)
  unfolding Std.drop_publication
  drop-Keeps name = wrap-Keeps P _ _ (exec-Keeps _ _)

  pub std_manager-IsKeeper : IsKeeper P (std_manager w)
  unfolding std_manager
  std_manager-IsKeeper = record {
    create_keeps = create-Keeps;
    alter_keeps = alter-Keeps;
    drop_keeps = drop-Keeps;
  }

  pub aiven_manager-IsKeeper : IsKeeper P (aiven_manager w)
  unfolding aiven_manager
  aiven_manager-IsKeeper = record {
    create_keeps = aiven_create-Keeps;
    alter_keeps = alter-Keeps;
    drop_keeps = drop-Keeps;
  }
