-- ===== src/Api/Common.antt =====
-- `api/v1alpha1/common_types.go`, `SecretRef` of `postgresconfig_types.go`, and the part of
-- Kubernetes' object metadata that the controllers read or write.
use postgres_config_operator.Base.{ℕ, String, Bool, List, Option}

-- The keys of a Secret that hold the credentials; an empty text stands for the default key.
pub record SecretRef : Type 0 where
  pub secret_name : String
  pub username_key : String
  pub password_key : String

pub record PostgresRef : Type 0 where
  pub host : String
  pub port : ℕ
  pub database : String
  pub secret_ref : SecretRef
  pub variant : String

pub record PostgresColumn : Type 0 where
  pub name : String
  pub data_type : String
  pub nullable : Bool
  pub primary_key : Bool

pub record PostgresIdentifier : Type 0 where
  pub name : String
  pub schema : String

-- A name within a namespace, by which Kubernetes finds an object.
pub record NamespacedName : Type 0 where
  pub name : String
  pub namespace : String

-- `metav1.OwnerReference`; the controllers write and compare these fields only.
pub record OwnerReference : Type 0 where
  pub api_version : String
  pub kind : String
  pub name : String
  pub controller : Bool

-- The fields of `metav1.ObjectMeta` that the controllers use. `deletion_timestamp` is `none` for
-- the zero time.
pub record ObjectMeta : Type 0 where
  pub name : String
  pub namespace : String
  pub finalizers : List String
  pub deletion_timestamp : Option ℕ
  pub owner_references : List OwnerReference

abbrev pub object_key : ObjectMeta → NamespacedName
object_key m = record { name = m.name; namespace = m.namespace }

-- `metav1.TypeMeta`
pub record TypeMeta : Type 0 where
  pub api_version : String
  pub kind : String
