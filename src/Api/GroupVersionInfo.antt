-- ===== src/Api/GroupVersionInfo.antt =====
-- `GroupVersion` of `api/v1alpha1/groupversion_info.go`
use postgres_config_operator.Base.{String}

pub record GroupVersion : Type 0 where
  pub group : String
  pub version : String

abbrev pub group_version : GroupVersion
group_version = record { group = "postgres.glints.com"; version = "v1alpha1" }
