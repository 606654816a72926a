-- ===== src/Api.antt =====
-- The custom resources of `api/v1alpha1`: the Go structs as records, with the two methods of
-- `PostgresGrant` that read its spec.
mod Common
mod PublicationTypes
mod TableTypes
mod ConfigTypes
mod GrantTypes
mod GroupVersionInfo
pub use Common.*
pub use PublicationTypes.*
pub use TableTypes.*
pub use ConfigTypes.*
pub use GroupVersionInfo.*
unfoldable pub use GrantTypes.*
