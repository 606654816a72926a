-- ===== src/DeepCopy.antt =====
-- `api/v1alpha1/zz_generated.deepcopy.go`
pub mod Memory
pub mod Kinds
pub mod Parts
pub mod Structs
pub mod Resources
pub mod Gives
pub mod Copier
pub mod Slices
pub mod Pointers
pub mod Specs
pub mod Grants
pub mod Objects
pub mod Apart
pub mod Promises
pub mod Samples
pub mod Lists
mod Tests
