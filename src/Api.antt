-- ===== src/Api.antt =====
-- The custom resources of api/v1alpha1/opencoda_types.go, one record for each Go struct, with the
-- scalar types that they use.
mod Base
mod Pool
mod Policy
mod Endpoint
mod Workload
pub mod Cluster
pub mod Sample
pub use Base.*
pub use Pool.*
pub use Policy.*
pub use Endpoint.*
pub use Workload.*
