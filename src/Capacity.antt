-- ===== src/Capacity.antt =====
-- pkg/capacity: the boundary to the providers of GPU nodes.
mod Provider
mod Registry
pub mod Cache
pub mod Static
pub mod Bootstrap
pub mod Memory
pub mod Aws
pub mod Gcp
pub mod Prices
pub mod Contract
pub mod Factories
pub use Provider.*
mod Tests
