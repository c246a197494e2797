-- ===== src/Kv.antt =====
-- pkg/kv: the boundary to the key-value cache with its registry, and its two providers.
mod Types
pub mod LmCache
pub mod Null
pub mod Fingerprint
unfoldable pub use Types.*
