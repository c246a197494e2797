-- ===== src/Engine.antt =====
-- pkg/engine: the interface of an inference engine with its registry, and the one engine.
mod Types
pub mod Vllm
unfoldable pub use Types.*
