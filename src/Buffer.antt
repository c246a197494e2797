-- ===== src/Buffer.antt =====
-- internal/controller/buffer/buffer_controller.go: the controller that keeps GPUs warm. The API
-- server is the interface `Api` over a world that the capacity providers share; one reading of the
-- clock, `now`, serves a Reconcile.
mod Types
pub mod Desired
pub mod Views
pub mod Provision
pub mod ScaleDown
pub mod Reconcile
mod Tests
pub use Types.*
