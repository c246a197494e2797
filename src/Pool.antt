-- ===== src/Pool.antt =====
-- internal/controller/pool/pool_controller.go: the observed capacity of a GPUPool and the records
-- of its nodes.
pub mod Records
pub mod Reconcile
mod Tests
