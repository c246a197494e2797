-- ===== src/Endpoint.antt =====
-- internal/controller/endpoint/endpoint_controller.go: the controller that keeps the replica pods
-- of a CodaEndpoint. The children model its parts; Reconcile puts them together.
pub mod Desired
pub mod Count
pub mod ColdStart
pub mod Build
pub mod Reconcile
pub mod Wiring
mod Tests
