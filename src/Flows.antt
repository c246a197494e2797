-- ===== src/Flows.antt =====
-- What passes from one component to another: the gateway's answer to the endpoint controller
-- (internal/gateway, internal/controller/endpoint), a provider's lack of capacity through the pool
-- controller to the buffer controller's plan (pkg/capacity, internal/controller/pool and buffer), a
-- pod from the endpoint controller to
-- the gateway, and a faulty node from the health controller to the pool controller.
pub mod Replicas
pub mod Ice
pub mod Replica
pub mod Faults
mod Tests
