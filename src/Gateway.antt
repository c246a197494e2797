-- ===== src/Gateway.antt =====
-- internal/gateway: the router and the autoscaler, the tokens, the synchronisation with the
-- cluster and the HTTP handlers, which Threads takes apart into their steps.
pub mod Router
pub mod Autoscaler
pub mod Token
pub mod Metrics
pub mod Sync
pub mod Server
pub mod Threads
mod Tests
