-- ===== src/Capacity/Gcp.antt =====
-- pkg/capacity/gcp/gcp.go. The client is the interface `Compute`; the format's %q, the clock's
-- reading `now` and the same as a number, `unix_nano`, are arguments.
pub mod Types
pub mod Provision
pub mod Handles
