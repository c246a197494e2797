-- ===== src/Scheduler.antt =====
-- pkg/scheduler/scheduler.go and pkg/scheduler/greedy/greedy.go: the plan of a buffer fill. The
-- children hold the types, the sort interface, the greedy scheduler and what is proved of it.
mod Types
pub mod Sort
pub mod Greedy
pub mod Filling
pub mod Order
mod Tests
pub use Types.*
