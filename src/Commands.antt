-- ===== src/Commands.antt =====
-- cmd/ and cli/: what each program is made of when it starts, and the subcommands of coda. Parsing
-- the flags, the connection to the cluster and signals are the frameworks' work.
pub mod Cli
pub mod Gateway
pub mod Manager
pub mod NodeAgent
mod Tests
