-- ===== src/E2e.antt =====
-- test/e2e: the programs that the end-to-end tests run against the cluster, the engine that
-- answers in place of vLLM (fakevllm) and the clients of the gateway (loadgen).
pub mod FakeVllm
pub mod LoadGen
mod Tests
