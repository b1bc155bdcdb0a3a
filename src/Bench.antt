-- ===== src/Bench.antt =====
-- features/forkserver/benchmark_client.cc: starts a fork server and times its executions.
pub mod Calls
pub mod Setup
pub mod Measure
pub mod Rounds
pub mod Session
pub mod Whole
mod Tests
