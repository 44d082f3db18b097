-- ===== src/Runner.antt =====
-- The runs of the task instances (src/soma_bench/benchmark).
pub mod Execution
pub mod Dispatch
pub mod Summary
mod Tests
