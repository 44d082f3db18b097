-- ===== src/Broker.antt =====
-- The sandbox's exec broker
-- (src/soma_bench/benchmark/backends/copilot/copilot-cli-container/swe_exec_broker.py).
pub mod Buffer
pub mod Stream
pub mod Exec
pub mod Handler
mod Tests
