-- ===== src/Grading.antt =====
-- Grading of SOMA task instances (src/soma_bench/benchmark/soma_task_eval.py).
pub mod Report
pub mod Verdict
pub mod Diff
pub mod Evaluation
mod Tests
