-- ===== src/Runner.antt =====
-- The parts of `GraphRunner` (app/orchestration/runner.py) that decide: which ready work items run
-- together, and what follows a failure.
pub mod Recovery
pub mod Batch
