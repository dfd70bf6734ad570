-- ===== src/Retry.antt =====
-- Failure attribution and bounded recovery (app/orchestration/retry.py): the kinds of failure, the
-- policy that chooses a recovery action, and the append-only ledger that counts the retries.
pub mod Kinds
pub mod Signal
pub mod Policy
pub mod Ledger
pub mod Verdict
pub mod Serial
