-- ===== src/Runner/Recovery.antt =====
-- `GraphRunner._recovery_action` and `_record_retry_decision` (app/orchestration/runner.py), with a
-- ledger. Both run under the runner's lock.
pub mod Budget
use project_os.Base.{ℕ, String, some, [], List, Result, ok, raise, ◌>>=◌}
use project_os.Retry.Kinds.{RecoveryAction, RetryScope, work_item}
use project_os.Retry.Signal.{FailureSignal, RetryRecord, RecordError, retry_record}
use project_os.Retry.Policy.{RetryLimits, action_for, max_work_item_attempts}
use project_os.Retry.Ledger.{
  Ledger, append, budget_count, budget_count_for_work_item, budget_count_for_kind, next_attempt,
}

-- The clock is read for `created_at`.
module _ (limits : RetryLimits) (created_at : String) (item_id : String)
    (signal : FailureSignal) where
  unfoldable pub record_retry_decision : RecoveryAction → Ledger → Result RecordError Ledger
  record_retry_decision action ledger = do
    r ← retry_record (record {
      scope = work_item;
      subject_id = item_id;
      attempt = next_attempt work_item item_id ledger;
      max_attempts = max_work_item_attempts limits;
      action = action;
      failure = signal;
      root_work_item_id = some item_id;
      interrupted_work_item_ids = [];
      created_at = created_at;
    })
    ok (append ledger r)

  -- The counters are read from the ledger, not from the caller's.
  unfoldable pub recovery_action : Ledger → Result RecordError (RecoveryAction × Ledger)
  recovery_action ledger = do
    let action =
        action_for limits signal (budget_count ledger) (budget_count_for_work_item item_id ledger)
          (budget_count_for_kind item_id signal.kind ledger)
    ledger' ← record_retry_decision action ledger
    ok (action, ledger')
