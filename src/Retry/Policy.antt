-- ===== src/Retry/Policy.antt =====
-- `RetryLimits` and `RetryPolicy` of app/orchestration/retry.py.
use project_os.Base.{
  List, insert, ℕ, ◌+◌, Bool, not, ◌||◌, Option, none, some, [], ◌∷◌, ◌==◌, elem, leb,
  if◌then◌else◌, Dict, lookup,
}
use project_os.Retry.Kinds.{
  FailureKind, RecoveryAction, retry_item, resume, request_replan, block, fail, kind_eq,
}
use project_os.Retry.Signal.{FailureSignal}

pub record RetryLimits : Type 0 where
  pub max_total_retries : ℕ
  pub max_retries_per_work_item : ℕ
  pub max_retries_by_kind : Dict FailureKind ℕ

-- RetryLimits(), the defaults
abbrev pub default_limits : RetryLimits
default_limits = record {
  max_total_retries = 12;
  max_retries_per_work_item = 2;
  max_retries_by_kind =
      (FailureKind.agent_runtime, 1)
      ∷ (FailureKind.provider_transport, 1)
      ∷ (FailureKind.provider_empty_response, 1)
      ∷ (FailureKind.provider_terminal_missing, 1)
      ∷ (FailureKind.sandbox_timeout, 1)
      ∷ (FailureKind.test_failure, 0)
      ∷ (FailureKind.sandbox_setup, 0)
      ∷ (FailureKind.test_evidence_missing, 1)
      ∷ (FailureKind.implementation_summary_missing, 1)
      ∷ (FailureKind.repair_no_file_change, 1)
      ∷ (FailureKind.runtime_preflight, 0)
      ∷ (FailureKind.architecture_contract_missing, 2)
      ∷ (FailureKind.architecture_schema_validation, 1)
      ∷ (FailureKind.tool_contract_mismatch, 0)
      ∷ (FailureKind.artifact_contract_violation, 1)
      ∷ (FailureKind.artifact_commit_failure, 0)
      ∷ (FailureKind.code_delivery_incomplete, 2)
      ∷ (FailureKind.tool_execution, 1)
      ∷ (FailureKind.planner_validation, 1)
      ∷ (FailureKind.provider_stall, 1)
      ∷ (FailureKind.worker_timeout, 1)
      ∷ (FailureKind.worker_crash, 1)
      ∷ (FailureKind.worker_bootstrap_failure, 0)
      ∷ [];
}

abbrev or_zero : Option ℕ → ℕ
or_zero none = 0
or_zero (some n) = n

-- dict(pairs), which has the last value of a key, added to a dict
abbrev dict_with : Dict FailureKind ℕ → List (FailureKind × ℕ) → Dict FailureKind ℕ
dict_with d [] = d
dict_with d ((kind, retries) ∷ pairs) = dict_with (insert kind retries d) pairs

unfoldable pub max_retries_for : RetryLimits → FailureKind → ℕ
max_retries_for limits kind = or_zero (lookup kind (dict_with [] limits.max_retries_by_kind))

unfoldable pub max_attempts_for : RetryLimits → FailureKind → ℕ
unfolding max_retries_for
max_attempts_for limits kind = max_retries_for limits kind + 1

unfoldable pub max_work_item_attempts : RetryLimits → ℕ
max_work_item_attempts limits = limits.max_retries_per_work_item + 1

-- The `if` ladder of `action_for`, read from its end: what follows once no limit is reached.
abbrev within_limits : FailureKind → RecoveryAction
within_limits kind =
    if elem kind
      (FailureKind.provider_stall ∷ FailureKind.worker_timeout ∷ FailureKind.worker_crash ∷ [])
    then resume
    else if kind == FailureKind.sandbox_timeout
    then retry_item
    else if kind == FailureKind.test_evidence_missing
    then retry_item
    else if kind == FailureKind.implementation_summary_missing
    then retry_item
    else if kind == FailureKind.repair_no_file_change
    then retry_item
    else if kind == FailureKind.agent_runtime
    then retry_item
    else if elem kind (
        FailureKind.provider_transport ∷ FailureKind.provider_empty_response
        ∷ FailureKind.provider_terminal_missing ∷ [])
    then retry_item
    else if kind == FailureKind.architecture_contract_missing
    then retry_item
    else if kind == FailureKind.architecture_schema_validation
    then retry_item
    else if kind == FailureKind.artifact_contract_violation
    then retry_item
    else if kind == FailureKind.code_delivery_incomplete
    then retry_item
    else if kind == FailureKind.planner_validation
    then retry_item
    else fail

-- A counter has reached its limit.
abbrev pub is_exhausted :
    RetryLimits → FailureKind → (total_retries item_retries kind_retries : ℕ) → Bool
is_exhausted limits kind total_retries item_retries kind_retries =
    leb limits.max_total_retries total_retries
    || leb limits.max_retries_per_work_item item_retries
    || leb (max_retries_for limits kind) kind_retries

-- RetryPolicy.action_for
unfoldable pub action_for :
    RetryLimits → FailureSignal → (total_retries item_retries kind_retries : ℕ) → RecoveryAction
action_for limits signal total_retries item_retries kind_retries =
    if not signal.retryable
    then block
    else if elem signal.kind (
        FailureKind.sandbox_setup ∷ FailureKind.worker_bootstrap_failure
        ∷ FailureKind.tool_contract_mismatch ∷ FailureKind.artifact_commit_failure ∷ [])
    then block
    else if signal.kind == FailureKind.test_failure
    then request_replan
    else if is_exhausted limits signal.kind total_retries item_retries kind_retries
    then fail
    else within_limits signal.kind
