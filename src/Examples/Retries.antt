-- ===== src/Examples/Retries.antt =====
-- Decisions about one failing work item.
use project_os.Base.{
  ℕ, ◌≡◌, ◌<◌, refl, true, [], ◌∷◌, some, if◌then◌else◌, ok, arith, string_eq, is_blank,
}
use project_os.Retry.Kinds.{
  RecoveryAction, agent_runtime, worker_timeout, tool_execution, work_item, retry_item, resume,
  block, fail, kind_eq,
}
use project_os.Retry.Signal.{FailureSignal, RetryRecord, signal_of, retry_record}
use project_os.Retry.Policy.{
  default_limits, max_retries_for, action_for, max_work_item_attempts, is_exhausted,
}
use project_os.Retry.Ledger.{
  Ledger, append, budget_count, budget_count_for_work_item, budget_count_for_kind, next_attempt,
}
use project_os.Retry.Verdict.{action_for_lem, action_for_spends, outcome, treatment}
use project_os.Runner.Recovery.{recovery_action, record_retry_decision}
use project_os.Runner.Recovery.Budget.{WithinBudget, recovery_action-WithinBudget}

abbrev crash : FailureSignal
crash = signal_of agent_runtime "The agent stopped."

abbrev decision : ℕ → RecoveryAction → RetryRecord
decision attempt action = record {
  scope = work_item;
  subject_id = "part";
  attempt = attempt;
  max_attempts = 3;
  action = action;
  failure = crash;
  root_work_item_id = some "part";
  interrupted_work_item_ids = [];
  created_at = "2026-01-01T00:00:00+00:00";
}

-- The first crash is retried, the second is not.
abbrev once : Ledger
once = decision 1 retry_item ∷ []

abbrev twice : Ledger
twice = decision 1 retry_item ∷ decision 2 fail ∷ []

first_crash :
    recovery_action default_limits "2026-01-01T00:00:00+00:00" "part" crash []
    ≡ ok (retry_item, once)
unfolding recovery_action record_retry_decision retry_record is_blank next_attempt
    max_work_item_attempts action_for append budget_count budget_count_for_work_item max_retries_for
    budget_count_for_kind
first_crash = refl

second_crash :
    recovery_action default_limits "2026-01-01T00:00:00+00:00" "part" crash once ≡ ok (fail, twice)
unfolding recovery_action record_retry_decision retry_record is_blank next_attempt
    max_work_item_attempts action_for append budget_count budget_count_for_work_item max_retries_for
    budget_count_for_kind
second_crash = refl

empty-WithinBudget : WithinBudget default_limits []
unfolding budget_count budget_count_for_work_item budget_count_for_kind
empty-WithinBudget = record {
  total = omega arith;
  of_item = λ id. omega arith;
  of_kind = λ id kind. omega arith;
}

once-WithinBudget : WithinBudget default_limits once
unfolding is_blank
once-WithinBudget =
    recovery_action-WithinBudget default_limits "2026-01-01T00:00:00+00:00" "part" crash []
      {action = retry_item} {ledger' = once} refl empty-WithinBudget first_crash

recovery_action-WithinBudget_example : WithinBudget default_limits twice
unfolding is_blank
recovery_action-WithinBudget_example =
    recovery_action-WithinBudget default_limits "2026-01-01T00:00:00+00:00" "part" crash once
      {action = fail} {ledger' = twice} refl once-WithinBudget second_crash

action_for_lem_example : action_for default_limits (signal_of worker_timeout "No answer.") 3 1 0 ≡ (
    if true
    then outcome (treatment worker_timeout) (is_exhausted default_limits worker_timeout 3 1 0)
    else block)
action_for_lem_example = action_for_lem default_limits 3 1 0 (signal_of worker_timeout "No answer.")

resumes : action_for default_limits (signal_of worker_timeout "No answer.") 3 1 0 ≡ resume
unfolding action_for max_retries_for
resumes = refl

action_for_spends_example : (3 < 12) × (1 < 2) × (0 < max_retries_for default_limits worker_timeout)
unfolding action_for max_retries_for
action_for_spends_example =
    action_for_spends default_limits 3 1 0 (signal_of worker_timeout "No answer.") refl

-- A failing tool has a budget of one retry, and is not retried.
tool_budget : max_retries_for default_limits tool_execution ≡ 1
unfolding max_retries_for
tool_budget = refl

tool_fails : action_for default_limits (signal_of tool_execution "The tool failed.") 0 0 0 ≡ fail
unfolding action_for max_retries_for
tool_fails = refl
