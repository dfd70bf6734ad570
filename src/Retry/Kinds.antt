-- ===== src/Retry/Kinds.antt =====
-- The enumerations of app/orchestration/retry.py, and of app/sandbox/result.py.
use project_os.Base.{
  String, ◌≡◌, refl, some, List, [], ◌∷◌, find?, Eq, ◌==◌, Enum, enum_eq, string_eq,
}

pub data FailureKind : Type 0 where
  agent_runtime provider_transport provider_empty_response provider_terminal_missing : FailureKind
  provider_policy_rejected test_failure sandbox_timeout sandbox_setup : FailureKind
  test_evidence_missing implementation_summary_missing repair_no_file_change : FailureKind
  code_delivery_incomplete runtime_preflight architecture_contract_missing : FailureKind
  architecture_schema_validation tool_contract_mismatch artifact_contract_violation : FailureKind
  artifact_commit_failure tool_execution planner_validation provider_stall : FailureKind
  worker_timeout worker_crash worker_bootstrap_failure : FailureKind

pub data RecoveryAction : Type 0 where
  retry_item retry_batch resume request_replan block fail : RecoveryAction

pub data RetryScope : Type 0 where
  planning run batch work_item : RetryScope

pub data SandboxStatus : Type 0 where
  passed failed setup_failed timed_out : SandboxStatus

abbrev pub kind_value : FailureKind → String
kind_value agent_runtime = "agent_runtime"
kind_value provider_transport = "provider_transport"
kind_value provider_empty_response = "provider_empty_response"
kind_value provider_terminal_missing = "provider_terminal_missing"
kind_value provider_policy_rejected = "provider_policy_rejected"
kind_value test_failure = "test_failure"
kind_value sandbox_timeout = "sandbox_timeout"
kind_value sandbox_setup = "sandbox_setup"
kind_value test_evidence_missing = "test_evidence_missing"
kind_value implementation_summary_missing = "implementation_summary_missing"
kind_value repair_no_file_change = "repair_no_file_change"
kind_value code_delivery_incomplete = "code_delivery_incomplete"
kind_value runtime_preflight = "runtime_preflight"
kind_value architecture_contract_missing = "architecture_contract_missing"
kind_value architecture_schema_validation = "architecture_schema_validation"
kind_value tool_contract_mismatch = "tool_contract_mismatch"
kind_value artifact_contract_violation = "artifact_contract_violation"
kind_value artifact_commit_failure = "artifact_commit_failure"
kind_value tool_execution = "tool_execution"
kind_value planner_validation = "planner_validation"
kind_value provider_stall = "provider_stall"
kind_value worker_timeout = "worker_timeout"
kind_value worker_crash = "worker_crash"
kind_value worker_bootstrap_failure = "worker_bootstrap_failure"

abbrev pub kinds : List FailureKind
kinds =
    agent_runtime ∷ provider_transport ∷ provider_empty_response ∷ provider_terminal_missing
    ∷ provider_policy_rejected ∷ test_failure ∷ sandbox_timeout ∷ sandbox_setup
    ∷ test_evidence_missing ∷ implementation_summary_missing ∷ repair_no_file_change
    ∷ code_delivery_incomplete ∷ runtime_preflight ∷ architecture_contract_missing
    ∷ architecture_schema_validation ∷ tool_contract_mismatch ∷ artifact_contract_violation
    ∷ artifact_commit_failure ∷ tool_execution ∷ planner_validation ∷ provider_stall
    ∷ worker_timeout ∷ worker_crash ∷ worker_bootstrap_failure ∷ []

pub kind_found : (a : FailureKind) → find? (λ b. kind_value b == kind_value a) kinds ≡ some a
kind_found agent_runtime = refl
kind_found _ = refl

abbrev pub kind_enum : Enum FailureKind
kind_enum = record { value = kind_value; members = kinds; found = kind_found }

instance abbrev pub kind_eq : Eq FailureKind
kind_eq = enum_eq kind_enum

abbrev pub action_value : RecoveryAction → String
action_value retry_item = "retry_item"
action_value retry_batch = "retry_batch"
action_value resume = "resume"
action_value request_replan = "request_replan"
action_value block = "block"
action_value fail = "fail"

abbrev pub actions : List RecoveryAction
actions = retry_item ∷ retry_batch ∷ resume ∷ request_replan ∷ block ∷ fail ∷ []

pub action_found :
    (a : RecoveryAction) → find? (λ b. action_value b == action_value a) actions ≡ some a
action_found retry_item = refl
action_found _ = refl

abbrev pub action_enum : Enum RecoveryAction
action_enum = record { value = action_value; members = actions; found = action_found }

instance abbrev pub action_eq : Eq RecoveryAction
action_eq = enum_eq action_enum

abbrev pub scope_value : RetryScope → String
scope_value planning = "planning"
scope_value run = "run"
scope_value batch = "batch"
scope_value work_item = "work_item"

abbrev pub scopes : List RetryScope
scopes = planning ∷ run ∷ batch ∷ work_item ∷ []

pub scope_found : (a : RetryScope) → find? (λ b. scope_value b == scope_value a) scopes ≡ some a
scope_found planning = refl
scope_found _ = refl

abbrev pub scope_enum : Enum RetryScope
scope_enum = record { value = scope_value; members = scopes; found = scope_found }

instance abbrev pub scope_eq : Eq RetryScope
scope_eq = enum_eq scope_enum

abbrev pub sandbox_value : SandboxStatus → String
sandbox_value passed = "passed"
sandbox_value failed = "failed"
sandbox_value setup_failed = "setup_failed"
sandbox_value timed_out = "timed_out"
