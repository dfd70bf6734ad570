-- ===== src/Retry/Signal.antt =====
-- `FailureSignal`, `FailurePackage` and `RetryRecord` of app/orchestration/retry.py.
use project_os.Base.{
  ℕ, String, Bool, true, false, not, ◌||◌, Option, none, some, List, [], ◌==◌, elem, distinct, any,
  ltb, is_blank, Result, ok, ◌>>◌, refuse_if, if◌then◌else◌, string_eq,
}
use mathlib.Core.Int.{ℤ}
use Prim.Native.String.{◌++◌ as ◌++ₜ◌}
use project_os.Retry.Kinds.{
  FailureKind, RecoveryAction, RetryScope, SandboxStatus, sandbox_value, passed, failed, timed_out,
  setup_failed, test_failure, sandbox_timeout, sandbox_setup,
}

pub record FailureSignal : Type 0 where
  pub kind : FailureKind
  pub summary : String
  pub evidence_id : Option String
  pub validator : Option String
  pub field_path : Option String
  pub code : Option String
  pub input_digest : Option String
  pub artifact_digest : Option String
  pub retry_hint : Option String
  pub retryable : Bool
  pub scope : String
  pub requires_control_plane : Bool
  pub related_work_item_ids : List String
  pub related_artifact_refs : List String

-- FailureSignal(kind, summary), with the defaults of the other fields
abbrev pub signal_of : FailureKind → String → FailureSignal
signal_of kind summary = record {
  kind = kind;
  summary = summary;
  evidence_id = none;
  validator = none;
  field_path = none;
  code = none;
  input_digest = none;
  artifact_digest = none;
  retry_hint = none;
  retryable = true;
  scope = "current_work_item";
  requires_control_plane = false;
  related_work_item_ids = [];
  related_artifact_refs = [];
}

pub record FailurePackage : Type 0 where
  pub signal : FailureSignal
  pub check_id : Option String
  pub runtime_profile : Option String
  pub exit_code : Option ℤ
  pub stdout_excerpt : String
  pub stderr_excerpt : String
  pub repair_paths : List String
  pub forbidden_rework : List String
  pub unsatisfied_constraints : List String
  pub satisfied_constraints : List String
  pub repair_scope : List String
  pub owner_files : List String

pub record RetryRecord : Type 0 where
  pub scope : RetryScope
  pub subject_id : String
  pub attempt : ℕ
  pub max_attempts : ℕ
  pub action : RecoveryAction
  pub failure : FailureSignal
  pub root_work_item_id : Option String
  pub interrupted_work_item_ids : List String
  pub created_at : String

-- The `ValueError`s of `RetryRecord.__post_init__`.
pub data RecordError : Type 0 where
  blank_subject attempt_below_one blank_root blank_interrupted : RecordError
  repeated_interrupted root_is_interrupted : RecordError

abbrev some_blank : Option String → Bool
some_blank none = false
some_blank (some s) = is_blank s

abbrev some_elem : Option String → List String → Bool
some_elem none ids = false
some_elem (some s) ids = elem s ids

-- RetryRecord(...): the record, if its fields pass
unfoldable pub retry_record : RetryRecord → Result RecordError RetryRecord
retry_record r = do
  refuse_if (is_blank r.subject_id) blank_subject
  refuse_if (ltb r.attempt 1 || ltb r.max_attempts 1) attempt_below_one
  refuse_if (some_blank r.root_work_item_id) blank_root
  refuse_if (any is_blank r.interrupted_work_item_ids) blank_interrupted
  refuse_if (not (distinct r.interrupted_work_item_ids)) repeated_interrupted
  refuse_if (some_elem r.root_work_item_id r.interrupted_work_item_ids) root_is_interrupted
  ok r

-- message or f"sandbox check 返回 {status.value}"
abbrev summary_or : String → Option String → String
summary_or default none = default
summary_or default (some message) = if message == "" then default else message

abbrev sandbox_kind : SandboxStatus → Option FailureKind
sandbox_kind passed = none
sandbox_kind failed = some test_failure
sandbox_kind timed_out = some sandbox_timeout
sandbox_kind setup_failed = some sandbox_setup

-- The signal of a sandbox check: none if it passed.
unfoldable pub sandbox_failure_signal :
    SandboxStatus → String → Option String → Option FailureSignal
sandbox_failure_signal status evidence_id message = elim (sandbox_kind status) [
  | none ↦ none
  | some kind ↦
      let summary = summary_or ("sandbox check 返回 " ++ₜ sandbox_value status) message in
      some (record (signal_of kind summary) { evidence_id = some evidence_id })
]
