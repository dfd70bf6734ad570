-- ===== src/NodeResult.antt =====
-- `NodeResult` (app/orchestration/node_result.py) and the `AgentResult` that it is made from
-- (app/agent/result.py).
pub mod Serial
use project_os.Base.{
  String, ◌≡◌, refl, Option, none, some, List, [], ◌∷◌, find?, Eq, ◌==◌, Enum, enum_eq, string_eq,
  is_blank, Result, ok, ◌>>◌, refuse_if,
}
use project_os.Retry.Signal.{FailureSignal}

pub data AgentStatus : Type 0 where
  completed needs_capability : AgentStatus

pub data NodeStatus : Type 0 where
  completed needs_capability needs_replan failed : NodeStatus

abbrev pub status_value : NodeStatus → String
status_value NodeStatus.completed = "completed"
status_value NodeStatus.needs_capability = "needs_capability"
status_value NodeStatus.needs_replan = "needs_replan"
status_value NodeStatus.failed = "failed"

abbrev pub statuses : List NodeStatus
statuses =
    NodeStatus.completed ∷ NodeStatus.needs_capability ∷ NodeStatus.needs_replan ∷ NodeStatus.failed
    ∷ []

pub status_found :
    (a : NodeStatus) → find? (λ b. status_value b == status_value a) statuses ≡ some a
status_found NodeStatus.completed = refl
status_found _ = refl

abbrev pub status_enum : Enum NodeStatus
status_enum = record { value = status_value; members = statuses; found = status_found }

instance abbrev pub status_eq : Eq NodeStatus
status_eq = enum_eq status_enum

pub record CapabilityRequest : Type 0 where
  pub capability : String
  pub reason : String

pub record AgentResult : Type 0 where
  pub status : AgentStatus
  pub content : Option String
  pub capability_request : Option CapabilityRequest

pub record NodeResult : Type 0 where
  pub work_item_id : String
  pub agent_id : String
  pub status : NodeStatus
  pub content : Option String
  pub capability_request : Option CapabilityRequest
  pub failure_signal : Option FailureSignal
  pub error : Option String

-- work_item_id is blank
pub data NodeResultError : Type 0 where
  blank_work_item_id : NodeResultError

abbrev bare : String → String → NodeStatus → NodeResult
bare work_item_id agent_id status = record {
  work_item_id = work_item_id;
  agent_id = agent_id;
  status = status;
  content = none;
  capability_request = none;
  failure_signal = none;
  error = none;
}

module _ (work_item_id agent_id : String) where
  -- _validate_work_item_id
  abbrev checked : NodeResult → Result NodeResultError NodeResult
  checked result = do refuse_if (is_blank work_item_id) blank_work_item_id; ok result

  -- NodeResult.failed
  unfoldable pub failed_result : String → Result NodeResultError NodeResult
  failed_result error =
      checked (record (bare work_item_id agent_id NodeStatus.failed) { error = some error })

  -- NodeResult.completed
  unfoldable pub completed_result : String → Result NodeResultError NodeResult
  completed_result content =
      checked (record (bare work_item_id agent_id NodeStatus.completed) { content = some content })

  -- NodeResult.needs_replan
  unfoldable pub needs_replan_result :
      Option String → FailureSignal → Result NodeResultError NodeResult
  needs_replan_result content signal =
      checked (record (bare work_item_id agent_id NodeStatus.needs_replan) {
        content = content;
        failure_signal = some signal;
      })

  abbrev of_status : AgentResult → AgentStatus → NodeResult
  of_status result AgentStatus.completed =
      record (bare work_item_id agent_id NodeStatus.completed) { content = result.content }
  of_status result AgentStatus.needs_capability =
      record (bare work_item_id agent_id NodeStatus.needs_capability) {
        capability_request = result.capability_request;
      }

  -- NodeResult.from_agent_result; the statuses are exhausted, so its last `return` is not reached
  unfoldable pub from_agent_result : AgentResult → Result NodeResultError NodeResult
  from_agent_result result = checked (of_status result result.status)
