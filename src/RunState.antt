-- ===== src/RunState.antt =====
-- `RunState` (app/orchestration/state.py): the results of one run of a plan.
pub mod Invariant
pub mod Record
pub mod Progress
pub mod Complete
use project_os.Base.{
  String, Bool, true, false, not, ◌&&◌, ◌||◌, Option, none, some, List, [], ◌∷◌, ◌==◌, string_eq,
  nat_eq, elem, all, filter, length, map, if◌then◌else◌, Result, ok, raise, ◌>>=◌, ◌>>◌, refuse_if,
  Dict, lookup, has_key, insert, erase, keys, Json,
}
use project_os.WorkItem.{WorkItem, dependency_ids}
use project_os.NodeResult
use project_os.NodeResult.{NodeResult, NodeStatus, status_eq}
use project_os.Plan.{ExecutionPlan}

pub record RunState : Type 0 where
  pub plan : ExecutionPlan
  pub node_results : Dict String NodeResult
  pub artifacts : Dict String String
  pub forced_rerun_work_item_ids : List String
  pub recovery_diagnostics : Dict String String
  pub retry_recovery_contexts : Dict String Json

-- RunState(plan=plan)
abbrev pub start : ExecutionPlan → RunState
start plan = record {
  plan = plan;
  node_results = [];
  artifacts = [];
  forced_rerun_work_item_ids = [];
  recovery_diagnostics = [];
  retry_recovery_contexts = [];
}

abbrev pub is_completed : NodeResult → Bool
is_completed result = result.status == NodeStatus.completed

-- self.node_results.get(dependency) is not None and its status is COMPLETED
abbrev pub has_completed : RunState → String → Bool
has_completed state key = elim (lookup key state.node_results) [
  | none ↦ false
  | some result ↦ is_completed result
]

abbrev pub is_ready : RunState → WorkItem → Bool
is_ready state item =
    not (has_key item.id state.node_results) && all (has_completed state) (dependency_ids item)

unfoldable pub ready_items : RunState → List WorkItem
ready_items state = filter (is_ready state) state.plan.work_items

pub data RecordError : Type 0 where
  result_mismatch already_recorded : RecordError

-- What a completed result discharges, and the artifact that it brings.
abbrev pub stored : WorkItem → Option String → Dict String String → Dict String String
stored item none artifacts = artifacts
stored item (some content) artifacts = insert item.output_key content artifacts

abbrev pub discharge : WorkItem → NodeResult → RunState → RunState
discharge item result state = record state {
  forced_rerun_work_item_ids =
      filter (λ key. not (item.id == key)) state.forced_rerun_work_item_ids;
  recovery_diagnostics = erase item.id state.recovery_diagnostics;
  retry_recovery_contexts = erase item.id state.retry_recovery_contexts;
  artifacts = stored item result.content state.artifacts;
}

-- RunState.record
unfoldable pub record_result : WorkItem → NodeResult → RunState → Result RecordError RunState
record_result item result state = do
  refuse_if (not (result.work_item_id == item.id) || not (result.agent_id == item.agent_id))
      result_mismatch
  refuse_if (has_key item.id state.node_results) already_recorded
  let recorded = record state { node_results = insert item.id result state.node_results }
  ok (if is_completed result then discharge item result recorded else recorded)

unfoldable pub is_complete : RunState → Bool
is_complete state =
    length state.node_results == length state.plan.work_items
    && all (λ entry. is_completed entry.1) state.node_results
