-- ===== src/Plan/Init.antt =====
-- `ExecutionPlan.__post_init__` and `_ensure_acyclic` (app/orchestration/plan.py).
use project_os.Base.{
  String, Bool, false, not, ◌&&◌, Option, none, some, List, [], ◌∷◌, ◌==◌, string_eq, option_eq,
  elem, Result, ok, raise, ◌>>◌, refuse_if, is_blank, is_empty, distinct, subset, length,
}
use project_os.Execution.{quality_gate, mode_eq}
use project_os.WorkItem.{WorkItem, dependency_ids}
use project_os.Graph.{Peeled, resolved_all, cycle, spent, peel}
use project_os.Plan.{ExecutionPlan, item_ids, dependencies}
use project_os.Plan.Delivery.{DeliveryError, validate_plan}
use project_os.Plan.Edges.{
  PlanError, blank_id, blank_goal, no_work_items, blank_template, blank_process, bad_scope,
  repeated_item_id, contract_errors, unknown_dependency, gate_awaits_no_candidate, cyclic,
  out_of_fuel, validate_artifact_edges,
}

abbrev some_blank : Option String → Bool
some_blank none = false
some_blank (some s) = is_blank s

-- item.candidate_from_work_item_id in item.dependency_ids
abbrev awaits_candidate : WorkItem → Bool
awaits_candidate item = elim item.candidate_from_work_item_id [
  | none ↦ false
  | some candidate ↦ elem candidate (dependency_ids item)
]

-- The loop over the items: dependencies are known, and a quality gate waits for its candidate.
unfoldable pub check_items : List String → List WorkItem → Result PlanError (Unit {0})
check_items known [] = ok tt
check_items known (item ∷ items) = do
  refuse_if (not (subset (dependency_ids item) known)) (unknown_dependency item.id)
  refuse_if (item.execution_mode == quality_gate && not (awaits_candidate item))
      (gate_awaits_no_candidate item.id)
  check_items known items

abbrev pub as_check : Peeled String → Result PlanError (Unit {0})
as_check (resolved_all order) = ok tt
as_check (cycle left) = raise (cyclic left)
as_check spent = raise out_of_fuel

-- _ensure_acyclic, with a round of fuel for each item
unfoldable pub ensure_acyclic : List WorkItem → Result PlanError (Unit {0})
unfolding peel
ensure_acyclic items = as_check (peel (length (dependencies items)) [] (dependencies items))

abbrev pub no_errors : List DeliveryError → Result PlanError (Unit {0})
no_errors [] = ok tt
no_errors (error ∷ errors) = raise (contract_errors (error ∷ errors))

-- The checks of the plan's own fields.
unfoldable pub check_fields : ExecutionPlan → Result PlanError (Unit {0})
check_fields plan = do
  refuse_if (is_blank plan.id) blank_id
  refuse_if (is_blank plan.goal) blank_goal
  refuse_if (is_empty plan.work_items) no_work_items
  refuse_if (some_blank plan.template_id) blank_template
  refuse_if (is_blank plan.process_id) blank_process
  refuse_if
      (not (elem plan.validation_scope ("full_delivery" ∷ "architecture" ∷ "vertical_slice" ∷ [])))
      bad_scope

-- ExecutionPlan(...)
unfoldable pub validate : ExecutionPlan → Result PlanError (Unit {0})
validate plan = do
  check_fields plan
  refuse_if (not (distinct (item_ids plan.work_items))) repeated_item_id
  no_errors (validate_plan plan.work_items)
  check_items (item_ids plan.work_items) plan.work_items
  ensure_acyclic plan.work_items
  validate_artifact_edges plan
