-- ===== src/Plan/Edges.antt =====
-- `ExecutionPlan._validate_artifact_edges` (app/orchestration/plan.py): producer and consumer agree.
use project_os.Base.{
  String, not, ◌||◌, Option, none, some, List, [], ◌∷◌, ◌==◌, string_eq, option_eq, elem,
  if◌then◌else◌, Result, ok, raise, ◌>>=◌, ◌>>◌, refuse_if,
}
use project_os.Execution.{
  ArtifactRef, partitioned, integration, quality_gate, mode_eq, or_else, ref_id,
}
use project_os.Contracts.{WorkItemDeliveryContract, contract_for}
use project_os.WorkItem.{WorkItem, role_of}
use project_os.Plan.{ExecutionPlan, by_id}
use project_os.Plan.Delivery.{DeliveryError}
use project_os.Plan.Ancestors.{found, unknown, spent, ancestors}

-- The `ValueError`s of `ExecutionPlan.__post_init__`. A missing key of `by_id` is a `KeyError`.
pub data PlanError : Type 0 where
  blank_id blank_goal no_work_items blank_template blank_process bad_scope : PlanError
  repeated_item_id : PlanError
  contract_errors : List DeliveryError → PlanError
  unknown_dependency gate_awaits_no_candidate : String → PlanError
  cyclic : List String → PlanError
  gate_producer no_producer not_awaited wrong_place protocol_differs : String → PlanError
  key_error : String → PlanError
  out_of_fuel : PlanError

-- by_id[key]
abbrev get_item : List WorkItem → Option String → Result PlanError WorkItem
get_item items none = raise (key_error "None")
get_item items (some key) = elim (by_id key items) [
  | none ↦ raise (key_error key)
  | some item ↦ ok item
]

abbrev check_gate : List WorkItem → WorkItem → Result PlanError (Unit {0})
check_gate items item = if not (item.execution_mode == quality_gate) then ok tt else do
  producer ← get_item items item.candidate_from_work_item_id
  refuse_if
      (not (producer.execution_mode == integration)
        || not (producer.publish_target == item.publish_target))
      (gate_producer item.id)

-- producer.artifact_key or producer.output_key
abbrev delivered_key : WorkItem → String
delivered_key item = or_else item.output_key item.artifact_key

abbrev kind_of : Option WorkItemDeliveryContract → Option (Option String)
kind_of none = none
kind_of (some contract) = some contract.output_artifact_kind

-- One staged input of an integration item, of this trace.
abbrev check_producer :
    WorkItem
    → Option String
    → List String
    → ArtifactRef
    → Option WorkItem
    → Result PlanError (Unit {0})
check_producer item kind upstream ref none = raise (no_producer (ref_id ref))
check_producer item kind upstream ref (some producer) = do
  refuse_if (not (elem producer.id upstream)) (not_awaited producer.id)
  refuse_if
      (not (producer.execution_mode == partitioned)
        || not (producer.slot == ref.slot)
        || not (delivered_key producer == ref.artifact_key))
      (wrong_place (ref_id ref))
  refuse_if (not (kind_of (contract_for (role_of producer)) == some kind))
      (protocol_differs producer.id)

abbrev find_item : List WorkItem → Option String → Option WorkItem
find_item items none = none
find_item items (some key) = by_id key items

abbrev check_inputs :
    List WorkItem
    → String
    → WorkItem
    → Option String
    → List String
    → List ArtifactRef
    → Result PlanError (Unit {0})
check_inputs items trace_id item kind upstream [] = ok tt
check_inputs items trace_id item kind upstream (ref ∷ refs) =
    let rest = check_inputs items trace_id item kind upstream refs in
    if not (ref.layer == "staged")
    then rest
    else if not (ref.trace_id == some trace_id)
    then rest
    else check_producer item kind upstream ref (find_item items ref.work_item_id) >> rest

abbrev check_consumer :
    List WorkItem
    → String
    → WorkItem
    → Option WorkItemDeliveryContract
    → Result PlanError (Unit {0})
check_consumer items trace_id item none = ok tt
check_consumer items trace_id item (some contract) =
    if not (item.execution_mode == integration) then ok tt else elim (ancestors items item) [
      | found upstream ↦
          check_inputs items trace_id item contract.output_artifact_kind upstream item.input_refs
      | unknown key ↦ raise (key_error key)
      | spent ↦ raise out_of_fuel
    ]

abbrev check_edges : List WorkItem → String → List WorkItem → Result PlanError (Unit {0})
check_edges items trace_id [] = ok tt
check_edges items trace_id (item ∷ rest) = do
  check_gate items item
  check_consumer items trace_id item (contract_for (role_of item))
  check_edges items trace_id rest

unfoldable pub validate_artifact_edges : ExecutionPlan → Result PlanError (Unit {0})
validate_artifact_edges plan = check_edges plan.work_items plan.trace.trace_id plan.work_items
