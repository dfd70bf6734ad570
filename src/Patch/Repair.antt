-- ===== src/Patch/Repair.antt =====
-- `apply_repair_patch` (app/planner/patch.py): a plan of the repair items only.
pub mod Ordered
use project_os.Base.{
  ℕ, suc, String, Bool, not, ◌&&◌, ◌||◌, Option, none, some, List, [], ◌∷◌, ◌++◌, map, ◌==◌,
  string_eq, elem, subset, Result, ok, raise, ◌>>=◌, ◌>>◌, refuse_if, two_digits, if◌then◌else◌,
  is_empty, Dict, lookup, insert,
}
use Prim.Native.String.{◌++◌ as ◌+++◌}
use project_os.WorkItem.{WorkItem, Digest}
use project_os.WorkItem.Init.{init, ItemError}
use project_os.Plan.{ExecutionPlan, item_ids}
use project_os.Plan.Edges.{PlanError}
use project_os.Plan.Init.{validate}
use project_os.Agents.{AgentDefinition}
use project_os.Patch.{PatchOperation, RepairPlanPatch, raising, given, is_add, addition}
use project_os.Patch.Apply.{text_of}

-- The errors: those of `PlanPatchError`, and the `ValueError`s of the items and of the plan.
pub data RepairError : Type 0 where
  base_differs unknown_scope incomplete_operation repeated_ref : RepairError
  unknown_agent later_dependency id_taken : String → RepairError
  item_error : ItemError → RepairError
  plan_error : PlanError → RepairError

-- refs, ref_to_id and additions
pub record Repairs : Type 0 where
  pub refs : List String
  pub ref_to_id : Dict String String
  pub additions : List WorkItem

-- f"wi-repair-{index:02d}-{definition.output_key}"
abbrev pub repair_id : ℕ → AgentDefinition → String
repair_id index definition = "wi-repair-" +++ two_digits index +++ "-" +++ definition.output_key

-- f"{definition.output_key}_repair_{index:02d}"
abbrev pub repair_output_key : ℕ → AgentDefinition → String
repair_output_key index definition = definition.output_key +++ "_repair_" +++ two_digits index

-- ref_to_id.get(dependency, dependency)
abbrev pub resolve_ref : Dict String String → String → String
resolve_ref ref_to_id dependency = elim (lookup dependency ref_to_id) [
  | none ↦ dependency
  | some key ↦ key
]

-- for dependency in operation.depends_on
abbrev pub resolve_all : Repairs → List String → Result RepairError (List String)
resolve_all repairs [] = ok []
resolve_all repairs (dependency ∷ rest) = do
  let key = resolve_ref repairs.ref_to_id dependency
  refuse_if (not (elem key (item_ids repairs.additions))) (later_dependency dependency)
  keys ← resolve_all repairs rest
  ok (key ∷ keys)

abbrev pub append_item : String → WorkItem → Repairs → Repairs
append_item ref item repairs = record {
  refs = ref ∷ repairs.refs;
  ref_to_id = insert ref item.id repairs.ref_to_id;
  additions = repairs.additions ++ item ∷ [];
}

module _ (digest : Digest) (agents : String → Option AgentDefinition)
    (original_ids : List String) where
  -- The work item of an operation whose agent is known.
  abbrev pub repair_item :
      ℕ → Repairs → PatchOperation → AgentDefinition → Result RepairError WorkItem
  repair_item index repairs operation definition = do
    dependencies ← resolve_all repairs operation.depends_on
    refuse_if
        (elem (repair_id index definition) original_ids
          || elem (repair_id index definition) (item_ids repairs.additions))
        (id_taken (repair_id index definition))
    raising item_error (
        init digest (
          addition (repair_id index definition) (text_of operation.agent_id)
            (text_of operation.objective) definition (repair_output_key index definition)
            dependencies))

  -- One operation.
  abbrev pub repair_step : ℕ → Repairs → PatchOperation → Result RepairError Repairs
  repair_step index repairs operation = do
    refuse_if
        (not (is_add operation)
          || not (given operation.ref)
          || not (given operation.agent_id)
          || not (given operation.objective))
        incomplete_operation
    refuse_if (elem (text_of operation.ref) repairs.refs) repeated_ref
    elim (agents (text_of operation.agent_id)) [
      | none ↦ raise (unknown_agent (text_of operation.agent_id))
      | some definition ↦ do
        item ← repair_item index repairs operation definition
        ok (append_item (text_of operation.ref) item repairs)
    ]

  -- for index, operation in enumerate(patch.operations, start=1)
  unfoldable pub repair_all : ℕ → Repairs → List PatchOperation → Result RepairError Repairs
  repair_all index repairs [] = ok repairs
  repair_all index repairs (operation ∷ operations) = do
    next ← repair_step index repairs operation
    repair_all (suc index) next operations

abbrev pub no_repairs : Repairs
no_repairs = record { refs = []; ref_to_id = []; additions = [] }

-- plan_id or f"{plan.id}-repair"
abbrev pub repair_plan_id : Option String → ExecutionPlan → String
repair_plan_id plan_id plan = if given plan_id then text_of plan_id else plan.id +++ "-repair"

abbrev pub repair_plan : Option String → ExecutionPlan → List WorkItem → ExecutionPlan
repair_plan plan_id plan items = record {
  id = repair_plan_id plan_id plan;
  goal = plan.goal;
  work_items = items;
  template_id = none;
  process_id = "software_delivery";
  trace = plan.trace;
  validation_scope = "full_delivery";
}

unfoldable pub apply_repair_patch :
    Digest
    → (String → Option AgentDefinition)
    → ExecutionPlan
    → RepairPlanPatch
    → Option String
    → Result RepairError ExecutionPlan
apply_repair_patch digest agents plan patch plan_id = do
  refuse_if (not (patch.base_plan_id == plan.id)) base_differs
  refuse_if
      (not (is_empty patch.repair_scope)
        && not (subset patch.repair_scope (item_ids plan.work_items)))
      unknown_scope
  repairs ← repair_all digest agents (item_ids plan.work_items) 1 no_repairs patch.operations
  raising plan_error (validate (repair_plan plan_id plan repairs.additions))
  ok (repair_plan plan_id plan repairs.additions)
