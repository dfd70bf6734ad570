-- ===== src/Patch/Apply.antt =====
-- `apply_patch` (app/planner/patch.py): the items of the patched plan, the plan, and what it
-- invalidates.
use project_os.Base.{
  ℕ, suc, String, Bool, not, ◌||◌, Option, none, some, List, [], ◌∷◌, ◌++◌, ◌==◌, string_eq,
  option_eq, elem, subset, filter, find?, length, Result, ok, raise, ◌>>=◌, ◌>>◌, refuse_if, sorted,
  unique, decimal, two_digits, if◌then◌else◌, false,
}
use Prim.Native.String.{◌++◌ as ◌+++◌}
use text.Mathlib.Text.{starts_with}
use project_os.WorkItem.{WorkItem, Digest}
use project_os.WorkItem.Init.{init}
use project_os.Plan.{ExecutionPlan, item_ids, dependencies}
use project_os.Plan.Init.{validate}
use project_os.Agents.{AgentDefinition}
use project_os.Patch.{
  PatchOperation, PlanPatch, ChangeBudget, default_budget, PatchError, incomplete_addition,
  unknown_agent, unknown_dependency, id_taken, item_error, plan_error, out_of_fuel, raising, given,
  modified, added, addition,
}
use project_os.Patch.Checks.{check_patch, remove_ids_of, dependency_changes}
use project_os.Patch.Downstream.{spread}

pub record AppliedPlanPatch : Type 0 where
  pub plan : ExecutionPlan
  pub invalidated_work_item_ids : List String
  pub added_work_item_ids : List String
  pub removed_work_item_ids : List String
  pub dependency_change_count : ℕ

-- The items and the ids that are invalidated so far.
pub record Draft : Type 0 where
  pub next_items : List WorkItem
  pub invalidated : List String

-- WorkItem(...) of a modified item: every argument is the item's but the objective. The tools are
-- not passed on.
abbrev pub revised : Option String → WorkItem → WorkItem
revised objective item = record item {
  objective = elim objective [
    | none ↦ item.objective
    | some text ↦ if text == "" then item.objective else text
  ];
  required_tools = [];
  legacy_contract_digest = false;
}

-- next((candidate for candidate in modified if candidate.work_item_id == item.id), None)
abbrev pub change_of : List PatchOperation → WorkItem → Option PatchOperation
change_of changes item = find? (λ op. op.work_item_id == some item.id) changes

abbrev pub keep : WorkItem → Draft → Draft
keep item draft = record draft { next_items = item ∷ draft.next_items }

abbrev pub replace : WorkItem → Draft → Draft
replace item draft = record {
  next_items = item ∷ draft.next_items;
  invalidated = item.id ∷ draft.invalidated;
}

abbrev pub drop_item : WorkItem → Draft → Draft
drop_item item draft = record draft { invalidated = item.id ∷ draft.invalidated }

-- What becomes of one item.
abbrev pub revise_item :
    Digest → List String → List PatchOperation → WorkItem → Result PatchError (Draft → Draft)
revise_item digest remove_ids changes item =
    if elem item.id remove_ids then ok (drop_item item) else elim (change_of changes item) [
      | none ↦ ok (keep item)
      | some op ↦ do
        made ← raising item_error (init digest (revised op.objective item))
        ok (replace made)
    ]

-- for item in plan.work_items
unfoldable pub revise_items :
    Digest → List String → List PatchOperation → List WorkItem → Result PatchError Draft
revise_items digest remove_ids changes [] = ok (record { next_items = []; invalidated = [] })
revise_items digest remove_ids changes (item ∷ items) = do
  step ← revise_item digest remove_ids changes item
  draft ← revise_items digest remove_ids changes items
  ok (step draft)

abbrev pub text_of : Option String → String
text_of none = ""
text_of (some text) = text

-- f"wi-patch-{index:02d}-{definition.output_key}"
abbrev pub patch_id : ℕ → AgentDefinition → String
patch_id index definition = "wi-patch-" +++ two_digits index +++ "-" +++ definition.output_key

-- f"{definition.output_key}_patch_{index:02d}"
abbrev pub patch_output_key : ℕ → AgentDefinition → String
patch_output_key index definition = definition.output_key +++ "_patch_" +++ two_digits index

-- The patched plan. The process and the validation scope are not passed on.
abbrev pub patched_plan : ExecutionPlan → PlanPatch → List WorkItem → ExecutionPlan
patched_plan plan patch items = record {
  id = plan.id +++ "-patch-" +++ decimal (length patch.operations);
  goal = plan.goal;
  work_items = items;
  template_id = plan.template_id;
  process_id = "software_delivery";
  trace = plan.trace;
  validation_scope = "full_delivery";
}

-- The loop over the dependants, with a round of fuel for each item and one to stop.
abbrev pub invalidate : List WorkItem → List String → Result PatchError (List String)
invalidate items changed =
    elim (spread (suc (length (dependencies items))) (dependencies items) changed) [
      | none ↦ raise out_of_fuel
      | some invalidated ↦ ok invalidated
    ]

abbrev pub report : ExecutionPlan → PlanPatch → ExecutionPlan → List String → AppliedPlanPatch
report plan patch next invalidated = record {
  plan = next;
  invalidated_work_item_ids = sorted (unique invalidated);
  added_work_item_ids = filter (λ key. starts_with key "wi-patch-") (item_ids next.work_items);
  removed_work_item_ids = sorted (unique (remove_ids_of patch.operations));
  dependency_change_count = dependency_changes plan.work_items patch.operations;
}

-- budget or ChangeBudget()
abbrev pub budget_or_default : Option ChangeBudget → ChangeBudget
budget_or_default none = default_budget
budget_or_default (some budget) = budget

module _ (digest : Digest) (agents : String → Option AgentDefinition) where
  -- One addition, where the items so far have the ids `existing`.
  abbrev pub add_item : ℕ → List String → PatchOperation → Result PatchError WorkItem
  add_item index existing op = do
    refuse_if (not (given op.ref) || not (given op.agent_id) || not (given op.objective))
        incomplete_addition
    elim (agents (text_of op.agent_id)) [
      | none ↦ raise (unknown_agent (text_of op.agent_id))
      | some definition ↦ do
        refuse_if (not (subset op.depends_on existing)) unknown_dependency
        refuse_if (elem (patch_id index definition) existing) (id_taken (patch_id index definition))
        raising item_error (
            init digest (
              addition (patch_id index definition) (text_of op.agent_id) (text_of op.objective)
                definition (patch_output_key index definition) op.depends_on))
    ]

  -- for index, op in enumerate(added, start=1)
  unfoldable pub add_items :
      ℕ → List String → List PatchOperation → Result PatchError (List WorkItem)
  add_items index existing [] = ok []
  add_items index existing (op ∷ operations) = do
    item ← add_item index existing op
    rest ← add_items (suc index) (existing ++ item.id ∷ []) operations
    ok (item ∷ rest)

  -- What is made, after the guards.
  unfoldable pub build_patch : ExecutionPlan → PlanPatch → Result PatchError AppliedPlanPatch
  build_patch plan patch = do
    draft ←
        revise_items digest (remove_ids_of patch.operations) (modified patch.operations)
          plan.work_items
    additions ← add_items 1 (item_ids draft.next_items) (added patch.operations)
    let items = draft.next_items ++ additions
    invalidated ← invalidate items (draft.invalidated ++ item_ids additions)
    raising plan_error (validate (patched_plan plan patch items))
    ok (report plan patch (patched_plan plan patch items) invalidated)

  unfoldable pub apply_patch :
      ExecutionPlan
      → PlanPatch
      → List String
      → Bool
      → Option ChangeBudget
      → Result PatchError AppliedPlanPatch
  apply_patch plan patch completed allow_completed_revision budget = do
    check_patch digest plan patch completed allow_completed_revision (budget_or_default budget)
    build_patch plan patch
