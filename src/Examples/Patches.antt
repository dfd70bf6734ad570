-- ===== src/Examples/Patches.antt =====
-- A plan of three exclusive items in a chain, and patches of it.
use project_os.Base.{
  String, ◌≡◌, ◌↔◌, ◌⊎◌, ◌≤◌, ◌+◌, refl, true, false, Option, none, some, List, [], ◌∷◌, Memᴰ, ok,
  raise, is_blank, string_eq, elem, length, fnmatch, glob, decimal, two_digits, ends_with,
}
use mathlib.Core.Bool.{xor}
use project_os.Execution.{ref_id}
use project_os.Contracts.{contract_for, required_tools_for}
use project_os.WorkItem.{WorkItem, Digest, compute_contract_digest, contract_payload}
use project_os.WorkItem.Init.{
  init, check_given, check_paths, check_ownership, settle_tools, check_tooled, seal,
  validate_execution_grant,
}
use project_os.WorkItem.Paths.{
  forbidden_covers_allowed, literal_prefix, normalize_path_pattern, pattern_matches, within_pattern,
}
use project_os.Graph.{peel}
use project_os.Plan.{ExecutionPlan, item_ids, dependencies}
use project_os.Plan.Ancestors.{ancestors, ancestors_from}
use project_os.Plan.Delivery.{occupy, outputs, validate_from, validate_plan, validate_work_item}
use project_os.Plan.Edges.{validate_artifact_edges}
use project_os.Plan.Init.{check_fields, check_items, ensure_acyclic, validate}
use project_os.Agents.{AgentDefinition}
use project_os.Patch.{
  PatchKind, modify, add, PatchOperation, PlanPatch, RepairPlanPatch, completed_item, addition,
}
use project_os.Patch.Downstream.{Downstream, spread, spread_lem}
use project_os.Patch.Checks.{
  check_patch, check_digests, check_scope, check_budget, check_targets, check_objectives,
}
use project_os.Patch.Apply.{AppliedPlanPatch, apply_patch, build_patch, revise_items, add_items}
use project_os.Patch.Revisions.{IsRevisionOf}
use project_os.Patch.Kept.{
  is_kept, apply_patch-completed, apply_patch-IsRevisionOf, apply_patch-length,
}
use project_os.Patch.Invalidated.{changed_ids, apply_patch-invalidated}
use project_os.Patch.Repair.{apply_repair_patch, repair_all, later_dependency}
use project_os.Patch.Repair.Ordered.{stands_after, apply_repair_patch-stands_after}
use project_os.Examples.Items.{plain}
use project_os.Examples.Plans.{plan_of}

abbrev digest : Digest
digest payload = payload.output_key

abbrev step : String → List String → WorkItem
step key required = record (plain key required) {
  agent_id = "notes_agent";
  contract_digest = some key;
  output_kind = some "exclusive_artifact";
}

abbrev chain : ExecutionPlan
chain = plan_of (step "draft" [] ∷ step "edit" ("draft" ∷ []) ∷ step "print" ("edit" ∷ []) ∷ [])

abbrev notes : AgentDefinition
notes = record {
  id = "notes_agent";
  domain = "notes";
  description = "Writes notes.";
  output_key = "notes";
  max_parallel_instances = 1;
  artifact_key = none;
}

abbrev agents : String → Option AgentDefinition
agents name = some notes

abbrev operation : PatchKind → PatchOperation
operation kind = record {
  operation = kind;
  work_item_id = none;
  ref = none;
  agent_id = none;
  objective = none;
  repair_paths = [];
  owner_files = [];
  depends_on = [];
}

-- The draft is done; the editor gets a new objective, and an index is added after the draft.
abbrev patch : PlanPatch
patch = record {
  rationale = "The index is missing.";
  schema_version = 1;
  base_plan_id = "plan";
  operations =
      record (operation modify) {
        work_item_id = some "edit";
        objective = some "Edit with an index.";
      }
      ∷ record (operation add) {
        ref = some "index";
        agent_id = some "notes_agent";
        objective = some "Make an index.";
        depends_on = "draft" ∷ [];
      }
      ∷ [];
  repair_scope = [];
}

abbrev index : WorkItem
index =
    record (addition "wi-patch-01-notes" "notes_agent" "Make an index." notes "notes_patch_01"
      ("draft" ∷ [])) {
        contract_digest = some "notes_patch_01";
        output_kind = some "exclusive_artifact";
      }

abbrev edited : WorkItem
edited = record (step "edit" ("draft" ∷ [])) { objective = "Edit with an index." }

-- The patched plan: its process and its scope are those of a delivery, not the plan's.
abbrev patched : ExecutionPlan
patched = record (plan_of (step "draft" [] ∷ edited ∷ step "print" ("edit" ∷ []) ∷ index ∷ [])) {
  id = "plan-patch-2";
  process_id = "software_delivery";
  validation_scope = "full_delivery";
}

abbrev applied : AppliedPlanPatch
applied = record {
  plan = patched;
  invalidated_work_item_ids = "edit" ∷ "print" ∷ "wi-patch-01-notes" ∷ [];
  added_work_item_ids = "wi-patch-01-notes" ∷ [];
  removed_work_item_ids = [];
  dependency_change_count = 0;
}

abbrev done : List String
done = "draft" ∷ []

patch_passes : apply_patch digest agents chain patch done false none ≡ ok applied
unfolding apply_patch check_patch check_digests compute_contract_digest check_scope check_budget
    check_targets check_objectives is_blank build_patch revise_items init check_given check_paths
    forbidden_covers_allowed check_ownership settle_tools xor fnmatch glob decimal two_digits
    ends_with contract_for required_tools_for ref_id peel add_items spread ancestors ancestors_from
    occupy outputs validate_from validate_plan validate_work_item validate_artifact_edges
    check_fields check_items ensure_acyclic validate check_tooled seal validate_execution_grant
    literal_prefix normalize_path_pattern pattern_matches within_pattern contract_payload
patch_passes = refl

-- A completed item may not be modified.
completed_refused :
    apply_patch digest agents chain patch ("edit" ∷ []) false none ≡ raise (completed_item "edit")
unfolding apply_patch check_patch check_digests compute_contract_digest check_scope check_budget
    check_targets is_blank contract_payload ref_id
completed_refused = refl

apply_patch-completed_example : Memᴰ (step "draft" []) patched.work_items
apply_patch-completed_example =
    apply_patch-completed digest agents chain patch done none {applied = applied}
      {item = step "draft" []} patch_passes (Memᴰ.head refl) refl

apply_patch-IsRevisionOf_example :
    ((old : WorkItem) × Memᴰ old chain.work_items × IsRevisionOf old edited)
    ⊎ (is_kept (item_ids chain.work_items) patch.operations "edit" ≡ false)
apply_patch-IsRevisionOf_example =
    apply_patch-IsRevisionOf digest agents chain patch done false none {applied = applied}
      {new = edited} patch_passes (Memᴰ.tail (Memᴰ.head refl))

apply_patch-length_example :
    (length patched.work_items ≤ length chain.work_items + 2)
    × (length chain.work_items ≤ length patched.work_items + 1)
apply_patch-length_example =
    apply_patch-length digest agents chain patch done false none {applied = applied} refl
      patch_passes

apply_patch-invalidated_example :
    (elem "print" applied.invalidated_work_item_ids ≡ true)
    ↔ Downstream (dependencies patched.work_items) (changed_ids chain patch patched) "print"
apply_patch-invalidated_example =
    apply_patch-invalidated digest agents chain patch done false none {applied = applied}
      patch_passes "print"

spread_lem_example :
    (result : List String) × (spread 4 (dependencies chain.work_items) ("edit" ∷ []) ≡ some result)
    × ((key : String)
        → (elem key result ≡ true) ↔ Downstream (dependencies chain.work_items) ("edit" ∷ []) key)
spread_lem_example = spread_lem (dependencies chain.work_items) ("edit" ∷ [])

-- Two repairs of the plan, the second of which waits for the first.
abbrev repair : RepairPlanPatch
repair = record {
  rationale = "The print fails.";
  schema_version = 1;
  base_plan_id = "plan";
  repair_scope = "print" ∷ [];
  failure_kind = none;
  verification = [];
  operations =
      record (operation add) {
        ref = some "font";
        agent_id = some "notes_agent";
        objective = some "Fix the font.";
      }
      ∷ record (operation add) {
        ref = some "proof";
        agent_id = some "notes_agent";
        objective = some "Print a proof.";
        depends_on = "font" ∷ [];
      }
      ∷ [];
}

abbrev font : WorkItem
font =
    record (addition "wi-repair-01-notes" "notes_agent" "Fix the font." notes "notes_repair_01"
      []) { contract_digest = some "notes_repair_01"; output_kind = some "exclusive_artifact" }

abbrev proof : WorkItem
proof =
    record (addition "wi-repair-02-notes" "notes_agent" "Print a proof." notes "notes_repair_02"
      ("wi-repair-01-notes" ∷ [])) {
        contract_digest = some "notes_repair_02";
        output_kind = some "exclusive_artifact";
      }

abbrev repaired : ExecutionPlan
repaired = record (plan_of (font ∷ proof ∷ [])) {
  id = "plan-repair";
  process_id = "software_delivery";
  validation_scope = "full_delivery";
}

repair_applied : apply_repair_patch digest agents chain repair none ≡ ok repaired
unfolding apply_repair_patch repair_all compute_contract_digest is_blank init check_given
    check_paths forbidden_covers_allowed check_ownership settle_tools xor fnmatch glob decimal
    two_digits ends_with contract_for required_tools_for ref_id peel ancestors ancestors_from occupy
    outputs validate_from validate_plan validate_work_item validate_artifact_edges check_fields
    check_items ensure_acyclic validate check_tooled seal validate_execution_grant literal_prefix
    normalize_path_pattern pattern_matches within_pattern contract_payload
repair_applied = refl

apply_repair_patch-stands_after_example :
    (stands_after (item_ids chain.work_items) [] repaired.work_items ≡ true)
    × (length repaired.work_items ≡ length repair.operations)
apply_repair_patch-stands_after_example =
    apply_repair_patch-stands_after digest agents chain repair none {repaired = repaired}
      repair_applied

-- A repair may not wait for an item of the plan, though its docstring allows it.
abbrev waiting : RepairPlanPatch
waiting = record repair {
  operations =
      record (operation add) {
        ref = some "font";
        agent_id = some "notes_agent";
        objective = some "Fix the font.";
        depends_on = "print" ∷ [];
      }
      ∷ [];
}

original_refused :
    apply_repair_patch digest agents chain waiting none ≡ raise (later_dependency "print")
unfolding apply_repair_patch repair_all two_digits decimal
original_refused = refl
