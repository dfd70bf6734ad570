-- ===== src/Patch.antt =====
-- `PlanPatch` and its kin (app/planner/patch.py): bounded local changes of an execution plan. The
-- JSON schema of a patch is checked by pydantic before, which also strips the texts.
pub mod Baseline
pub mod Downstream
pub mod Checks
pub mod Apply
pub mod Revisions
pub mod Additions
pub mod Applied
pub mod Targets
pub mod Kept
pub mod Invalidated
pub mod Repair
use project_os.Base.{
  ℕ, String, ◌++◌, Bool, true, false, not, ◌&&◌, Option, none, some, List, [], ◌∷◌, map, ◌==◌,
  string_eq, filter, is_empty, find?, Result, ok, raise, if◌then◌else◌,
}
use project_os.Execution.{exclusive}
use project_os.WorkItem.{WorkItem, WorkItemDependency, planner, dependency_ids}
use project_os.WorkItem.Init.{ItemError}
use project_os.Plan.Edges.{PlanError}
use project_os.Agents.{AgentDefinition}

pub data PatchKind : Type 0 where
  modify add remove : PatchKind

pub record PatchOperation : Type 0 where
  pub operation : PatchKind
  pub work_item_id : Option String
  pub ref : Option String
  pub agent_id : Option String
  pub objective : Option String
  pub repair_paths : List String
  pub owner_files : List String
  pub depends_on : List String

pub record PlanPatch : Type 0 where
  pub rationale : String
  pub schema_version : ℕ
  pub base_plan_id : String
  pub operations : List PatchOperation
  pub repair_scope : List String

pub record RepairPlanPatch : Type 0 where
  pub rationale : String
  pub schema_version : ℕ
  pub base_plan_id : String
  pub repair_scope : List String
  pub failure_kind : Option String
  pub verification : List String
  pub operations : List PatchOperation

pub record ChangeBudget : Type 0 where
  pub max_added : ℕ
  pub max_removed : ℕ
  pub max_modified : ℕ
  pub max_dependency_changes : ℕ

-- ChangeBudget()
abbrev pub default_budget : ChangeBudget
default_budget = record {
  max_added = 2;
  max_removed = 1;
  max_modified = 2;
  max_dependency_changes = 2;
}

-- The `PlanPatchError`s, and the `ValueError`s of the items and of the plan that are made.
pub data PatchError : Type 0 where
  base_differs governed unknown_scope outside_scope dependency_outside_scope : PatchError
  digest_invalid : String → PatchError
  dependencies_frozen too_many_modified too_many_added too_many_removed : PatchError
  too_many_dependency_changes touched_twice unknown_item no_objective blank_objective : PatchError
  completed_item : String → PatchError
  repeated_ref still_required incomplete_addition unknown_dependency : PatchError
  unknown_agent id_taken : String → PatchError
  item_error : ItemError → PatchError
  plan_error : PlanError → PatchError
  out_of_fuel : PatchError

-- An exception of another type that is not caught.
abbrev pub raising {ℓ} : {E : Type 0} {F : Type 0} {A : Type ℓ} → (E → F) → Result E A → Result F A
raising wrap (ok a) = ok a
raising wrap (raise e) = raise (wrap e)

-- The truth value of an optional text.
abbrev pub given : Option String → Bool
given none = false
given (some text) = not (text == "")

abbrev pub is_modify : PatchOperation → Bool
is_modify op = elim op.operation [ modify ↦ true | _ ↦ false ]

abbrev pub is_add : PatchOperation → Bool
is_add op = elim op.operation [ add ↦ true | _ ↦ false ]

abbrev pub is_remove : PatchOperation → Bool
is_remove op = elim op.operation [ remove ↦ true | _ ↦ false ]

abbrev pub modified : List PatchOperation → List PatchOperation
modified operations = filter is_modify operations

abbrev pub added : List PatchOperation → List PatchOperation
added operations = filter is_add operations

abbrev pub removed : List PatchOperation → List PatchOperation
removed operations = filter is_remove operations

-- [text for text in texts if text]
abbrev pub texts_given : List (Option String) → List String
texts_given [] = []
texts_given (none ∷ rest) = texts_given rest
texts_given (some text ∷ rest) =
    let later = texts_given rest in if text == "" then later else text ∷ later

-- [op.work_item_id for op in operations if op.work_item_id]
abbrev pub referenced_ids : List PatchOperation → List String
referenced_ids operations = texts_given (map (λ op. op.work_item_id) operations)

-- definition.artifact_key or definition.output_key
abbrev pub artifact_key_of : AgentDefinition → Option String
artifact_key_of definition =
    if given definition.artifact_key then definition.artifact_key else some definition.output_key

abbrev pub planner_dependency : String → WorkItemDependency
planner_dependency key = record { work_item_id = key; source = planner; rule_id = none }

-- WorkItem(...) with the arguments of an addition: everything else has its default.
abbrev pub addition : String → String → String → AgentDefinition → String → List String → WorkItem
addition item_id agent_id objective definition output_key dependencies = record {
  id = item_id;
  agent_id = agent_id;
  objective = objective;
  output_key = output_key;
  artifact_key = artifact_key_of definition;
  failure_package = none;
  dependencies = map planner_dependency dependencies;
  acceptance_criteria = [];
  constraints = [];
  non_goals = [];
  execution_mode = exclusive;
  input_refs = [];
  slot = none;
  publish_target = none;
  candidate_from_work_item_id = none;
  implementation_unit_id = none;
  allowed_paths = [];
  forbidden_paths = [];
  required_paths = [];
  policy_refs = [];
  skill_refs = [];
  requirement_ids = [];
  wave = 0;
  owned_files = [];
  delivery_contract = none;
  output_kind = none;
  stage_id = none;
  required_tools = [];
  contract_digest = none;
  legacy_contract_digest = false;
}
