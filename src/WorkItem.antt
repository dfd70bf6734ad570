-- ===== src/WorkItem.antt =====
-- `WorkItem` and `WorkItemDependency` (app/orchestration/work_item.py).
pub mod Paths
pub mod Init
pub mod Grants
pub mod Kept
pub mod Scope
use project_os.Base.{String, ℕ, Bool, Option, none, List, [], ◌∷◌, map, if◌then◌else◌, Fields}
use project_os.Execution.{ExecutionMode, ArtifactRef, ref_id, mode_value}
use project_os.Contracts.{Role}
use project_os.Retry.Signal.{FailurePackage}

pub data DependencySource : Type 0 where
  system template planner : DependencySource

pub record WorkItemDependency : Type 0 where
  pub work_item_id : String
  pub source : DependencySource
  pub rule_id : Option String

-- A field that `__post_init__` fills in is an option.
pub record WorkItem : Type 0 where
  pub id : String
  pub agent_id : String
  pub objective : String
  pub output_key : String
  pub artifact_key : Option String
  pub failure_package : Option FailurePackage
  pub dependencies : List WorkItemDependency
  pub acceptance_criteria : List String
  pub constraints : List String
  pub non_goals : List String
  pub execution_mode : ExecutionMode
  pub input_refs : List ArtifactRef
  pub slot : Option String
  pub publish_target : Option String
  pub candidate_from_work_item_id : Option String
  pub implementation_unit_id : Option String
  pub allowed_paths : List String
  pub forbidden_paths : List String
  pub required_paths : List String
  pub policy_refs : List String
  pub skill_refs : List String
  pub requirement_ids : List String
  pub wave : ℕ
  pub owned_files : List String
  pub delivery_contract : Option Fields
  pub output_kind : Option String
  pub stage_id : Option String
  pub required_tools : List String
  pub contract_digest : Option String
  pub legacy_contract_digest : Bool

abbrev pub dependency_ids : WorkItem → List String
dependency_ids item = map (λ d. d.work_item_id) item.dependencies

-- The keyword arguments with which the delivery contract is looked up.
abbrev pub role_of : WorkItem → Role
role_of item = record {
  agent_id = item.agent_id;
  execution_mode = item.execution_mode;
  slot = item.slot;
  work_item_id = Option.some item.id;
  stage_id = item.stage_id;
  publish_target = item.publish_target;
}

-- The payload of `_compute_contract_digest`: the fields that define what an item may do.
pub record ContractPayload : Type 0 where
  pub agent_id : String
  pub execution_mode : String
  pub input_refs : List String
  pub dependencies : List WorkItemDependency
  pub output_key : String
  pub artifact_key : Option String
  pub slot : Option String
  pub publish_target : Option String
  pub candidate_from_work_item_id : Option String
  pub implementation_unit_id : Option String
  pub required_paths : List String
  pub owned_files : List String
  pub allowed_paths : List String
  pub forbidden_paths : List String
  pub acceptance_criteria : List String
  pub constraints : List String
  pub non_goals : List String
  pub policy_refs : List String
  pub skill_refs : List String
  pub requirement_ids : List String
  pub delivery_contract : Option Fields
  pub output_kind : Option String
  pub required_tools : Option (List String)
  pub stage_id : Option String

-- A key that the payload may lack is an option: `required_tools` is sealed unless the digest is a
-- historical one, and `stage_id` where there is one.
unfoldable pub contract_payload : Bool → WorkItem → ContractPayload
unfolding ref_id
contract_payload include_required_tools item = record {
  agent_id = item.agent_id;
  execution_mode = mode_value item.execution_mode;
  input_refs = map ref_id item.input_refs;
  dependencies = item.dependencies;
  output_key = item.output_key;
  artifact_key = item.artifact_key;
  slot = item.slot;
  publish_target = item.publish_target;
  candidate_from_work_item_id = item.candidate_from_work_item_id;
  implementation_unit_id = item.implementation_unit_id;
  required_paths = item.required_paths;
  owned_files = item.owned_files;
  allowed_paths = item.allowed_paths;
  forbidden_paths = item.forbidden_paths;
  acceptance_criteria = item.acceptance_criteria;
  constraints = item.constraints;
  non_goals = item.non_goals;
  policy_refs = item.policy_refs;
  skill_refs = item.skill_refs;
  requirement_ids = item.requirement_ids;
  delivery_contract = item.delivery_contract;
  output_kind = item.output_kind;
  required_tools = if include_required_tools then Option.some item.required_tools else none;
  stage_id = item.stage_id;
}

-- SHA-256 of the payload's canonical JSON text, in hexadecimal: a parameter of what uses it.
abbrev pub Digest : Type 0
Digest = ContractPayload → String

-- item._compute_contract_digest()
unfoldable pub compute_contract_digest : Digest → WorkItem → String
unfolding contract_payload
compute_contract_digest digest item =
    digest (contract_payload (if item.legacy_contract_digest then Bool.false else Bool.true) item)
