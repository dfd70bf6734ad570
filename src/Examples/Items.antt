-- ===== src/Examples/Items.antt =====
-- Work items of an architecture delivery: a partition, the integration that waits for it, and the
-- quality gate of the integration's candidate.
use project_os.Base.{String, ◌≡◌, refl, false, none, some, List, [], ◌∷◌, map, ok, is_blank}
use project_os.Execution.{ArtifactRef, exclusive, partitioned, integration, quality_gate}
use project_os.WorkItem.{WorkItem, WorkItemDependency, planner, Digest, contract_payload}
use project_os.WorkItem.Init.{
  init, check_given, check_paths, check_ownership, settle_tools, check_tooled,
  validate_execution_grant, seal,
}
use project_os.WorkItem.Paths.{forbidden_covers_allowed}
use project_os.Contracts.{required_tools_for, contract_for}
use project_os.WorkItem.Grants.{IsValid, init-IsValid}

abbrev pub depends_on : String → WorkItemDependency
depends_on key = record { work_item_id = key; source = planner; rule_id = none }

abbrev pub plain : String → List String → WorkItem
plain key required = record {
  id = key;
  agent_id = "architecture_agent";
  objective = "Design the API.";
  output_key = key;
  artifact_key = some "architecture";
  failure_package = none;
  dependencies = map depends_on required;
  acceptance_criteria = "Every endpoint is named." ∷ [];
  constraints = [];
  non_goals = [];
  execution_mode = exclusive;
  input_refs = [];
  slot = none;
  publish_target = none;
  candidate_from_work_item_id = none;
  implementation_unit_id = none;
  allowed_paths = "docs/" ∷ [];
  forbidden_paths = "docs/private/*" ∷ [];
  required_paths = [];
  policy_refs = [];
  skill_refs = [];
  requirement_ids = "REQ-1" ∷ [];
  wave = 0;
  owned_files = [];
  delivery_contract = none;
  output_kind = none;
  stage_id = none;
  required_tools = [];
  contract_digest = none;
  legacy_contract_digest = false;
}

abbrev pub part : WorkItem
part = record (plain "part" []) {
  execution_mode = partitioned;
  slot = some "api";
  required_tools = "load_architecture_input" ∷ "write_staged_architecture" ∷ [];
}

abbrev pub staged_part : ArtifactRef
staged_part = record {
  artifact_key = "architecture";
  layer = "staged";
  trace_id = some "trace";
  work_item_id = some "part";
  slot = some "api";
  revision_id = none;
}

abbrev pub join : WorkItem
join = record (plain "join" ("part" ∷ [])) {
  execution_mode = integration;
  publish_target = some "architecture";
  stage_id = some "architecture_markdown_integration";
  input_refs = staged_part ∷ [];
  required_tools = "load_architecture_input" ∷ "create_architecture_candidate" ∷ [];
}

abbrev pub gate : WorkItem
gate = record (plain "gate" ("join" ∷ [])) {
  agent_id = "test_agent";
  execution_mode = quality_gate;
  publish_target = some "architecture";
  candidate_from_work_item_id = some "join";
}

abbrev digest : Digest
digest payload = payload.output_key

abbrev sealed_part : WorkItem
sealed_part = record part { contract_digest = some "part"; output_kind = some "partition_artifact" }

part_made : init digest part ≡ ok sealed_part
unfolding init check_given is_blank check_paths forbidden_covers_allowed check_ownership
    settle_tools required_tools_for contract_for check_tooled validate_execution_grant seal
    contract_payload
part_made = refl

init-IsValid_example : IsValid digest sealed_part
init-IsValid_example = init-IsValid digest part {item = sealed_part} part_made
