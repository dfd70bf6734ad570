-- ===== src/Contracts.antt =====
-- `DeliveryContractRegistry.contract_for` (app/orchestration/delivery_registry.py): the delivery
-- contract that the lifecycle role of a work item fixes.
use project_os.Base.{
  String, ◌&&◌, ◌||◌, Option, none, some, List, [], ◌∷◌, ◌==◌, elem, string_eq, option_eq,
  ends_with, if◌then◌else◌, not,
}
use text.Mathlib.Text.{starts_with}
use project_os.Execution.{ExecutionMode, partitioned, integration, mode_eq, or_else}

pub record WorkItemDeliveryContract : Type 0 where
  pub kind : String
  pub agent_id : String
  pub domain : String
  pub required_tools : List String
  pub expected_tool : Option String
  pub output_artifact_kind : Option String
  pub output_slot_pattern : Option String
  pub validator : Option String
  pub retry_policy : String

-- DeliveryContractRegistry._architecture
abbrev architecture :
    String → List String → String → Option String → String → WorkItemDeliveryContract
architecture kind required_tools expected_tool output_slot_pattern validator = record {
  kind = kind;
  agent_id = "architecture_agent";
  domain = "architecture";
  required_tools = required_tools;
  expected_tool = some expected_tool;
  output_artifact_kind = some (
      if validator == "MarkdownArchitecturePackage"
      then "architecture_markdown"
      else "architecture_design");
  output_slot_pattern = output_slot_pattern;
  validator = some validator;
  retry_policy = "artifact_schema_repair";
}

-- What `contract_for` is asked about.
pub record Role : Type 0 where
  pub agent_id : String
  pub execution_mode : ExecutionMode
  pub slot : Option String
  pub work_item_id : Option String
  pub stage_id : Option String
  pub publish_target : Option String

-- The partitioned branch; a slot that it does not know falls through to none, since the branches
-- below it are for INTEGRATION.
abbrev partition_contract : String → Option WorkItemDeliveryContract
partition_contract slot =
    if elem slot ("design" ∷ "baseline" ∷ "api" ∷ "data" ∷ "frontend" ∷ [])
    then some (
        architecture "architecture.markdown_package"
          ("load_architecture_input" ∷ "write_staged_architecture" ∷ []) "write_staged_architecture"
          (some slot) "MarkdownArchitecturePackage")
    else if slot == "blueprint"
    then some (
        architecture "architecture.blueprint"
          ("load_architecture_input" ∷ "write_architecture_blueprint" ∷ [])
          "write_architecture_blueprint" (some "blueprint") "ArchitectureBlueprint")
    else if slot == "module" || starts_with slot "module-"
    then some (
        architecture "architecture.module_design"
          ("load_architecture_input" ∷ "write_module_design" ∷ []) "write_module_design"
          (some "module-*") "ModuleDesign")
    else if slot == "implementation" || starts_with slot "implementation-"
    then some (
        architecture "architecture.implementation_design"
          ("load_architecture_input" ∷ "write_implementation_design" ∷ [])
          "write_implementation_design" (some "implementation-*") "ImplementationDesign")
    else none

unfoldable pub contract_for : Role → Option WorkItemDeliveryContract
contract_for role =
    if not (role.agent_id == "architecture_agent")
    then none
    else if role.execution_mode == partitioned
    then partition_contract (or_else "" role.slot)
    else if role.execution_mode == integration
        && role.stage_id == some "architecture_markdown_integration"
    then some (
        architecture "architecture.markdown_integration"
          ("load_architecture_input" ∷ "create_architecture_candidate" ∷ [])
          "create_architecture_candidate" none "MarkdownArchitecturePackage")
    else if role.execution_mode == integration
        && (role.stage_id == some "architecture_integration"
            || role.stage_id == none
              && (ends_with (or_else "" role.work_item_id) "architecture-layered-integration"
                  || role.publish_target == some "architecture"))
    then some (
        architecture "architecture.integration"
          ("load_architecture_input" ∷ "integrate_architecture_designs" ∷ [])
          "integrate_architecture_designs" none "ArchitectureDesignBundle")
    else none

-- required_tools_for and allowlist_for
unfoldable pub required_tools_for : Role → List String
unfolding contract_for
required_tools_for role = elim (contract_for role) [
  | none ↦ []
  | some contract ↦ contract.required_tools
]
