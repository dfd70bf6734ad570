-- ===== src/Tools/Gateway.antt =====
-- What `ToolGateway` shows of the tools (app/tool_manager/gateway.py). The registrations of a domain,
-- which the catalogue lists, are an argument.
use project_os.Base.{
  ℕ, String, Bool, true, not, ◌&&◌, ◌||◌, Option, none, some, List, [], ◌∷◌, map, ◌==◌, string_eq,
  elem, filter, is_empty, sorted, unique,
}
use project_os.Execution.{mode_value}
use project_os.Tools.{ToolRegistration, ToolContext, ToolAccessPolicy, is_visible}

-- The tools of the architect that need more than a mode.
abbrev is_checkpoint_tool : String → Bool
is_checkpoint_tool name =
    elem name ("load_architecture_intermediate" ∷ "write_architecture_intermediate" ∷ [])

abbrev is_selection_tool : String → Bool
is_selection_tool name = elem name ("select_tech_stack" ∷ "select_interface_kind" ∷ [])

abbrev is_open_to : String → Option ToolContext → Bool
is_open_to name none = not (is_checkpoint_tool name || is_selection_tool name)
is_open_to name (some context) =
    not (is_checkpoint_tool name || is_selection_tool name)
    || (context.agent_id == "architecture_agent"
        && not (is_checkpoint_tool name && not context.checkpoints_enabled)
        && not (is_selection_tool name && not context.recursive_enabled))

abbrev has_mode : Option (List String) → Option ToolContext → Bool
has_mode none context = true
has_mode (some modes) none = true
has_mode (some modes) (some context) = elem (mode_value context.execution_mode) modes

-- _visible_in_execution_context
unfoldable pub visible_in_execution_context : ToolRegistration → Option ToolContext → Bool
visible_in_execution_context tool context =
    is_open_to tool.name context && has_mode tool.execution_modes context

-- _visible_in_tool_allowlist
unfoldable pub visible_in_tool_allowlist : ToolRegistration → Option ToolContext → Bool
visible_in_tool_allowlist tool none = true
visible_in_tool_allowlist tool (some context) =
    tool.name == "report_progress"
    || is_empty context.tool_allowlist
    || elem tool.name context.tool_allowlist

pub record ToolContractDiagnostics : Type 0 where
  pub domain : String
  pub required_tools : List String
  pub registered_tools : List String
  pub visible_tools : List String
  pub missing_registered : List String
  pub missing_visible : List String

-- diagnostics.passed
abbrev pub passed : ToolContractDiagnostics → Bool
passed diagnostics = is_empty diagnostics.missing_registered && is_empty diagnostics.missing_visible

abbrev pub names : List ToolRegistration → List String
names registrations = map (λ tool. tool.name) registrations

module _ (parse_time : String → Option ℕ) (now : ℕ) (policy : ToolAccessPolicy parse_time now)
    (registrations : List ToolRegistration) where
  abbrev pub is_injected : Option ToolContext → ToolRegistration → Bool
  is_injected context tool =
      is_visible parse_time now policy tool context
      && visible_in_execution_context tool context
      && visible_in_tool_allowlist tool context

  -- gateway.tools_for(domain, context=context)
  unfoldable pub tools_for : Option ToolContext → List ToolRegistration
  unfolding is_visible visible_in_execution_context visible_in_tool_allowlist
  tools_for context = filter (is_injected context) registrations

  abbrev pub missing_from : List String → List String → List String
  missing_from known required = filter (λ tool. not (elem tool known)) required

  -- gateway.preflight(domain, required_tools, context=context)
  unfoldable pub preflight : String → List String → Option ToolContext → ToolContractDiagnostics
  unfolding tools_for
  preflight domain required_tools context = record {
    domain = domain;
    required_tools = unique required_tools;
    registered_tools = sorted (unique (names registrations));
    visible_tools = sorted (names (tools_for context));
    missing_registered =
        missing_from (sorted (unique (names registrations))) (unique required_tools);
    missing_visible = missing_from (sorted (names (tools_for context))) (unique required_tools);
  }
