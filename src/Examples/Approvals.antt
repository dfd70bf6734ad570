-- ===== src/Examples/Approvals.antt =====
-- Two grants of a trace, one of which is revoked, and the tools that they show.
use project_os.Base.{
  ℕ, String, ◌≡◌, ◌↔◌, refl, true, false, ◌&&◌, Option, none, some, List, [], ◌∷◌, Memᴰ, map, ok,
  all, elem, string_eq, is_blank, ◌==◌, Dict,
}
use project_os.Execution.{exclusive}
use project_os.Tools.{
  CapabilityGrant, ToolRegistration, ToolContext, ToolExposure, always, on_demand, is_active,
  is_visible, is_in_scope, grant_matches, deactivate_grant,
}
use project_os.Tools.Grants.{
  GrantFiles, read_all, write_all, list_all, list_active, revoke, grant_capability,
}
use project_os.Tools.Gateway.{
  passed, names, tools_for, preflight, visible_in_execution_context, visible_in_tool_allowlist,
}
use project_os.Tools.Revoked.{list_active-revoke}
use project_os.Tools.Visible.{preflight_lem, tools_for-deactivate_grant}

abbrev grant : String → String → CapabilityGrant
grant grant_id source_name = record {
  grant_id = grant_id;
  trace_id = "trace";
  work_item_id = none;
  capability = "search";
  source_name = source_name;
  scope = "trace";
  approved_by = "api";
  approved_at = "";
  expires_at = none;
  status = "active";
}

abbrev parse_time : String → Option ℕ
parse_time text = none

abbrev files : GrantFiles
files = record { project_file = none; trace_file = some (grant "g1" "web" ∷ grant "g2" "web" ∷ []) }

abbrev revoked_grant : CapabilityGrant
revoked_grant = record (grant "g1" "web") { status = "revoked" }

abbrev after : GrantFiles
after = record { project_file = none; trace_file = some (revoked_grant ∷ grant "g2" "web" ∷ []) }

first_revoked : revoke "trace" "g1" files ≡ ok (revoked_grant, after)
unfolding revoke list_all read_all write_all
first_revoked = refl

list_active-revoke_example : Memᴰ (grant "g2" "web") (list_active parse_time 0 "trace" after).0 ↔ (
    Memᴰ (grant "g2" "web") (list_active parse_time 0 "trace" files).0
    × (((grant "g2" "web").grant_id == "g1") ≡ false))
list_active-revoke_example =
    list_active-revoke parse_time 0 "trace" "g1" files {grant = revoked_grant} {after = after}
      (grant "g2" "web") first_revoked refl refl

-- A request for the whole project is answered with the grant of the trace, and nothing is recorded.
project_request :
    grant_capability parse_time 0 "g3" "now" "trace" "search" "web" none "project" "api" none files
    ≡ ok (grant "g1" "web", files)
unfolding grant_capability list_all read_all is_active is_blank
project_request = refl

abbrev tool : String → ToolExposure → ToolRegistration
tool name exposure = record {
  name = name;
  execution_modes = none;
  domain = "code";
  capability = "search";
  toolset = "web";
  source_name = "web";
  exposure = exposure;
}

abbrev tools : List ToolRegistration
tools = tool "search" on_demand ∷ tool "read" always ∷ []

abbrev context : ToolContext
context = record {
  trace_id = "trace";
  work_item_id = "item";
  agent_id = "code_agent";
  execution_mode = exclusive;
  tool_allowlist = [];
  checkpoints_enabled = false;
  recursive_enabled = false;
}

abbrev policy : Dict String CapabilityGrant
policy = ("g1", grant "g1" "web") ∷ ("g2", grant "g2" "web") ∷ []

preflight_lem_example :
    passed (preflight parse_time 0 policy tools "code" ("read" ∷ []) (some context))
    ≡ all
        (λ name. elem name (names (tools_for parse_time 0 policy tools (some context))))
        ("read" ∷ [])
preflight_lem_example = preflight_lem parse_time 0 policy tools "code" ("read" ∷ []) (some context)

still_shown :
    Memᴰ
      (tool "search" on_demand)
      (tools_for parse_time 0 (deactivate_grant parse_time 0 "g1" policy) tools (some context))
unfolding tools_for deactivate_grant is_visible grant_matches is_active visible_in_execution_context
    visible_in_tool_allowlist
still_shown = Memᴰ.head refl

tools_for-deactivate_grant_example :
    (other : CapabilityGrant) × Memᴰ other (map (λ entry. entry.1) policy)
    × (is_active parse_time 0 other ≡ true)
    × ((other.grant_id == "g1") ≡ false)
    × (("search" == other.capability && "web" == other.source_name) ≡ true)
    × (is_in_scope parse_time 0 other context ≡ true)
tools_for-deactivate_grant_example =
    tools_for-deactivate_grant parse_time 0 policy tools "g1" context
      {tool = tool "search" on_demand} refl still_shown refl
