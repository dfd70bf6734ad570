-- ===== src/Tools.antt =====
-- Capability grants and the access policy of tools (app/tool_manager/grants.py,
-- app/tool_manager/access_policy.py). A time is a number; what `datetime.fromisoformat` makes of a text
-- is a parameter, for texts that name an offset.
pub mod Grants
pub mod Gateway
pub mod Once
pub mod Written
pub mod Revoked
pub mod Visible
use project_os.Base.{
  ℕ, String, Bool, true, false, not, ◌&&◌, ◌||◌, Option, none, some, List, [], ◌∷◌, map, ◌==◌,
  string_eq, option_eq, any, filter, ltb, if◌then◌else◌, Dict, insert, erase,
}
use project_os.Execution.{ExecutionMode}

pub record CapabilityGrant : Type 0 where
  pub grant_id : String
  pub trace_id : String
  pub work_item_id : Option String
  pub capability : String
  pub source_name : String
  pub scope : String
  pub approved_by : String
  pub approved_at : String
  pub expires_at : Option String
  pub status : String

pub data ToolExposure : Type 0 where
  always on_demand confirm denied : ToolExposure

-- What the gateway reads of a `ToolDef` and of its `ToolRegistration`.
pub record ToolRegistration : Type 0 where
  pub name : String
  pub execution_modes : Option (List String)
  pub domain : String
  pub capability : String
  pub toolset : String
  pub source_name : String
  pub exposure : ToolExposure

-- What the gateway reads of an `ExecutionContext`.
pub record ToolContext : Type 0 where
  pub trace_id : String
  pub work_item_id : String
  pub agent_id : String
  pub execution_mode : ExecutionMode
  pub tool_allowlist : List String
  pub checkpoints_enabled : Bool
  pub recursive_enabled : Bool

module _ (parse_time : String → Option ℕ) (now : ℕ) where
  -- datetime.fromisoformat(expires_at) > now
  abbrev pub is_later : Option ℕ → Bool
  is_later none = false
  is_later (some moment) = ltb now moment

  -- grant.is_active(now)
  unfoldable pub is_active : CapabilityGrant → Bool
  is_active grant = grant.status == "active" && (elim grant.expires_at [
    | none ↦ true
    | some text ↦ text == "" || is_later (parse_time text)
  ])

  -- policy._active_grants
  abbrev pub ToolAccessPolicy : Type 0
  ToolAccessPolicy = Dict String CapabilityGrant

  -- policy.activate_grant(grant)
  unfoldable pub activate_grant : CapabilityGrant → ToolAccessPolicy → ToolAccessPolicy
  unfolding is_active
  activate_grant grant policy =
      if is_active grant then insert grant.grant_id grant policy else policy

  -- policy.deactivate_grant(grant_id)
  unfoldable pub deactivate_grant : String → ToolAccessPolicy → ToolAccessPolicy
  deactivate_grant grant_id policy = erase grant_id policy

  -- Whether a grant reaches the context, by its scope.
  abbrev pub is_in_scope : CapabilityGrant → ToolContext → Bool
  is_in_scope grant context =
      grant.scope == "project"
      || (grant.trace_id == context.trace_id
          && (grant.scope == "trace"
              || (grant.scope == "node" && grant.work_item_id == some context.work_item_id)))

  -- _grant_matches
  unfoldable pub grant_matches : ToolRegistration → Option ToolContext → CapabilityGrant → Bool
  unfolding is_active
  grant_matches registration context grant =
      is_active grant
      && registration.capability == grant.capability
      && registration.source_name == grant.source_name
      && (elim context [ none ↦ false | some identity ↦ is_in_scope grant identity ])

  -- policy.is_visible(registration, context)
  unfoldable pub is_visible : ToolAccessPolicy → ToolRegistration → Option ToolContext → Bool
  unfolding grant_matches
  is_visible policy registration context = elim registration.exposure [
    | always ↦ true
    | on_demand ↦ any (λ entry. grant_matches registration context entry.1) policy
    | _ ↦ false
  ]
