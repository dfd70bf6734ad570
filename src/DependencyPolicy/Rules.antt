-- ===== src/DependencyPolicy/Rules.antt =====
-- `_apply_system_rules` (app/planner/dependency_policy.py).
use project_os.Base.{
  String, Bool, true, false, not, none, some, List, [], ◌∷◌, ◌++◌, ◌==◌, string_eq, nat_eq, find?,
  if◌then◌else◌, Result, ok, ◌>>=◌, ◌>>◌, refuse_if, Dict, has_key,
}
use Prim.Native.String.{◌++◌ as ◌+++◌}
use project_os.WorkItem.{system}
use project_os.DependencyPolicy.{
  PlanningContext, PolicyError, no_predecessor, Table, get, add_unambiguous_dependency,
}

-- A rule of the system: the items of the successor wait for one of the predecessor.
pub record SystemRule : Type 0 where
  pub successor : String
  pub predecessor : String
  pub rule_id : String

abbrev pub rule : String → String → String → SystemRule
rule successor predecessor rule_id = record {
  successor = successor;
  predecessor = predecessor;
  rule_id = rule_id;
}

abbrev pub environment_exists : PlanningContext → Bool
environment_exists context =
    elim (find? (λ artifact. artifact.key == "environment") context.artifacts) [
      | none ↦ false
      | some artifact ↦ artifact.exists
    ]

-- The rules that apply, in the order of the code, where `selected` tells the selected agents.
unfoldable pub system_rules : PlanningContext → (String → Bool) → List SystemRule
system_rules context selected =
    (if context.implementation_file_count == 0
      then (if selected "test_agent"
          then rule "test_agent" "code_agent" "test_requires_code" ∷ []
          else [])
        ++ (if selected "review_agent"
            then rule "review_agent" "code_agent" "review_requires_code"
              ∷ rule "review_agent" "test_agent" "review_requires_test"
              ∷ []
            else [])
      else [])
    ++ (if environment_exists context
        then []
        else (if selected "code_agent"
            then rule "code_agent" "bootstrap_agent" "code_requires_bootstrap" ∷ []
            else [])
          ++ (if selected "test_agent"
              then rule "test_agent" "bootstrap_agent" "test_requires_bootstrap" ∷ []
              else []))

abbrev pub system_context : String → String
system_context rule_id = "系统依赖 " +++ rule_id

module _ (item_ids_by_agent : Dict String (List String)) (item_id_by_ref : Dict String String) where
  -- _add_system_dependencies
  unfoldable pub add_system_dependencies :
      Table → List String → List String → String → Result PolicyError Table
  add_system_dependencies table [] predecessor_ids rule_id = ok table
  add_system_dependencies table (successor ∷ successors) predecessor_ids rule_id = do
    next ←
        add_unambiguous_dependency table successor predecessor_ids [] item_id_by_ref system rule_id
          (system_context rule_id) true
    add_system_dependencies next successors predecessor_ids rule_id

  -- One rule, with its _require_agent.
  abbrev pub apply_rule : Table → SystemRule → Result PolicyError Table
  apply_rule table r = do
    refuse_if (not (has_key r.predecessor item_ids_by_agent))
        (no_predecessor r.successor r.predecessor)
    successors ← get item_ids_by_agent r.successor
    predecessor_ids ← get item_ids_by_agent r.predecessor
    add_system_dependencies table successors predecessor_ids r.rule_id

  unfoldable pub apply_rules : Table → List SystemRule → Result PolicyError Table
  apply_rules table [] = ok table
  apply_rules table (r ∷ rules) = do next ← apply_rule table r; apply_rules next rules

  -- _apply_system_rules
  unfoldable pub apply_system_rules : PlanningContext → Table → Result PolicyError Table
  unfolding system_rules
  apply_system_rules context table =
      apply_rules table (system_rules context (λ agent. has_key agent item_ids_by_agent))
