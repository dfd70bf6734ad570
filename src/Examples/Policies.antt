-- ===== src/Examples/Policies.antt =====
-- A draft of code and tests, with a template that adds nothing to the planner's own dependency, and the
-- rules of an empty project.
use project_os.Base.{
  is_blank, String, ◌≡◌, refl, true, none, some, List, [], ◌∷◌, Memᴰ, ok, raise, string_eq, elem,
  Dict, lookup,
}
use project_os.WorkItem.{WorkItemDependency, DependencySource, system}
use project_os.DependencyPolicy.{
  check_dependency, PlannedStep, PlanDraft, TemplateHint, PlanningContext, no_predecessor,
  add_dependency,
}
use project_os.DependencyPolicy.Rules.{
  system_rules, add_system_dependencies, apply_rules, apply_system_rules,
}
use project_os.DependencyPolicy.Resolve.{
  resolve, resolve_rows, add_planned, add_steps, add_predecessors, add_template_steps, add_template,
  validate_overrides,
}
use project_os.DependencyPolicy.Growth.{is_system}
use project_os.DependencyPolicy.Waiting.{waits_for}
use project_os.DependencyPolicy.Resolved.{resolve-requires, resolve-planned}

abbrev step : String → String → List String → PlannedStep
step ref agent_id depends_on = record {
  ref = ref;
  agent_id = agent_id;
  objective = "Do it.";
  stage_id = none;
  depends_on = depends_on;
  acceptance_criteria = [];
  constraints = [];
  non_goals = [];
}

abbrev tests : PlannedStep
tests = step "t" "test_agent" ("c" ∷ [])

abbrev steps : List PlannedStep
steps = step "b" "bootstrap_agent" [] ∷ step "c" "code_agent" [] ∷ tests ∷ []

abbrev draft : PlanDraft
draft = record {
  rationale = "Build it.";
  steps = steps;
  template_hint_id = some "hint";
  process_id = none;
  template_dependency_overrides = [];
}

abbrev hint : TemplateHint
hint = record {
  id = "hint";
  name = "Code after the bootstrap";
  description = "";
  nodes =
      record {
        id = "n";
        agent_id = "code_agent";
        objective = "";
        depends_on = "bootstrap_agent" ∷ [];
        execution_mode = "exclusive";
        slot = none;
        publish_target = none;
      }
      ∷ [];
  process_id = "software_delivery";
}

abbrev context : PlanningContext
context = record { implementation_file_count = 0; artifacts = []; templates = hint ∷ [] }

abbrev by_agent : Dict String (List String)
by_agent =
    ("bootstrap_agent", "wi-b" ∷ [])
    ∷ ("code_agent", "wi-c" ∷ [])
    ∷ ("test_agent", "wi-t" ∷ [])
    ∷ []

abbrev by_ref : Dict String String
by_ref = ("b", "wi-b") ∷ ("c", "wi-c") ∷ ("t", "wi-t") ∷ []

abbrev because : DependencySource → String → String → WorkItemDependency
because source rule_id key = record { work_item_id = key; source = source; rule_id = some rule_id }

-- The planner's dependency and the template's have become the system's.
abbrev resolved : Dict String (List WorkItemDependency)
resolved =
    ("wi-b", [])
    ∷ ("wi-c", because system "code_requires_bootstrap" "wi-b" ∷ [])
    ∷ (
      "wi-t",
      because system "test_requires_code" "wi-c"
          ∷ because system "test_requires_bootstrap" "wi-b"
          ∷ [],
    )
    ∷ []

draft_resolved : resolve by_agent by_ref draft context ≡ ok resolved
unfolding resolve resolve_rows add_steps add_planned add_dependency add_template validate_overrides
    add_template_steps add_predecessors apply_system_rules system_rules apply_rules
    add_system_dependencies check_dependency is_blank
draft_resolved = refl

resolve-requires_example :
    (candidates : List String) × (lookup "code_agent" by_agent ≡ some candidates)
    × (key : String) × (elem key candidates ≡ true)
    × (waits_for is_system resolved "wi-t" key ≡ true)
resolve-requires_example =
    resolve-requires by_agent by_ref draft context {resolved = resolved} "test_agent" "code_agent"
      {items = "wi-t" ∷ []} {item = "wi-t"} draft_resolved refl refl (Memᴰ.head refl)

resolve-planned_example : waits_for (λ dependency. true) resolved "wi-t" "wi-c" ≡ true
resolve-planned_example =
    resolve-planned by_agent by_ref draft context {resolved = resolved} {step = tests} {name = "c"}
      {item = "wi-t"} {key = "wi-c"} draft_resolved (Memᴰ.tail (Memᴰ.tail (Memᴰ.head refl)))
      (Memᴰ.head refl) refl refl

-- Tests without code are refused where there are no files.
abbrev only_tests : Dict String (List String)
only_tests = ("test_agent", "wi-t" ∷ []) ∷ []

tests_refused :
    apply_system_rules only_tests by_ref context []
    ≡ raise (no_predecessor "test_agent" "code_agent")
unfolding apply_system_rules system_rules apply_rules
tests_refused = refl
