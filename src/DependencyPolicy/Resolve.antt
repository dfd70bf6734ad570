-- ===== src/DependencyPolicy/Resolve.antt =====
-- `DependencyPolicy.resolve` (app/planner/dependency_policy.py).
use project_os.Base.{
  String, Bool, false, not, ◌&&◌, Option, none, some, List, [], ◌∷◌, ◌++◌, map, ◌==◌, string_eq,
  any, find?, is_empty, if◌then◌else◌, Result, ok, raise, ◌>>=◌, ◌>>◌, refuse_if, Dict, lookup,
  has_key, insert,
}
use Prim.Native.String.{◌++◌ as ◌+++◌}
use project_os.WorkItem.{WorkItemDependency, planner, template}
use project_os.DependencyPolicy.{
  PlannedStep, TemplateDependencyOverride, PlanDraft, TemplateHint, TemplateNodeHint,
  PlanningContext, PolicyError, no_override, unselected_override, stop_iteration, Table, get,
  add_dependency, add_unambiguous_dependency,
}
use project_os.DependencyPolicy.Rules.{apply_system_rules}

-- A pair of agents: the predecessor and the successor.
abbrev pub Edge : Type 0
Edge = String × String

abbrev pub has_edge : Edge → List Edge → Bool
has_edge edge edges = any (λ other. other.0 == edge.0 && other.1 == edge.1) edges

abbrev edges_to : String → List String → List Edge
edges_to agent_id predecessors = map (λ predecessor. (predecessor, agent_id)) predecessors

-- template_edges
abbrev pub template_edges : List TemplateNodeHint → List Edge
template_edges [] = []
template_edges (node ∷ nodes) = edges_to node.agent_id node.depends_on ++ template_edges nodes

-- overrides
abbrev pub override_edges : List TemplateDependencyOverride → List Edge
override_edges overrides =
    map (λ override. (override.predecessor_agent_id, override.successor_agent_id)) overrides

-- _template_for: `next` without a default
abbrev pub template_for : PlanDraft → PlanningContext → Result PolicyError (Option TemplateHint)
template_for draft context = elim draft.template_hint_id [
  | none ↦ ok none
  | some key ↦ elim (find? (λ hint. hint.id == key) context.templates) [
    | none ↦ raise stop_iteration
    | some hint ↦ ok (some hint)
  ]
]

-- {item_id: {} for item_ids in item_ids_by_agent.values() for item_id in item_ids}
abbrev pub with_rows : Table → List String → Table
with_rows table [] = table
with_rows table (key ∷ keys) = with_rows (insert key [] table) keys

abbrev pub empty_rows : Table → Dict String (List String) → Table
empty_rows table [] = table
empty_rows table ((agent, item_ids) ∷ rest) = empty_rows (with_rows table item_ids) rest

-- {item_id: tuple(item_dependencies.values()) for item_id, item_dependencies in dependencies.items()}
abbrev pub as_tuples : Table → Dict String (List WorkItemDependency)
as_tuples table = map (λ entry. (entry.0, map (λ dependency. dependency.1) entry.1)) table

abbrev pub template_rule : String → String → String → String
template_rule template_id predecessor successor =
    "template:" +++ template_id +++ ":" +++ predecessor +++ "->" +++ successor

abbrev pub template_context : String → String → String
template_context predecessor successor = "模板依赖 " +++ predecessor +++ " -> " +++ successor

module _ (item_ids_by_agent : Dict String (List String)) (item_id_by_ref : Dict String String) where
  -- _validate_overrides: the loop over the overrides, in the order of their list
  unfoldable pub validate_overrides : List Edge → List Edge → Result PolicyError (Unit {0})
  validate_overrides known [] = ok tt
  validate_overrides known (edge ∷ edges) = do
    refuse_if (not (has_edge edge known)) (no_override edge.0 edge.1)
    refuse_if (not (has_key edge.0 item_ids_by_agent && has_key edge.1 item_ids_by_agent))
        (unselected_override edge.0 edge.1)
    validate_overrides known edges

  -- for dependency_ref in step.depends_on
  unfoldable pub add_planned : Table → String → String → List String → Result PolicyError Table
  add_planned table target ref [] = ok table
  add_planned table target ref (dependency_ref ∷ refs) = do
    key ← get item_id_by_ref dependency_ref
    next ← add_dependency false table target (record {
      work_item_id = key;
      source = planner;
      rule_id = some ("planner:" +++ dependency_ref +++ "->" +++ ref);
    })
    add_planned next target ref refs

  -- The loop over the steps of the draft.
  unfoldable pub add_steps : Table → List PlannedStep → Result PolicyError Table
  add_steps table [] = ok table
  add_steps table (step ∷ steps) = do
    target ← get item_id_by_ref step.ref
    next ← add_planned table target step.ref step.depends_on
    add_steps next steps

  abbrev pub agent_items : String → List String
  agent_items agent_id = elim (lookup agent_id item_ids_by_agent) [ none ↦ [] | some ids ↦ ids ]

  -- A predecessor of the template's node.
  abbrev pub add_predecessor :
      String → List Edge → PlannedStep → Table → String → Result PolicyError Table
  add_predecessor template_id overrides step table predecessor =
      if is_empty (agent_items predecessor)
      then ok table
      else if has_edge (predecessor, step.agent_id) overrides
      then ok table
      else do
        target ← get item_id_by_ref step.ref
        add_unambiguous_dependency table target (agent_items predecessor) step.depends_on
            item_id_by_ref template (template_rule template_id predecessor step.agent_id)
            (template_context predecessor step.agent_id) false

  -- for predecessor_agent_id in node.depends_on
  unfoldable pub add_predecessors :
      String → List Edge → PlannedStep → Table → List String → Result PolicyError Table
  add_predecessors template_id overrides step table [] = ok table
  add_predecessors template_id overrides step table (predecessor ∷ predecessors) = do
    next ← add_predecessor template_id overrides step table predecessor
    add_predecessors template_id overrides step next predecessors

  -- The node of the step's agent, where the template has one.
  abbrev pub add_at_node :
      String → List Edge → PlannedStep → Table → Option TemplateNodeHint → Result PolicyError Table
  add_at_node template_id overrides step table none = ok table
  add_at_node template_id overrides step table (some node) =
      add_predecessors template_id overrides step table node.depends_on

  -- The loop over the steps with a template.
  unfoldable pub add_template_steps :
      TemplateHint → List Edge → Table → List PlannedStep → Result PolicyError Table
  add_template_steps hint overrides table [] = ok table
  add_template_steps hint overrides table (step ∷ steps) = do
    next ←
        add_at_node hint.id overrides step table
          (find? (λ node. node.agent_id == step.agent_id) hint.nodes)
    add_template_steps hint overrides next steps

  -- What the template adds, where there is one.
  unfoldable pub add_template : PlanDraft → Option TemplateHint → Table → Result PolicyError Table
  add_template draft none table = ok table
  add_template draft (some hint) table = do
    validate_overrides (template_edges hint.nodes)
        (override_edges draft.template_dependency_overrides)
    add_template_steps hint (override_edges draft.template_dependency_overrides) table draft.steps

  -- The rows of all work items, before they are made tuples.
  unfoldable pub resolve_rows : PlanDraft → PlanningContext → Result PolicyError Table
  resolve_rows draft context = do
    planned ← add_steps (empty_rows [] item_ids_by_agent) draft.steps
    hint ← template_for draft context
    experienced ← add_template draft hint planned
    apply_system_rules item_ids_by_agent item_id_by_ref context experienced

  unfoldable pub resolve :
      PlanDraft → PlanningContext → Result PolicyError (Dict String (List WorkItemDependency))
  resolve draft context = do rows ← resolve_rows draft context; ok (as_tuples rows)
