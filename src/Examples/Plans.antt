-- ===== src/Examples/Plans.antt =====
-- A plan of the three items, and plans that are refused.
use project_os.Base.{
  String, ◌≡◌, ◌≢◌, ◌↔◌, ◌⊎◌, refl, none, List, [], ◌∷◌, ok, raise, is_blank, fnmatch, string_eq,
}
use project_os.WorkItem.{WorkItem}
use project_os.Graph.{IsAcyclic}
use project_os.Plan.{ExecutionPlan, dependencies}
use project_os.Plan.Edges.{cyclic, unknown_dependency, validate_artifact_edges}
use project_os.Plan.Init.{validate, check_fields, check_items, ensure_acyclic}
use project_os.Plan.Delivery.{validate_plan, validate_work_item, outputs}
use project_os.Contracts.{contract_for}
use project_os.Plan.Ancestors.{found, spent, ancestors, ancestors-ne-spent}
use project_os.Plan.Accepted.{IsAccepted, validate-IsAccepted, ensure_acyclic_iff}
use project_os.Examples.Items.{plain, part, join, gate}

abbrev pub items : List WorkItem
items = gate ∷ join ∷ part ∷ []

abbrev pub plan_of : List WorkItem → ExecutionPlan
plan_of work_items = record {
  id = "plan";
  goal = "Deliver the architecture.";
  work_items = work_items;
  template_id = none;
  process_id = "architecture";
  trace = record { requirement_id = "REQ-1"; trace_id = "trace"; parent_trace_id = none };
  validation_scope = "architecture";
}

abbrev pub plan : ExecutionPlan
plan = plan_of items

pub plan_passes : validate plan ≡ ok tt
unfolding validate check_fields is_blank validate_plan validate_work_item contract_for outputs
    fnmatch check_items ensure_acyclic validate_artifact_edges ancestors
plan_passes = refl

pub plan-IsAccepted : IsAccepted items
plan-IsAccepted = validate-IsAccepted plan plan_passes

validate-IsAccepted_example : IsAccepted items
validate-IsAccepted_example = validate-IsAccepted plan plan_passes

ensure_acyclic_iff_example :
    ((ensure_acyclic items ≡ ok tt) ↔ IsAcyclic (dependencies items))
    × ((ensure_acyclic items ≡ ok tt)
        ⊎ ((left : List String) × (ensure_acyclic items ≡ raise (cyclic left))))
ensure_acyclic_iff_example = ensure_acyclic_iff items refl (plan-IsAccepted.closed)

ancestors-ne-spent_example : ancestors items gate ≢ spent
ancestors-ne-spent_example = ancestors-ne-spent items gate

ancestors-gate : ancestors items gate ≡ found ("part" ∷ "join" ∷ [])
unfolding ancestors
ancestors-gate = refl

-- Two items that wait for each other.
abbrev ring : List WorkItem
ring = plain "a" ("b" ∷ []) ∷ plain "b" ("a" ∷ []) ∷ []

ring_refused : ensure_acyclic ring ≡ raise (cyclic ("a" ∷ "b" ∷ []))
unfolding ensure_acyclic
ring_refused = refl

-- The integration without the partition.
missing_refused : validate (plan_of (join ∷ [])) ≡ raise (unknown_dependency "join")
unfolding validate check_fields is_blank validate_plan validate_work_item contract_for outputs
    fnmatch check_items ensure_acyclic validate_artifact_edges ancestors
missing_refused = refl
