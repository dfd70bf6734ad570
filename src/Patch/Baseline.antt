-- ===== src/Patch/Baseline.antt =====
-- `PlanBaseline.from_plan` (app/planner/patch.py). The fingerprint, SHA-256 of the payload's JSON
-- text, is a parameter.
use project_os.Base.{ℕ, String, Option, none, some, List, [], ◌∷◌, map, Dict, string_eq, insert}
use project_os.WorkItem.{WorkItem, dependency_ids}
use project_os.Plan.{ExecutionPlan, item_ids}

pub record ItemPayload : Type 0 where
  pub id : String
  pub agent_id : String
  pub objective : String
  pub dependencies : List String
  pub contract_digest : Option String

-- What the fingerprint is taken of.
pub record BaselinePayload : Type 0 where
  pub goal : String
  pub template_id : Option String
  pub work_items : List ItemPayload

pub record PlanBaseline : Type 0 where
  pub plan_id : String
  pub trace_id : String
  pub goal : String
  pub revision : ℕ
  pub work_item_ids : List String
  pub context_fingerprint : String
  pub contract_digests : Dict String String

abbrev pub item_payload : WorkItem → ItemPayload
item_payload item = record {
  id = item.id;
  agent_id = item.agent_id;
  objective = item.objective;
  dependencies = dependency_ids item;
  contract_digest = item.contract_digest;
}

abbrev pub baseline_payload : ExecutionPlan → BaselinePayload
baseline_payload plan = record {
  goal = plan.goal;
  template_id = plan.template_id;
  work_items = map item_payload plan.work_items;
}

-- {item.id: item.contract_digest or "" for item in plan.work_items}
abbrev pub contract_digests : Dict String String → List WorkItem → Dict String String
contract_digests digests [] = digests
contract_digests digests (item ∷ items) =
    contract_digests
      (insert item.id (elim item.contract_digest [ none ↦ "" | some digest ↦ digest ]) digests)
      items

unfoldable pub from_plan : (BaselinePayload → String) → ExecutionPlan → ℕ → PlanBaseline
from_plan fingerprint plan revision = record {
  plan_id = plan.id;
  trace_id = plan.trace.trace_id;
  goal = plan.goal;
  revision = revision;
  work_item_ids = item_ids plan.work_items;
  context_fingerprint = fingerprint (baseline_payload plan);
  contract_digests = contract_digests [] plan.work_items;
}
