-- ===== src/Plan.antt =====
-- `ExecutionPlan` (app/orchestration/plan.py): a directed acyclic graph of work items.
pub mod Delivery
pub mod Ancestors
pub mod Edges
pub mod Init
pub mod Accepted
use project_os.Base.{String, Option, List, map, find?, filter, is_empty, ◌==◌, string_eq}
use project_os.WorkItem.{WorkItem, dependency_ids}
use project_os.Graph.{Graph}

pub record TraceContext : Type 0 where
  pub requirement_id : String
  pub trace_id : String
  pub parent_trace_id : Option String

pub record ExecutionPlan : Type 0 where
  pub id : String
  pub goal : String
  pub work_items : List WorkItem
  pub template_id : Option String
  pub process_id : String
  pub trace : TraceContext
  pub validation_scope : String

abbrev pub item_ids : List WorkItem → List String
item_ids items = map (λ item. item.id) items

-- {item.id: set(item.dependency_ids) for item in self.work_items}
abbrev pub dependencies : List WorkItem → Graph String
dependencies items = map (λ item. (item.id, dependency_ids item)) items

-- by_id.get(key), where the ids are distinct
abbrev pub by_id : String → List WorkItem → Option WorkItem
by_id key items = find? (λ item. item.id == key) items

-- plan.work_item(work_item_id)
abbrev pub work_item : ExecutionPlan → String → Option WorkItem
work_item plan key = by_id key plan.work_items

-- plan.root_items()
abbrev pub root_items : ExecutionPlan → List WorkItem
root_items plan = filter (λ item. is_empty item.dependencies) plan.work_items
