-- ===== src/DependencyPolicy.antt =====
-- `DependencyPolicy` (app/planner/dependency_policy.py): the dependencies of the work items of a plan,
-- from the planner's draft (app/planner/draft.py), a template and the rules of the system
-- (app/planner/context.py).
pub mod Rules
pub mod Resolve
pub mod Growth
pub mod Choice
pub mod Kept
pub mod Demanded
pub mod Waiting
pub mod Required
pub mod Resolved
use project_os.Base.{
  is_blank, ◌>>◌, refuse_if, ℕ, String, Bool, true, false, not, ◌||◌, Option, none, some, List, [],
  ◌∷◌, ◌++◌, ◌==◌, string_eq, elem, filter, unique, if◌then◌else◌, Result, ok, raise, ◌>>=◌, Dict,
  keys, lookup, has_key, insert,
}
use project_os.WorkItem.{DependencySource, WorkItemDependency}

pub record PlannedStep : Type 0 where
  pub ref : String
  pub agent_id : String
  pub objective : String
  pub stage_id : Option String
  pub depends_on : List String
  pub acceptance_criteria : List String
  pub constraints : List String
  pub non_goals : List String

pub record TemplateDependencyOverride : Type 0 where
  pub predecessor_agent_id : String
  pub successor_agent_id : String
  pub reason : String

pub record PlanDraft : Type 0 where
  pub rationale : String
  pub steps : List PlannedStep
  pub template_hint_id : Option String
  pub process_id : Option String
  pub template_dependency_overrides : List TemplateDependencyOverride

pub record TemplateNodeHint : Type 0 where
  pub id : String
  pub agent_id : String
  pub objective : String
  pub depends_on : List String
  pub execution_mode : String
  pub slot : Option String
  pub publish_target : Option String

pub record TemplateHint : Type 0 where
  pub id : String
  pub name : String
  pub description : String
  pub nodes : List TemplateNodeHint
  pub process_id : String

pub record ArtifactSnapshot : Type 0 where
  pub key : String
  pub filename : String
  pub exists : Bool

-- What the policy reads of a `PlanningContext`.
pub record PlanningContext : Type 0 where
  pub implementation_file_count : ℕ
  pub artifacts : List ArtifactSnapshot
  pub templates : List TemplateHint

-- The `PlanValidationError`s, the `KeyError`s and the `StopIteration` of a template that is not
-- there.
pub data PolicyError : Type 0 where
  no_override unselected_override : String → String → PolicyError
  no_predecessor : String → String → PolicyError
  ambiguous : String → PolicyError
  key_error : String → PolicyError
  stop_iteration : PolicyError
  blank_work_item blank_rule : PolicyError

-- dict[str, dict[str, WorkItemDependency]]
abbrev pub Table : Type 0
Table = Dict String (Dict String WorkItemDependency)

-- d[key]
abbrev pub get {ℓ} : {V : Type ℓ} → Dict String V → String → Result PolicyError V
get dict key = elim (lookup key dict) [ none ↦ raise (key_error key) | some value ↦ ok value ]

abbrev blank_text : Option String → Bool
blank_text none = false
blank_text (some s) = is_blank s

-- WorkItemDependency.__post_init__; the dependencies of a patch are ids of work items, which are not
-- blank
unfoldable pub check_dependency : WorkItemDependency → Result PolicyError (Unit {0})
check_dependency dependency = do
  refuse_if (is_blank dependency.work_item_id) blank_work_item
  refuse_if (blank_text dependency.rule_id) blank_rule

-- _add, of a dependency that is made for it
unfoldable pub add_dependency :
    Bool → Table → String → WorkItemDependency → Result PolicyError Table
unfolding check_dependency
add_dependency overwrite table target dependency = do
  check_dependency dependency
  row ← get table target
  ok (
      if overwrite || not (has_key dependency.work_item_id row)
      then insert target (insert dependency.work_item_id dependency row) table
      else table)

-- [item_id_by_ref[ref] for ref in refs]
abbrev pub ids_of : Dict String String → List String → Result PolicyError (List String)
ids_of item_id_by_ref [] = ok []
ids_of item_id_by_ref (ref ∷ refs) = do
  key ← get item_id_by_ref ref
  rest ← ids_of item_id_by_ref refs
  ok (key ∷ rest)

-- len(explicit_ids) == 1
abbrev pub only_one : String → List String → Result PolicyError String
only_one context (key ∷ []) = ok key
only_one context _ = raise (ambiguous context)

-- The candidate, where there is one, or the one that is chosen explicitly.
abbrev pub choose :
    Table
    → String
    → List String
    → List String
    → Dict String String
    → String
    → Result PolicyError String
choose table target (candidate ∷ []) refs item_id_by_ref context = ok candidate
choose table target candidates refs item_id_by_ref context = do
  named ← ids_of item_id_by_ref refs
  row ← get table target
  only_one context (
      unique (
        filter (λ key. elem key candidates) named
        ++ filter (λ key. elem key candidates) (keys row)))

-- _add_unambiguous_dependency
abbrev pub add_unambiguous_dependency :
    Table
    → String
    → List String
    → List String
    → Dict String String
    → DependencySource
    → String
    → String
    → Bool
    → Result PolicyError Table
add_unambiguous_dependency table target candidates refs item_id_by_ref source rule_id context
      overwrite =
    do
      key ← choose table target candidates refs item_id_by_ref context
      add_dependency overwrite table target
          (record { work_item_id = key; source = source; rule_id = some rule_id })
