-- ===== src/Patch/Checks.antt =====
-- The guards of `apply_patch` (app/planner/patch.py), before anything is made.
use project_os.Base.{
  ℕ, String, Bool, false, not, ◌&&◌, ◌||◌, Option, none, some, List, [], ◌∷◌, ◌++◌, map, ◌==◌,
  string_eq, list_eq, option_eq, all, any, elem, subset, distinct, count_if, length, is_empty,
  is_blank, ltb, if◌then◌else◌, Result, ok, raise, ◌>>◌, refuse_if,
}
use project_os.Execution.{exclusive, mode_eq}
use project_os.WorkItem.{WorkItem, dependency_ids, Digest, compute_contract_digest}
use project_os.Plan.{ExecutionPlan, item_ids, by_id}
use project_os.Patch.{
  PatchOperation, PlanPatch, ChangeBudget, PatchError, base_differs, governed, digest_invalid,
  unknown_scope, outside_scope, dependency_outside_scope, dependencies_frozen, too_many_modified,
  too_many_added, too_many_removed, too_many_dependency_changes, touched_twice, unknown_item,
  completed_item, no_objective, blank_objective, repeated_ref, still_required, given, modified,
  added, removed, texts_given, referenced_ids,
}

-- A persisted plan may have been tampered with.
unfoldable pub check_digests : Digest → List WorkItem → Result PatchError (Unit {0})
check_digests digest [] = ok tt
check_digests digest (item ∷ items) = do
  refuse_if (not (item.contract_digest == some (compute_contract_digest digest item)))
      (digest_invalid item.id)
  check_digests digest items

-- The checks of a patch that names its scope.
unfoldable pub check_scope : PlanPatch → List String → Result PatchError (Unit {0})
check_scope patch ids = if is_empty patch.repair_scope then ok tt else do
  refuse_if (not (subset patch.repair_scope ids)) unknown_scope
  refuse_if (not (subset (referenced_ids patch.operations) patch.repair_scope)) outside_scope
  refuse_if (not (all (λ op. subset op.depends_on patch.repair_scope) patch.operations))
      dependency_outside_scope

abbrev differs_from : PatchOperation → Option WorkItem → Bool
differs_from op none = false
differs_from op (some item) =
    not (is_empty op.depends_on) && not (op.depends_on == dependency_ids item)

-- op.depends_on != [] and op.work_item_id in by_id and tuple(op.depends_on) != ...
abbrev pub changes_dependencies : List WorkItem → PatchOperation → Bool
changes_dependencies items op = elim op.work_item_id [
  | none ↦ false
  | some key ↦ differs_from op (by_id key items)
]

-- dependency_changes
abbrev pub dependency_changes : List WorkItem → List PatchOperation → ℕ
dependency_changes items operations = count_if (changes_dependencies items) (modified operations)

unfoldable pub check_budget :
    ChangeBudget → List WorkItem → List PatchOperation → Result PatchError (Unit {0})
check_budget budget items operations = do
  refuse_if (ltb 0 (dependency_changes items operations)) dependencies_frozen
  refuse_if (ltb budget.max_modified (length (modified operations))) too_many_modified
  refuse_if (ltb budget.max_added (length (added operations))) too_many_added
  refuse_if (ltb budget.max_removed (length (removed operations))) too_many_removed
  refuse_if (ltb budget.max_dependency_changes (dependency_changes items operations))
      too_many_dependency_changes

-- for op in (*modified, *removed)
unfoldable pub check_targets :
    List String → List String → Bool → List PatchOperation → Result PatchError (Unit {0})
check_targets ids completed allow_completed_revision [] = ok tt
check_targets ids completed allow_completed_revision (op ∷ operations) = elim op.work_item_id [
  | none ↦ raise unknown_item
  | some key ↦ do
    refuse_if (key == "" || not (elem key ids)) unknown_item
    refuse_if (elem key completed && not allow_completed_revision) (completed_item key)
    check_targets ids completed allow_completed_revision operations
]

abbrev blank_text : Option String → Bool
blank_text none = false
blank_text (some text) = is_blank text

-- for op in modified
unfoldable pub check_objectives : List PatchOperation → Result PatchError (Unit {0})
check_objectives [] = ok tt
check_objectives (op ∷ operations) = do
  refuse_if (not (given op.objective)) no_objective
  refuse_if (blank_text op.objective) blank_objective
  check_objectives operations

-- A node that is removed and on which another node depends that is not.
abbrev is_required : List String → WorkItem → Bool
is_required remove_ids item =
    any (λ dependency. elem dependency remove_ids) (dependency_ids item)
    && not (elem item.id remove_ids)

-- remove_ids
abbrev pub remove_ids_of : List PatchOperation → List String
remove_ids_of operations = referenced_ids (removed operations)

-- All guards, in the order of the code.
unfoldable pub check_patch :
    Digest
    → ExecutionPlan
    → PlanPatch
    → List String
    → Bool
    → ChangeBudget
    → Result PatchError (Unit {0})
check_patch digest plan patch completed allow_completed_revision budget = do
  refuse_if (not (patch.base_plan_id == plan.id)) base_differs
  refuse_if (any (λ item. not (item.execution_mode == exclusive)) plan.work_items) governed
  check_digests digest plan.work_items
  check_scope patch (item_ids plan.work_items)
  check_budget budget plan.work_items patch.operations
  refuse_if (not (distinct (referenced_ids patch.operations))) touched_twice
  check_targets (item_ids plan.work_items) completed allow_completed_revision
      (modified patch.operations ++ removed patch.operations)
  check_objectives (modified patch.operations)
  refuse_if (not (distinct (texts_given (map (λ op. op.ref) (added patch.operations)))))
      repeated_ref
  refuse_if (any (is_required (remove_ids_of patch.operations)) plan.work_items) still_required
