-- ===== src/WorkItem/Init.antt =====
-- `WorkItem.__post_init__` and `_validate_execution_grant` (app/orchestration/work_item.py): what
-- makes a work item, in the order of the program's checks.
use project_os.Base.{
  String, ℕ, Bool, true, false, not, ◌&&◌, ◌||◌, Option, none, some, List, [], ◌∷◌, ◌==◌, string_eq,
  option_eq, any, elem, distinct, is_empty, is_blank, codes, if◌then◌else◌, Result, ok, raise,
  ◌>>=◌, ◌>>◌, refuse_if, Fields, text, is_space, list_eq, member,
}
use project_os.Execution.{ExecutionMode, exclusive, partitioned, integration, quality_gate, mode_eq}
use project_os.Contracts.{required_tools_for}
use project_os.WorkItem.{WorkItem, dependency_ids, role_of, Digest, contract_payload}
use project_os.WorkItem.Paths.{
  forbidden_covers_allowed, within_pattern, to_slashes, lstrip_slash, has_glob, ends, slash,
}

-- The `ValueError`s, named for what they refuse.
pub data ItemError : Type 0 where
  blank_field blank_artifact_key blank_option blank_list_entry : ItemError
  global_deny deny_covers_grant owned_is_denied : ItemError
  owned_not_one owned_not_file blank_tool repeated_tools tools_differ blank_output_kind : ItemError
  repeated_dependency depends_on_itself : ItemError
  no_slot carries_publication no_target carries_staging no_candidate carries_slot : ItemError
  carries_grant digest_differs : ItemError

abbrev some_blank : Option String → Bool
some_blank none = false
some_blank (some s) = is_blank s

abbrev is_some : Option String → Bool
is_some none = false
is_some (some s) = true

-- not x or not x.strip()
abbrev pub missing : Option String → Bool
missing none = true
missing (some s) = is_blank s

abbrev grant_for : ExecutionMode → WorkItem → Result ItemError (Unit {0})
grant_for partitioned item = do
  refuse_if (missing item.slot) no_slot
  refuse_if (is_some item.publish_target || is_some item.candidate_from_work_item_id)
      carries_publication
grant_for integration item = do
  refuse_if (missing item.publish_target) no_target
  refuse_if (is_some item.slot || is_some item.candidate_from_work_item_id) carries_staging
grant_for quality_gate item = do
  refuse_if (missing item.publish_target) no_target
  refuse_if (missing item.candidate_from_work_item_id) no_candidate
  refuse_if (is_some item.slot) carries_slot
grant_for exclusive item =
    refuse_if
      (is_some item.slot || is_some item.publish_target || is_some item.candidate_from_work_item_id)
      carries_grant

-- _validate_execution_grant
unfoldable pub validate_execution_grant : WorkItem → Result ItemError (Unit {0})
validate_execution_grant item = grant_for item.execution_mode item

-- The checks of the path lists against one another.
abbrev covered : WorkItem → String → Bool
covered item allowed =
    any (λ forbidden. forbidden_covers_allowed (codes allowed) (codes forbidden))
      item.forbidden_paths

abbrev denied : WorkItem → String → Bool
denied item owned =
    any (λ pattern. within_pattern (lstrip_slash (to_slashes (codes owned))) (codes pattern))
      item.forbidden_paths

unfoldable pub check_paths : WorkItem → Result ItemError (Unit {0})
check_paths item = do
  refuse_if
      (not (is_empty item.allowed_paths)
        && any (λ path. elem path ("*" ∷ "**" ∷ [])) item.forbidden_paths)
      global_deny
  refuse_if (any (covered item) item.allowed_paths) deny_covers_grant
  refuse_if (any (denied item) item.owned_files) owned_is_denied

-- s.strip().endswith("/"), and the other tests of a concrete file path
abbrev rstrip : List ℕ → List ℕ
rstrip [] = []
rstrip (c ∷ s) = let rest = rstrip s in if is_space c && is_empty rest then [] else c ∷ rest

abbrev is_file : String → Bool
is_file owned =
    let path = to_slashes (codes owned) in
    not (is_blank owned || ends (rstrip path) (slash ∷ []) || has_glob path)

abbrev owns_one_file : List String → Result ItemError (Unit {0})
owns_one_file (owned ∷ []) = refuse_if (not (is_file owned)) owned_not_file
owns_one_file _ = raise owned_not_one

abbrev compiled_semantically : Option Fields → Bool
compiled_semantically none = false
compiled_semantically (some contract) = elim (member "compilation_strategy" contract) [
  | some (text strategy) ↦ strategy == "semantic"
  | _ ↦ false
]

abbrev must_own_one_file : WorkItem → Bool
must_own_one_file item =
    item.agent_id == "code_agent"
    && item.execution_mode == partitioned
    && is_some item.implementation_unit_id
    && not (item.implementation_unit_id == some "project-documents")
    && not (compiled_semantically item.delivery_contract)

unfoldable pub check_ownership : WorkItem → Result ItemError (Unit {0})
check_ownership item = if must_own_one_file item then owns_one_file item.owned_files else ok tt

-- The tools that the delivery contract derives are filled in, or have to be those given.
unfoldable pub settle_tools : WorkItem → Result ItemError WorkItem
settle_tools item = do
  refuse_if (any is_blank item.required_tools) blank_tool
  refuse_if (not (distinct item.required_tools)) repeated_tools
  let derived = required_tools_for (role_of item)
  if is_empty derived
      then ok item
      else if is_empty item.required_tools
      then ok (record item { required_tools = derived })
      else refuse_if (not (item.required_tools == derived)) tools_differ >> ok item

-- _default_output_kind
abbrev default_output_kind : ExecutionMode → String
default_output_kind partitioned = "partition_artifact"
default_output_kind integration = "integrated_artifact"
default_output_kind quality_gate = "quality_report"
default_output_kind exclusive = "exclusive_artifact"

abbrev or_default : Option String → String → Option String
or_default none default = some default
or_default (some s) default = some s

-- The digest is filled in, or has to be the contract's. The digest of a historical plan, which did
-- not seal the tools, is accepted and marked.
unfoldable pub seal : Digest → WorkItem → Result ItemError WorkItem
unfolding contract_payload
seal digest item =
    let computed = digest (contract_payload true item) in
    elim item.contract_digest [
      | none ↦ ok (record item { contract_digest = some computed })
      | some given ↦
          if given == computed
          then ok item
          else if given == digest (contract_payload false item)
          then ok (record item { legacy_contract_digest = true })
          else raise digest_differs
    ]

-- The given item with the default of its artifact key.
abbrev pub keyed : WorkItem → WorkItem
keyed given = record given {
  artifact_key = or_default given.artifact_key given.output_key;
  legacy_contract_digest = false;
}

-- The checks before the tools are settled.
unfoldable pub check_given : WorkItem → Result ItemError (Unit {0})
check_given given = do
  refuse_if
      (is_blank given.id
        || is_blank given.agent_id
        || is_blank given.objective
        || is_blank given.output_key)
      blank_field
  refuse_if (some_blank given.artifact_key) blank_artifact_key
  refuse_if (some_blank given.implementation_unit_id || some_blank given.stage_id) blank_option
  refuse_if
      (any is_blank given.allowed_paths
        || any is_blank given.forbidden_paths
        || any is_blank given.required_paths
        || any is_blank given.policy_refs
        || any is_blank given.skill_refs
        || any is_blank given.requirement_ids)
      blank_list_entry
  check_paths given
  check_ownership given

-- The item with the default of its output kind.
abbrev pub filled : WorkItem → WorkItem
filled tooled = record tooled {
  output_kind = or_default tooled.output_kind (default_output_kind tooled.execution_mode);
}

-- The checks after that.
unfoldable pub check_tooled : WorkItem → Result ItemError (Unit {0})
check_tooled item = do
  refuse_if (some_blank item.output_kind) blank_output_kind
  refuse_if (not (distinct (dependency_ids item))) repeated_dependency
  refuse_if (elem item.id (dependency_ids item)) depends_on_itself
  refuse_if
      (any is_blank item.acceptance_criteria
        || any is_blank item.constraints
        || any is_blank item.non_goals)
      blank_list_entry
  validate_execution_grant item

-- WorkItem(...): the item with its defaults filled in, or the first error
unfoldable pub init : Digest → WorkItem → Result ItemError WorkItem
init digest given = do
  check_given given
  tooled ← settle_tools (keyed given)
  check_tooled tooled
  seal digest (filled tooled)
