-- ===== src/WorkItem/Scope.antt =====
-- `WorkItem.validate_scope_transition` (app/orchestration/work_item.py), and the write gate of
-- `GitCodeStagingService.write_staged_file` with `_matches_any` (app/domain/code/git_service.py).
pub mod Literal
pub mod Gate
pub mod Matching
pub mod Narrows
use project_os.Base.{
  ℕ, String, Bool, true, false, not, ◌&&◌, ◌||◌, Option, none, some, List, [], ◌∷◌, ◌++◌, ◌==◌,
  string_eq, nat_eq, option_eq, list_eq, all, any, elem, subset, codes, glob, is_empty,
  if◌then◌else◌, Result, ok, raise, ◌>>=◌, ◌>>◌, refuse_if,
}
use project_os.Execution.{partitioned, mode_eq}
use project_os.WorkItem.{WorkItem}
use project_os.WorkItem.Paths.{slash, begins, ends, single_stars, has_glob, within_pattern}

pub data ScopeError : Type 0 where
  role_changed output_kind_changed owned_files_changed forbidden_reduced : ScopeError
  wildcard_from_nothing wildcard_widened path_outside : ScopeError

abbrev pub is_wild : String → Bool
is_wild path = has_glob (codes path)

-- A path that is not a wildcard matches one of the patterns.
abbrev pub is_inside : List String → String → Bool
is_inside patterns path = any (λ pattern. within_pattern (codes path) (codes pattern)) patterns

abbrev check_path : List String → String → Result ScopeError (Unit {0})
check_path allowed path =
    if is_wild path
    then refuse_if (not (elem path allowed)) wildcard_widened
    else refuse_if (not (is_inside allowed path)) path_outside

unfoldable pub check_revised : List String → List String → Result ScopeError (Unit {0})
check_revised allowed [] = ok tt
check_revised allowed (path ∷ paths) = do check_path allowed path; check_revised allowed paths

unfoldable pub validate_scope_transition : WorkItem → WorkItem → Result ScopeError (Unit {0})
validate_scope_transition item revised = do
  refuse_if
      (not (item.agent_id == revised.agent_id)
        || not (item.execution_mode == revised.execution_mode))
      role_changed
  refuse_if (not (item.output_kind == revised.output_kind)) output_kind_changed
  refuse_if (not (item.owned_files == revised.owned_files)) owned_files_changed
  refuse_if (not (subset item.forbidden_paths revised.forbidden_paths)) forbidden_reduced
  refuse_if
      (is_empty item.allowed_paths
        && not (is_empty revised.allowed_paths)
        && any is_wild revised.allowed_paths)
      wildcard_from_nothing
  if is_empty item.allowed_paths
      then ok tt
      else check_revised item.allowed_paths revised.allowed_paths

-- pattern + "**" if pattern.endswith("/") else pattern
abbrev pub normalized : String → List ℕ
normalized pattern =
    if ends (codes pattern) (slash ∷ []) then codes pattern ++ codes "**" else codes pattern

abbrev pub matches_one : List ℕ → String → Bool
matches_one candidate pattern =
    glob candidate (normalized pattern) || glob candidate (single_stars (normalized pattern))

-- _matches_any
unfoldable pub matches_any : List ℕ → List String → Bool
matches_any path patterns =
    any (λ candidate. any (matches_one candidate) patterns)
      (path ∷ (codes "workspace/" ++ path) ∷ [])

-- The refusals of the gate for a path that it has normalised: not granted, denied, or not owned.
unfoldable pub may_write : WorkItem → List ℕ → Bool
unfolding matches_any
may_write item path =
    (is_empty item.allowed_paths || matches_any path item.allowed_paths)
    && not (not (is_empty item.forbidden_paths) && matches_any path item.forbidden_paths)
    && (is_empty item.owned_files || matches_any path item.owned_files)

-- _SCOPE_PREFIXES.get(slot, "")
abbrev pub scope_prefix : Option String → List ℕ
scope_prefix none = []
scope_prefix (some slot) =
    if slot == "backend"
    then codes "backend/"
    else if slot == "frontend"
    then codes "frontend/"
    else []

-- The path in the partition of the item's slot, or none where it is refused.
abbrev pub partition_path : WorkItem → List ℕ → Option (List ℕ)
partition_path item path =
    let prefix = scope_prefix item.slot in
    if is_empty prefix || begins path prefix
    then some path
    else if not (is_empty item.allowed_paths) && matches_any (prefix ++ path) item.allowed_paths
    then some (prefix ++ path)
    else none

-- write_staged_file: the path that is written, or none where the gate refuses, for a path as
-- _validate_path returns it and a content that is not blank
unfoldable pub write_staged_file : WorkItem → List ℕ → Option (List ℕ)
unfolding matches_any may_write
write_staged_file item path =
    if not (item.execution_mode == partitioned) then none else elim (partition_path item path) [
      | none ↦ none
      | some target ↦ if may_write item target then some target else none
    ]
