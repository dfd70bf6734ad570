-- ===== src/Examples/Scopes.antt =====
-- Repairs of a work item that may write under docs/.
use project_os.Base.{
  ◌≡◌, refl, true, false, none, some, nat_eq, [], ◌∷◌, codes, glob, ok, string_eq, option_eq,
  list_eq,
}
use project_os.Execution.{mode_eq}
use project_os.WorkItem.{WorkItem}
use project_os.WorkItem.Paths.{within_pattern}
use project_os.WorkItem.Scope.{
  validate_scope_transition, check_revised, may_write, matches_any, write_staged_file,
}
use project_os.WorkItem.Scope.Narrows.{validate_scope_transition-narrows}
use project_os.Examples.Items.{part}

abbrev documents : WorkItem
documents = record part { allowed_paths = "docs/*" ∷ [] }

abbrev repaired : WorkItem
repaired = record documents {
  allowed_paths = "docs/api.md" ∷ [];
  forbidden_paths = "docs/private/*" ∷ "tests/**" ∷ [];
}

repair_passes : validate_scope_transition documents repaired ≡ ok tt
unfolding validate_scope_transition check_revised within_pattern glob
repair_passes = refl

repair_writes : write_staged_file repaired (codes "docs/api.md") ≡ some (codes "docs/api.md")
unfolding write_staged_file may_write matches_any glob
repair_writes = refl

validate_scope_transition-narrows_example :
    write_staged_file documents (codes "docs/api.md") ≡ some (codes "docs/api.md")
validate_scope_transition-narrows_example =
    validate_scope_transition-narrows documents repaired refl refl refl refl repair_passes
      (codes "docs/api.md") {target = codes "docs/api.md"} repair_writes

-- The slot is not checked: a repair of another slot is granted what the original is refused.
abbrev backend : WorkItem
backend = record part { slot = some "backend"; allowed_paths = "frontend/x.py" ∷ [] }

abbrev frontend : WorkItem
frontend = record backend { slot = some "frontend" }

frontend_passes : validate_scope_transition backend frontend ≡ ok tt
unfolding validate_scope_transition check_revised within_pattern glob
frontend_passes = refl

frontend_writes : write_staged_file frontend (codes "frontend/x.py") ≡ some (codes "frontend/x.py")
unfolding write_staged_file may_write matches_any glob
frontend_writes = refl

backend_refuses : write_staged_file backend (codes "frontend/x.py") ≡ none
unfolding write_staged_file may_write matches_any glob
backend_refuses = refl

-- A repair that drops every path passes, and the gate grants it every path.
abbrev undeclared : WorkItem
undeclared = record documents { allowed_paths = [] }

undeclared_passes : validate_scope_transition documents undeclared ≡ ok tt
unfolding validate_scope_transition check_revised
undeclared_passes = refl

undeclared_writes : may_write undeclared (codes "src/main.py") ≡ true
unfolding may_write matches_any glob
undeclared_writes = refl

documents_refuses : may_write documents (codes "src/main.py") ≡ false
unfolding may_write matches_any glob
documents_refuses = refl
