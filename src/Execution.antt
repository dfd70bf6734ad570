-- ===== src/Execution.antt =====
-- `ExecutionMode` (app/execution_context.py) and `ArtifactRef` (app/artifact/repository.py).
use project_os.Base.{
  String, ◌≡◌, refl, some, none, Option, List, [], ◌∷◌, find?, Eq, ◌==◌, Enum, enum_eq, string_eq,
  if◌then◌else◌,
}
use Prim.Native.String.{◌++◌}

pub data ExecutionMode : Type 0 where
  exclusive partitioned integration quality_gate : ExecutionMode

abbrev pub mode_value : ExecutionMode → String
mode_value exclusive = "exclusive"
mode_value partitioned = "partitioned"
mode_value integration = "integration"
mode_value quality_gate = "quality_gate"

abbrev pub modes : List ExecutionMode
modes = exclusive ∷ partitioned ∷ integration ∷ quality_gate ∷ []

pub mode_found : (a : ExecutionMode) → find? (λ b. mode_value b == mode_value a) modes ≡ some a
mode_found exclusive = refl
mode_found _ = refl

abbrev pub mode_enum : Enum ExecutionMode
mode_enum = record { value = mode_value; members = modes; found = mode_found }

instance abbrev pub mode_eq : Eq ExecutionMode
mode_eq = enum_eq mode_enum

pub record ArtifactRef : Type 0 where
  pub artifact_key : String
  pub layer : String
  pub trace_id : Option String
  pub work_item_id : Option String
  pub slot : Option String
  pub revision_id : Option String

-- f"{x}" of an optional text; `None` is printed as such
abbrev shown : Option String → String
shown none = "None"
shown (some s) = s

-- `x or default`, which passes over an empty text too
abbrev pub or_else : String → Option String → String
or_else default none = default
or_else default (some s) = if s == "" then default else s

unfoldable pub ref_id : ArtifactRef → String
ref_id ref =
    if ref.layer == "published"
    then "published:" ++ ref.artifact_key ++ ":" ++ or_else "current" ref.revision_id
    else "staged:" ++ shown ref.trace_id ++ ":" ++ shown ref.work_item_id ++ ":" ++ shown ref.slot
