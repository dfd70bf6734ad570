-- ===== src/Delivery/Matrix.antt =====
-- `RequirementRecord`, `TraceabilityMatrix` and `DeliveryStore.bind_evidence`
-- (app/orchestration/delivery.py). The file traceability.json is left out: the loop of
-- `bind_evidence` is a function on the matrix that it loads and saves.
use project_os.Base.{
  String, ◌≡◌, ◌∙◌, Bool, false, ◌||◌, Option, none, some, List, [], ◌∷◌, ◌++◌, ◌==◌, string_eq,
  elem, elem-append, elem-unique, unique, Dict, lookup, insert, if◌then◌else◌, Result, ok, ◌>>◌,
  refuse_if, is_blank, arith,
}

pub record RequirementRecord : Type 0 where
  pub requirement_id : String
  pub text : String
  pub acceptance_criteria : List String
  pub implementation_units : List String
  pub test_evidence_ids : List String
  pub runtime_evidence_ids : List String
  pub actor : Option String
  pub action : Option String
  pub preconditions : List String
  pub expected_outputs : List String
  pub error_cases : List String
  pub priority : String

abbrev pub TraceabilityMatrix : Type 0
TraceabilityMatrix = Dict String RequirementRecord

pub data MatrixError : Type 0 where
  blank_requirement_id : MatrixError

-- TraceabilityMatrix.register
unfoldable pub register :
    RequirementRecord → TraceabilityMatrix → Result MatrixError TraceabilityMatrix
register requirement matrix = do
  refuse_if (is_blank requirement.requirement_id) blank_requirement_id
  ok (insert requirement.requirement_id requirement matrix)

-- The loop that replaces the records of some requirements, and passes over unknown ids.
abbrev pub replace_one :
    (RequirementRecord → RequirementRecord) → String → TraceabilityMatrix → TraceabilityMatrix
replace_one f id matrix = elim (lookup id matrix) [
  | none ↦ matrix
  | some requirement ↦ insert id (f requirement) matrix
]

unfoldable pub replace_all :
    (RequirementRecord → RequirementRecord) → List String → TraceabilityMatrix → TraceabilityMatrix
replace_all f [] matrix = matrix
replace_all f (id ∷ ids) matrix = replace_all f ids (replace_one f id matrix)

-- tuple(dict.fromkeys((*values, value)))
abbrev pub add_once : String → List String → List String
add_once value values = unique (values ++ value ∷ [])

abbrev pub with_unit : String → RequirementRecord → RequirementRecord
with_unit unit_id requirement = record requirement {
  implementation_units = add_once unit_id requirement.implementation_units;
}

-- TraceabilityMatrix.bind_implementation
unfoldable pub bind_implementation : List String → String → TraceabilityMatrix → TraceabilityMatrix
unfolding replace_all
bind_implementation requirement_ids unit_id = replace_all (with_unit unit_id) requirement_ids

-- The fields that the new record is not given take their defaults.
abbrev pub with_evidence : String → Bool → RequirementRecord → RequirementRecord
with_evidence evidence_id runtime requirement = record {
  requirement_id = requirement.requirement_id;
  text = requirement.text;
  acceptance_criteria = requirement.acceptance_criteria;
  implementation_units = requirement.implementation_units;
  test_evidence_ids =
      if runtime
      then requirement.test_evidence_ids
      else add_once evidence_id requirement.test_evidence_ids;
  runtime_evidence_ids =
      if runtime
      then add_once evidence_id requirement.runtime_evidence_ids
      else requirement.runtime_evidence_ids;
  actor = none;
  action = none;
  preconditions = [];
  expected_outputs = [];
  error_cases = [];
  priority = "must";
}

-- DeliveryStore.bind_evidence
unfoldable pub bind_evidence : List String → String → Bool → TraceabilityMatrix → TraceabilityMatrix
unfolding replace_all
bind_evidence requirement_ids evidence_id runtime =
    replace_all (with_evidence evidence_id runtime) requirement_ids

pub elem-add_once :
    (x value : String) (values : List String)
    → elem x (add_once value values) ≡ (elem x values || x == value)
elem-add_once x value values =
    elem-unique x (values ++ value ∷ [])
    ∙ elem-append x values (value ∷ [])
    ∙ or_false (elem x values) (x == value)
  where
    or_false : (a b : Bool) → (a || (b || false)) ≡ (a || b)
    or_false a b = ground arith
