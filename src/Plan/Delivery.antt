-- ===== src/Plan/Delivery.antt =====
-- `DeliveryContractRegistry.validate_work_item` and `validate_plan`
-- (app/orchestration/delivery_registry.py).
use project_os.Base.{
  String, Bool, not, Option, none, some, List, [], ◌∷◌, ◌++◌, map, ◌==◌, string_eq, list_eq,
  fnmatch, is_empty, if◌then◌else◌, Dict, lookup, insert, Eq, ◌&&◌, ◌↔◌, ◌≡◌, arith,
}
use project_os.Execution.{partitioned, mode_eq, or_else}
use project_os.Contracts.{contract_for}
use project_os.WorkItem.{WorkItem, role_of}

-- An error names its item; a taken output names both.
pub data DeliveryError : Type 0 where
  tools_differ slot_differs : String → DeliveryError
  output_taken : String → String → DeliveryError

abbrev slot_fits : Option String → String → Bool
slot_fits none slot = Bool.true
slot_fits (some pattern) slot = fnmatch slot pattern

unfoldable pub validate_work_item : WorkItem → List DeliveryError
validate_work_item item = elim (contract_for (role_of item)) [
  | none ↦ []
  | some contract ↦
      (if item.required_tools == contract.required_tools then [] else tools_differ item.id ∷ [])
      ++ (if slot_fits contract.output_slot_pattern (or_else "" item.slot)
          then []
          else slot_differs item.id ∷ [])
]

-- (artifact_key, identity, stage_id): where a partitioned item puts its output
abbrev pub Output : Type 0
Output = String × String × String

abbrev pub output_beq : Output → Output → Bool
output_beq a b = a.0 == b.0 && a.1 == b.1 && a.2 == b.2

pub output_beq_iff : (a b : Output) → (output_beq a b ≡ Bool.true) ↔ (a ≡ b)
output_beq_iff a b = (
  λ h.
      ground
        (arith, string_eq.beq_iff a.0 b.0, string_eq.beq_iff a.1 b.1, string_eq.beq_iff a.2 b.2),
  λ h.
      ground
        (arith, string_eq.beq_iff a.0 b.0, string_eq.beq_iff a.1 b.1, string_eq.beq_iff a.2 b.2),
)

instance abbrev pub output_eq : Eq Output
output_eq = record { beq = output_beq; beq_iff = output_beq_iff }

-- owned_files or (slot,)
abbrev identities : WorkItem → List String
identities item = if is_empty item.owned_files then or_else "" item.slot ∷ [] else item.owned_files

-- The outputs that an item occupies: none unless it is partitioned, with a key and a slot.
unfoldable pub outputs : WorkItem → List Output
outputs item =
    let key = or_else "" item.artifact_key in
    if item.execution_mode == partitioned && not (key == "") && not (or_else "" item.slot == "")
    then map (λ identity. (key, identity, or_else "" item.stage_id)) (identities item)
    else []

-- previous is not None and previous != item_id
abbrev taken_by : String → Option String → Option String
taken_by item_id none = none
taken_by item_id (some previous) = if previous == item_id then none else some previous

abbrev record_output : String → Output → Option String → Dict Output String → Dict Output String
record_output item_id output none seen = insert output item_id seen
record_output item_id output (some previous) seen = seen

abbrev output_errors : String → Option String → List DeliveryError
output_errors item_id none = []
output_errors item_id (some previous) = output_taken previous item_id ∷ []

-- The inner loop: an output of another item is an error, any other is taken.
unfoldable pub occupy :
    String → List Output → Dict Output String → List DeliveryError × Dict Output String
occupy item_id [] seen = ([], seen)
occupy item_id (output ∷ rest) seen =
    let taken = taken_by item_id (lookup output seen) in
    let (errors, seen') = occupy item_id rest (record_output item_id output taken seen) in
    (output_errors item_id taken ++ errors, seen')

unfoldable pub validate_from : List WorkItem → Dict Output String → List DeliveryError
unfolding occupy
validate_from [] seen = []
validate_from (item ∷ items) seen =
    let occupied = occupy item.id (outputs item) seen in
    validate_work_item item ++ occupied.0 ++ validate_from items occupied.1

-- DeliveryContractRegistry.validate_plan
unfoldable pub validate_plan : List WorkItem → List DeliveryError
unfolding validate_from
validate_plan items = validate_from items []
