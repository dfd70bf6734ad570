-- ===== src/WorkItem/Grants.antt =====
-- What a work item that was made may do, and that its contract is sealed.
use project_os.Base.{
  String, ◌≡◌, subst, sym, ap, refl, Bool, true, false, Option, none, some, ◌==◌, string_eq,
  distinct, elem, is_blank, if◌then◌else◌, ok, >>-eq-ok, >>=-eq-ok, arith, inl, inr, Bool-cases,
  list_eq, nat_eq, option_eq,
}
use project_os.Execution.{ExecutionMode, exclusive, partitioned, integration, quality_gate}
use project_os.WorkItem.{
  WorkItem, dependency_ids, Digest, contract_payload, compute_contract_digest,
}
use project_os.WorkItem.Init.{
  init, check_given, check_tooled, keyed, filled, validate_execution_grant, missing, seal,
  settle_tools,
}

-- The write authority of a mode: an own slot, a publication, a gated publication, or none of them.
abbrev pub Authority : ExecutionMode → WorkItem → Type 0
Authority partitioned item =
    (missing item.slot ≡ false)
    × (item.publish_target ≡ none)
    × (item.candidate_from_work_item_id ≡ none)
Authority integration item =
    (missing item.publish_target ≡ false)
    × (item.slot ≡ none)
    × (item.candidate_from_work_item_id ≡ none)
Authority quality_gate item =
    (missing item.publish_target ≡ false)
    × (missing item.candidate_from_work_item_id ≡ false)
    × (item.slot ≡ none)
Authority exclusive item =
    (item.slot ≡ none) × (item.publish_target ≡ none) × (item.candidate_from_work_item_id ≡ none)

grant-Authority :
    (mode : ExecutionMode) (item : WorkItem)
    → item.execution_mode ≡ mode
    → validate_execution_grant item ≡ ok tt
    → Authority mode item
unfolding validate_execution_grant
grant-Authority partitioned item m h = ground arith
grant-Authority _ item m h = ground arith

-- What an item that was made satisfies.
pub record IsValid (digest : Digest) (item : WorkItem) : Type 0 where
  pub named : is_blank item.id ≡ false
  pub distinct_dependencies : distinct (dependency_ids item) ≡ true
  pub not_own_dependency : elem item.id (dependency_ids item) ≡ false
  pub authority : Authority item.execution_mode item
  pub sealed : item.contract_digest ≡ some (compute_contract_digest digest item)

-- Sealing touches no field that grants something.
Authority-resealed :
    (mode : ExecutionMode) (item : WorkItem) (d : Option String) (l : Bool)
    → Authority mode item
    → Authority mode (record item { contract_digest = d; legacy_contract_digest = l })
Authority-resealed partitioned item d l a = a
Authority-resealed integration item d l a = a
Authority-resealed quality_gate item d l a = a
Authority-resealed exclusive item d l a = a

pub seal_cases :
    (digest : Digest) (item : WorkItem) {made : WorkItem}
    → item.legacy_contract_digest ≡ false
    → seal digest item ≡ ok made
    → (d : Option String) × (l : Bool) × (made
        ≡ record item { contract_digest = d; legacy_contract_digest = l })
      × (d ≡ some (digest (contract_payload (if l then false else true) item)))
unfolding seal
seal_cases digest item {made} l h = go item.contract_digest refl
  where
    go :
        (given : Option String)
        → item.contract_digest ≡ given
        → (d : Option String) × (l : Bool) × (made
            ≡ record item { contract_digest = d; legacy_contract_digest = l })
          × (d ≡ some (digest (contract_payload (if l then false else true) item)))
    go none g = (some (digest (contract_payload true item)), false, ground arith, refl)
    go (some text) g = elim (Bool-cases (text == digest (contract_payload true item))) [
      | inl t ↦ (
        item.contract_digest,
        false,
        ground arith,
        ground (arith, string_eq.beq_iff text (digest (contract_payload true item))),
      )
      | inr f ↦ elim (Bool-cases (text == digest (contract_payload false item))) [
        | inl t ↦ (
          item.contract_digest,
          true,
          ground arith,
          ground (arith, string_eq.beq_iff text (digest (contract_payload false item))),
        )
        | inr f' ↦ absurd (ground arith)
      ]
    ]

resealed-IsValid :
    (digest : Digest) (item : WorkItem) (d : Option String) (l : Bool)
    → is_blank item.id ≡ false
    → distinct (dependency_ids item) ≡ true
    → elem item.id (dependency_ids item) ≡ false
    → Authority item.execution_mode item
    → d ≡ some (digest (contract_payload (if l then false else true) item))
    → IsValid digest (record item { contract_digest = d; legacy_contract_digest = l })
unfolding compute_contract_digest
resealed-IsValid digest item d l n dd o a s = record {
  named = n;
  distinct_dependencies = dd;
  not_own_dependency = o;
  authority = Authority-resealed item.execution_mode item d l a;
  sealed = s;
}

seal-IsValid :
    (digest : Digest) (item : WorkItem) {made : WorkItem}
    → item.legacy_contract_digest ≡ false
    → is_blank item.id ≡ false
    → distinct (dependency_ids item) ≡ true
    → elem item.id (dependency_ids item) ≡ false
    → Authority item.execution_mode item
    → seal digest item ≡ ok made
    → IsValid digest made
seal-IsValid digest item l n dd o a h =
    let (d, l', same, s) = seal_cases digest item l h in
    subst (IsValid digest) (sym same) (resealed-IsValid digest item d l' n dd o a s)

-- The settled tools are the only change.
pub settle_tools_lem :
    (item : WorkItem) {tooled : WorkItem}
    → settle_tools item ≡ ok tooled
    → tooled ≡ record item { required_tools = tooled.required_tools }
unfolding settle_tools
settle_tools_lem item {tooled} h = ground arith

check_given_id : (given : WorkItem) → check_given given ≡ ok tt → is_blank given.id ≡ false
unfolding check_given
check_given_id given h = ground arith

check_tooled_lem :
    (item : WorkItem)
    → check_tooled item ≡ ok tt
    → (distinct (dependency_ids item) ≡ true)
      × (elem item.id (dependency_ids item) ≡ false)
      × (validate_execution_grant item ≡ ok tt)
unfolding check_tooled
check_tooled_lem item h = ground arith

-- Filling the output kind in changes no field that grants something.
Authority-filled :
    (mode : ExecutionMode) (item : WorkItem) → Authority mode item → Authority mode (filled item)
Authority-filled partitioned item a = a
Authority-filled integration item a = a
Authority-filled quality_gate item a = a
Authority-filled exclusive item a = a

-- An item that is made has an id, distinct dependencies other than itself, the write authority of
-- its mode and no other, and a digest that seals its contract.
pub init-IsValid :
    (digest : Digest) (given : WorkItem) {item : WorkItem}
    → init digest given ≡ ok item
    → IsValid digest item
unfolding init
init-IsValid digest given h =
    let (c1, h1) = >>-eq-ok (check_given given) _ h in
    let (tooled, c2, h2) = >>=-eq-ok (settle_tools (keyed given)) _ h1 in
    let (c3, h3) = >>-eq-ok (check_tooled tooled) (seal digest (filled tooled)) h2 in
    let kept = settle_tools_lem (keyed given) c2 in
    let (d, o, g) = check_tooled_lem tooled c3 in
    seal-IsValid digest (filled tooled) (ap (λ (w : WorkItem). w.legacy_contract_digest) kept)
      (rw (ap (λ (w : WorkItem). w.id) kept) (check_given_id given c1)) d o
      (Authority-filled _ tooled (grant-Authority _ tooled refl g)) h3
