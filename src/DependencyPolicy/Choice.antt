-- ===== src/DependencyPolicy/Choice.antt =====
-- Which candidate `_add_unambiguous_dependency` chooses (app/planner/dependency_policy.py).
use project_os.Base.{
  String, ◌≡◌, Bool, true, some, List, [], ◌∷◌, ◌++◌, string_eq, elem, elem-append, elem-filter,
  elem-unique, filter, unique, ok, >>=-eq-ok, Dict, keys, arith,
}
use project_os.WorkItem.{DependencySource, WorkItemDependency}
use project_os.DependencyPolicy.{
  Table, get, add_dependency, ids_of, only_one, choose, add_unambiguous_dependency,
}

-- What is chosen is a candidate.
only_one-elem :
    (context : String) (keys : List String) {key : String}
    → only_one context keys ≡ ok key
    → elem key keys ≡ true
only_one-elem context [] h = cc
only_one-elem context (k ∷ []) {key} h =
    let same : k ≡ key = cc in ground (arith, string_eq.beq_iff key k)
only_one-elem context (k ∷ l ∷ keys) h = cc

several-elem :
    (context : String) (candidates named : List String) (row : Dict String WorkItemDependency)
    {key : String}
    → only_one context (
        unique
          (filter (λ k. elem k candidates) named ++ filter (λ k. elem k candidates) (keys row)))
      ≡ ok key
    → elem key candidates ≡ true
several-elem context candidates named row {key} h =
    let left = filter (λ k. elem k candidates) named in
    let right = filter (λ k. elem k candidates) (keys row) in
    let there = only_one-elem context (unique (left ++ right)) h in
    let plain = elem-unique key (left ++ right) in
    let split = elem-append key left right in
    let l = elem-filter (λ k. elem k candidates) key named in
    let r = elem-filter (λ k. elem k candidates) key (keys row) in ground arith

choose-elem :
    (table : Table) (target : String) (candidates refs : List String) (by_ref : Dict String String)
    (context : String) {key : String}
    → choose table target candidates refs by_ref context ≡ ok key
    → elem key candidates ≡ true
choose-elem table target (candidate ∷ []) refs by_ref context {key} h =
    let same : candidate ≡ key = cc in ground (arith, string_eq.beq_iff key candidate)
choose-elem table target [] refs by_ref context h =
    let (named, n, h1) = >>=-eq-ok (ids_of by_ref refs) _ h in
    let (row, r, h2) = >>=-eq-ok (get table target) _ h1 in several-elem context [] named row h2
choose-elem table target (a ∷ b ∷ rest) refs by_ref context h =
    let (named, n, h1) = >>=-eq-ok (ids_of by_ref refs) _ h in
    let (row, r, h2) = >>=-eq-ok (get table target) _ h1 in
    several-elem context (a ∷ b ∷ rest) named row h2

-- _add_unambiguous_dependency is _add of a candidate.
pub add_unambiguous_dependency-eq-ok :
    (table : Table) (target : String) (candidates refs : List String) (by_ref : Dict String String)
    (source : DependencySource) (rule_id context : String) (overwrite : Bool) {after : Table}
    → add_unambiguous_dependency table target candidates refs by_ref source rule_id context
        overwrite
      ≡ ok after
    → (key : String) × (elem key candidates ≡ true)
      × (add_dependency overwrite table target
            (record { work_item_id = key; source = source; rule_id = some rule_id })
          ≡ ok after)
add_unambiguous_dependency-eq-ok table target candidates refs by_ref source rule_id context
      overwrite h =
    let (key, c, h1) = >>=-eq-ok (choose table target candidates refs by_ref context) _ h in
    (key, choose-elem table target candidates refs by_ref context c, h1)
