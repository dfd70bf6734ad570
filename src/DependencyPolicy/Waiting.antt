-- ===== src/DependencyPolicy/Waiting.antt =====
-- The result of `resolve` as a table of what each item waits for (app/planner/dependency_policy.py).
use project_os.Base.{
  String, ◌≡◌, refl, ap, ◌∙◌, Bool, true, ◌&&◌, Option, none, some, List, [], ◌∷◌, map, ◌==◌,
  string_eq, nat_eq, any, any_intro, mem_map, Dict, lookup, insert, lookup-mem, all-mem, arith, inl,
  inr, Bool-cases, Option-cases,
}
use project_os.WorkItem.{WorkItemDependency}
use project_os.DependencyPolicy.{Table}
use project_os.DependencyPolicy.Resolve.{as_tuples, with_rows, empty_rows}
use project_os.DependencyPolicy.Growth.{holds, is_keyed, is_keyed_row, row_holds, all-insert}

-- The dependencies of an item.
abbrev pub dependencies_of :
    Dict String (List WorkItemDependency) → String → List WorkItemDependency
dependencies_of resolved item = elim (lookup item resolved) [ none ↦ [] | some list ↦ list ]

-- An item waits for another for a reason with a property.
abbrev pub waits_for :
    (WorkItemDependency → Bool) → Dict String (List WorkItemDependency) → String → String → Bool
waits_for p resolved item key =
    any (λ dependency. dependency.work_item_id == key && p dependency)
      (dependencies_of resolved item)

lookup-as_tuples :
    (item : String) (table : Table) {row : Dict String WorkItemDependency}
    → lookup item table ≡ some row
    → lookup item (as_tuples table) ≡ some (map (λ dependency. dependency.1) row)
lookup-as_tuples item [] h = cc
lookup-as_tuples item ((other, old) ∷ table) {row} h = elim (Bool-cases (item == other)) [
  | inl t ↦ let e = rw t at h in let same : old ≡ row = cc in rw (t, same) refl
  | inr f ↦ rw f (lookup-as_tuples item table (rw f at h))
]

dependencies_of-row :
    (item : String) (table : Table) {row : Dict String WorkItemDependency}
    → lookup item table ≡ some row
    → dependencies_of (as_tuples table) item ≡ map (λ dependency. dependency.1) row
dependencies_of-row item table h =
    ap (λ (o : Option (List WorkItemDependency)). elim o [ none ↦ [] | some list ↦ list ])
      (lookup-as_tuples item table h)

pub waits_for-holds :
    (p : WorkItemDependency → Bool) (table : Table) (item key : String)
    → is_keyed table ≡ true
    → holds p table item key ≡ true
    → waits_for p (as_tuples table) item key ≡ true
waits_for-holds p table item key k h = elim (Option-cases (lookup item table)) [
  | inl n ↦ absurd (let e = rw n at h in cc)
  | inr (row, r) ↦
      let keyed = all-mem (λ entry. is_keyed_row entry.1) table k (lookup-mem item table r) in
      in_row row r keyed (rw r at h)
]
  where
    in_row :
        (row : Dict String WorkItemDependency)
        → lookup item table ≡ some row
        → is_keyed_row row ≡ true
        → row_holds p (some row) key ≡ true
        → waits_for p (as_tuples table) item key ≡ true
    in_row row r keyed h = elim (Option-cases (lookup key row)) [
      | inl n ↦ absurd (let e = rw (n, row_holds) at h in cc)
      | inr (d, l) ↦
          let entry = lookup-mem key row l in
          let own = all-mem (λ entry. entry.0 == entry.1.work_item_id) row keyed entry in
          let fine : p d ≡ true = rw (l, row_holds) at h in
          let turned : (d.work_item_id == key) ≡ true =
            ground
              (arith, string_eq.beq_iff key d.work_item_id, string_eq.beq_iff d.work_item_id key) in
          let test =
            λ (dependency : WorkItemDependency). dependency.work_item_id == key && p dependency in
          ap (any test) (dependencies_of-row item table r)
          ∙ any_intro test (map (λ dependency. dependency.1) row)
              (mem_map (λ (e : String × WorkItemDependency). e.1) row entry) (ground arith)
    ]

with_rows-keyed :
    (table : Table) (keys : List String)
    → is_keyed table ≡ true
    → is_keyed (with_rows table keys) ≡ true
with_rows-keyed table [] k = k
with_rows-keyed table (key ∷ keys) k =
    with_rows-keyed (insert key [] table) keys
      (all-insert (λ entry. is_keyed_row entry.1) key [] table k refl)

pub empty_rows-keyed :
    (table : Table) (agents : Dict String (List String))
    → is_keyed table ≡ true
    → is_keyed (empty_rows table agents) ≡ true
empty_rows-keyed table [] k = k
empty_rows-keyed table ((agent, ids) ∷ rest) k =
    empty_rows-keyed (with_rows table ids) rest (with_rows-keyed table ids k)
