-- ===== src/DependencyPolicy/Growth.antt =====
-- A dependency that is in a row stays there, and one of the system stays one (`_add` and
-- `_add_unambiguous_dependency`, app/planner/dependency_policy.py).
use project_os.Base.{
  >>-eq-ok, String, ◌≡◌, refl, ap, ◌∙◌, subst, Bool, true, false, not, ◌||◌, Option, none, some, [],
  ◌∷◌, ◌==◌, string_eq, beq_refl, all-mem, lookup-mem, lookup-has_key, all, if◌then◌else◌, ok,
  >>=-eq-ok, Dict, lookup, has_key, insert, lookup-insert, has_key-lookup, arith, inl, inr,
  Bool-cases, Option-cases,
}
use project_os.WorkItem.{system, WorkItemDependency}
use project_os.DependencyPolicy.{check_dependency, Table, get, add_dependency}

abbrev pub is_system : WorkItemDependency → Bool
is_system dependency = elim dependency.source [ system ↦ true | _ ↦ false ]

-- Whether a row has a dependency with a property.
abbrev pub row_holds :
    (WorkItemDependency → Bool) → Option (Dict String WorkItemDependency) → String → Bool
row_holds p none key = false
row_holds p (some row) key = elim (lookup key row) [ none ↦ false | some d ↦ p d ]

abbrev pub holds : (WorkItemDependency → Bool) → Table → String → String → Bool
holds p table target key = row_holds p (lookup target table) key

-- Every dependency stands under its own id.
abbrev pub is_keyed_row : Dict String WorkItemDependency → Bool
is_keyed_row row = all (λ entry. entry.0 == entry.1.work_item_id) row

abbrev pub is_keyed : Table → Bool
is_keyed table = all (λ entry. is_keyed_row entry.1) table

module _ {V : Type 0} (p : String × V → Bool) where
  pub all-insert :
      (key : String) (value : V) (dict : Dict String V)
      → all p dict ≡ true
      → p (key, value) ≡ true
      → all p (insert key value dict) ≡ true
  all-insert key value [] h q = rw q refl
  all-insert key value ((other, old) ∷ dict) h q = elim (Bool-cases (key == other)) [
    | inl t ↦
        let same = ap (λ k. p (k, value)) ((string_eq.beq_iff key other).0 t) in rw t (ground arith)
    | inr f ↦ rw f (ground (arith, all-insert key value dict (ground arith) q))
  ]

  all-lookup :
      (key : String) (dict : Dict String V) {value : V}
      → all p dict ≡ true
      → lookup key dict ≡ some value
      → p (key, value) ≡ true
  all-lookup key dict h l = all-mem p dict h (lookup-mem key dict l)

-- What every step of `resolve` does to the table.
pub record Keeps (before after : Table) : Type 0 where
  pub keeps_all :
      (target key : String)
      → holds (λ d. true) before target key ≡ true
      → holds (λ d. true) after target key ≡ true
  pub keeps_system :
      (target key : String)
      → holds is_system before target key ≡ true
      → holds is_system after target key ≡ true
  pub keeps_keyed : is_keyed before ≡ true → is_keyed after ≡ true

pub Keeps-refl : (table : Table) → Keeps table table
Keeps-refl table = record {
  keeps_all = λ target key h. h;
  keeps_system = λ target key h. h;
  keeps_keyed = λ h. h;
}

pub Keeps-trans : {a b c : Table} → Keeps a b → Keeps b c → Keeps a c
Keeps-trans f g = record {
  keeps_all = λ target key h. g.keeps_all target key (f.keeps_all target key h);
  keeps_system = λ target key h. g.keeps_system target key (f.keeps_system target key h);
  keeps_keyed = λ h. g.keeps_keyed (f.keeps_keyed h);
}

-- A dependency is put in the row of its target.
abbrev put : Table → String → Dict String WorkItemDependency → WorkItemDependency → Table
put table target row dependency =
    insert target (insert dependency.work_item_id dependency row) table

module _ (p : WorkItemDependency → Bool) (row : Dict String WorkItemDependency)
    (dependency : WorkItemDependency) where
  row-put :
      (key : String)
      → (p dependency || not (has_key dependency.work_item_id row)) ≡ true
      → row_holds p (some row) key ≡ true
      → row_holds p (some (insert dependency.work_item_id dependency row)) key ≡ true
  row-put key fine h =
      let found = lookup-insert dependency.work_item_id key dependency row in
      elim (Bool-cases (key == dependency.work_item_id)) [
        | inl t ↦
            let same =
              ap (λ k. has_key k row) ((string_eq.beq_iff key dependency.work_item_id).0 t) in
            elim (Option-cases (lookup key row)) [
              | inl n ↦ absurd (let nothing = rw (n, row_holds) at h in cc)
              | inr (d, l) ↦
                  let present = lookup-has_key key row l in
                  rw (row_holds, found, t, if◌then◌else◌) (ground arith)
            ]
        | inr f ↦ rw (row_holds, found, f, if◌then◌else◌) h
      ]

  put-holds :
      (table : Table) (target : String)
      → lookup target table ≡ some row
      → (p dependency || not (has_key dependency.work_item_id row)) ≡ true
      → (other key : String) → holds p table other key ≡ true
      → holds p (put table target row dependency) other key ≡ true
  put-holds table target r fine other key h =
      let new_row = insert dependency.work_item_id dependency row in
      elim (Bool-cases (other == target)) [
        | inl t ↦
            let old = ap (λ k. lookup k table) ((string_eq.beq_iff other target).0 t) ∙ r in
            rw (lookup-insert target other new_row table, t) (row-put key fine (rw old at h))
        | inr f ↦ rw (lookup-insert target other new_row table, f) h
      ]

-- The dependency that was put is there.
put-has :
    (p : WorkItemDependency → Bool) (table : Table) (target : String)
    (row : Dict String WorkItemDependency) (dependency : WorkItemDependency)
    → p dependency ≡ true
    → holds p (put table target row dependency) target dependency.work_item_id ≡ true
put-has p table target row dependency q =
    let id = dependency.work_item_id in
    let outer = lookup-insert target target (insert id dependency row) table in
    let inner = lookup-insert id id dependency row in
    let same_target : (target == target) ≡ true = beq_refl target in
    let same_id : (id == id) ≡ true = beq_refl id in
    rw (outer, same_target, if◌then◌else◌, row_holds, inner, same_id) q

put-keyed :
    (table : Table) (target : String) (row : Dict String WorkItemDependency)
    (dependency : WorkItemDependency)
    → lookup target table ≡ some row
    → is_keyed table ≡ true
    → is_keyed (put table target row dependency) ≡ true
put-keyed table target row dependency r k =
    let id = dependency.work_item_id in
    let here = all-lookup (λ entry. is_keyed_row entry.1) target table k r in
    all-insert (λ entry. is_keyed_row entry.1) target (insert id dependency row) table k
      (all-insert (λ entry. entry.0 == entry.1.work_item_id) id dependency row here (beq_refl id))

pub get-eq-ok :
    {V : Type 0} (dict : Dict String V) (key : String) {value : V}
    → get dict key ≡ ok value
    → lookup key dict ≡ some value
get-eq-ok dict key {value} h = elim (Option-cases (lookup key dict)) [
  | inl n ↦ absurd (let missing = rw (n, get) at h in cc)
  | inr (found, f) ↦ let e = rw (f, get) at h in let same : found ≡ value = cc in f ∙ ap some same
]

add_dependency-eq-ok :
    (overwrite : Bool) (table : Table) (target : String) (dependency : WorkItemDependency)
    {after : Table}
    → add_dependency overwrite table target dependency ≡ ok after
    → (row : Dict String WorkItemDependency) × (lookup target table ≡ some row)
      × ((if overwrite || not (has_key dependency.work_item_id row)
            then put table target row dependency
            else table)
          ≡ after)
unfolding add_dependency
add_dependency-eq-ok overwrite table target dependency {after} h =
    let (c, h0) = >>-eq-ok (check_dependency dependency) _ h in
    let (row, r, h1) = >>=-eq-ok (get table target) _ h0 in (row, get-eq-ok table target r, cc)

-- _add keeps what there is,
pub add_dependency-Keeps :
    (overwrite : Bool) (table : Table) (target : String) (dependency : WorkItemDependency)
    {after : Table}
    → (not overwrite || is_system dependency) ≡ true
    → add_dependency overwrite table target dependency ≡ ok after
    → Keeps table after
add_dependency-Keeps overwrite table target dependency {after} fine h =
    let (row, r, same) = add_dependency-eq-ok overwrite table target dependency h in
    elim (Bool-cases (overwrite || not (has_key dependency.work_item_id row))) [
      | inl t ↦ subst (Keeps table) (rw (t, if◌then◌else◌) at same) (record {
        keeps_all = put-holds (λ d. true) row dependency table target r refl;
        keeps_system = put-holds is_system row dependency table target r (ground arith);
        keeps_keyed = put-keyed table target row dependency r;
      })
      | inr f ↦ subst (Keeps table) (rw (f, if◌then◌else◌) at same) (Keeps-refl table)
    ]

-- and its dependency is there then: as it is, where it overwrites,
pub add_dependency-system :
    (table : Table) (target : String) (dependency : WorkItemDependency) {after : Table}
    → is_system dependency ≡ true
    → add_dependency true table target dependency ≡ ok after
    → holds is_system after target dependency.work_item_id ≡ true
add_dependency-system table target dependency {after} q h =
    let (row, r, same) = add_dependency-eq-ok true table target dependency h in
    subst (λ t. holds is_system t target dependency.work_item_id ≡ true) same
      (put-has is_system table target row dependency q)

-- or one under its id.
pub add_dependency-holds :
    (overwrite : Bool) (table : Table) (target : String) (dependency : WorkItemDependency)
    {after : Table}
    → add_dependency overwrite table target dependency ≡ ok after
    → holds (λ d. true) after target dependency.work_item_id ≡ true
add_dependency-holds overwrite table target dependency {after} h =
    let (row, r, same) = add_dependency-eq-ok overwrite table target dependency h in
    let id = dependency.work_item_id in
    elim (Bool-cases (overwrite || not (has_key id row))) [
      | inl t ↦
          subst (λ t. holds (λ d. true) t target id ≡ true) (rw (t, if◌then◌else◌) at same)
            (put-has (λ d. true) table target row dependency refl)
      | inr f ↦
          let (old, o) = has_key-lookup id row (ground arith) in
          subst (λ t. holds (λ d. true) t target id ≡ true) (rw (f, if◌then◌else◌) at same)
            (rw (r, row_holds, o) refl)
    ]
