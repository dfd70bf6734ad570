-- ===== src/Patch/Repair/Ordered.antt =====
-- A repair plan stands in the order of its dependencies (`apply_repair_patch`,
-- app/planner/patch.py).
use project_os.Base.{
  ℕ, suc, ◌+◌, String, ◌≡◌, refl, ap, sym, ◌∙◌, subst, Bool, true, false, not, ◌&&◌, ◌||◌, Option,
  List, [], ◌∷◌, ◌++◌, map, ◌==◌, string_eq, elem, elem-append, subset, length, length-append, ok,
  >>-eq-ok, >>=-eq-ok, refuse_if, refuse_if-eq-ok, arith, inl, inr, Option-cases, is_empty,
}
use project_os.WorkItem.{WorkItem, WorkItemDependency, Digest, dependency_ids}
use project_os.WorkItem.Init.{init}
use project_os.WorkItem.Kept.{init_keeps}
use project_os.Plan.{ExecutionPlan, item_ids}
use project_os.Plan.Init.{validate}
use project_os.Agents.{AgentDefinition}
use project_os.Patch.{
  PatchOperation, RepairPlanPatch, raising, given, is_add, addition, planner_dependency,
}
use project_os.Patch.Apply.{text_of}
use project_os.Patch.Revisions.{raising-eq-ok}
use project_os.Patch.Repair.{
  Repairs, item_error, plan_error, incomplete_operation, repeated_ref, later_dependency, id_taken,
  base_differs, unknown_scope, repair_id, repair_output_key, resolve_ref, resolve_all, append_item,
  repair_item, repair_step, repair_all, no_repairs, repair_plan, apply_repair_patch,
}

-- Each item has an id of its own that no original item has, and depends on items before it only.
abbrev pub stands_after : List String → List String → List WorkItem → Bool
stands_after original_ids earlier [] = true
stands_after original_ids earlier (item ∷ items) =
    subset (dependency_ids item) earlier
    && not (elem item.id original_ids)
    && not (elem item.id earlier)
    && stands_after original_ids (item.id ∷ earlier) items

-- The ids of the items and the earlier ones, wherever the first of them stands.
elem-moved :
    (key first : String) (ids earlier : List String)
    → elem key (ids ++ first ∷ earlier) ≡ elem key (first ∷ ids ++ earlier)
elem-moved key first ids earlier =
    ground (arith, elem-append key ids (first ∷ earlier), elem-append key ids earlier)

subset-moved :
    (keys : List String) (first : String) (ids earlier : List String)
    → subset keys (ids ++ first ∷ earlier) ≡ subset keys (first ∷ ids ++ earlier)
subset-moved [] first ids earlier = refl
subset-moved (key ∷ keys) first ids earlier =
    ground (arith, elem-moved key first ids earlier, subset-moved keys first ids earlier)

-- An item with a new id that depends on items before it may be appended.
stands_after-append :
    (original_ids earlier : List String) (items : List WorkItem) (item : WorkItem)
    → stands_after original_ids earlier items ≡ true
    → subset (dependency_ids item) (item_ids items ++ earlier) ≡ true
    → elem item.id original_ids ≡ false
    → elem item.id (item_ids items ++ earlier) ≡ false
    → stands_after original_ids earlier (items ++ item ∷ []) ≡ true
stands_after-append original_ids earlier [] item h d o n = ground arith
stands_after-append original_ids earlier (first ∷ items) item h d o n =
    let rest =
      stands_after-append original_ids (first.id ∷ earlier) items item (ground arith)
        (subset-moved (dependency_ids item) first.id (item_ids items) earlier ∙ d) o
        (elem-moved item.id first.id (item_ids items) earlier ∙ n) in
    ground arith

resolve_all-eq-ok :
    (repairs : Repairs) (names : List String) {keys : List String}
    → resolve_all repairs names ≡ ok keys
    → subset keys (item_ids repairs.additions) ≡ true
resolve_all-eq-ok repairs [] {keys} h =
    ap (λ k. subset k (item_ids repairs.additions)) (sym nothing)
  where
    nothing : [] ≡ keys
    nothing = cc
resolve_all-eq-ok repairs (name ∷ names) {keys} h =
    let key = resolve_ref repairs.ref_to_id name in
    let known = item_ids repairs.additions in
    let (c, h1) = >>-eq-ok (refuse_if (not (elem key known)) (later_dependency name)) _ h in
    let (rest, r, h2) = >>=-eq-ok (resolve_all repairs names) _ h1 in
    let here = refuse_if-eq-ok (not (elem key known)) (later_dependency name) c in
    let later = resolve_all-eq-ok repairs names r in
    let same : key ∷ rest ≡ keys = cc in subst (λ k. subset k known ≡ true) same (ground arith)

dependency_ids-planner :
    (keys : List String)
    → map (λ (d : WorkItemDependency). d.work_item_id) (map planner_dependency keys) ≡ keys
dependency_ids-planner [] = refl
dependency_ids-planner (key ∷ keys) = ap (◌∷◌ key) (dependency_ids-planner keys)

module _ (digest : Digest) (agents : String → Option AgentDefinition)
    (original_ids : List String) where
  repair_item-eq-ok :
      (index : ℕ) (repairs : Repairs) (operation : PatchOperation) (definition : AgentDefinition)
      {item : WorkItem}
      → repair_item digest agents original_ids index repairs operation definition ≡ ok item
      → (subset (dependency_ids item) (item_ids repairs.additions) ≡ true)
        × (elem item.id original_ids ≡ false)
        × (elem item.id (item_ids repairs.additions) ≡ false)
  repair_item-eq-ok index repairs operation definition {item} h =
      let known = item_ids repairs.additions in
      let key = repair_id index definition in
      let (dependencies, r, h1) = >>=-eq-ok (resolve_all repairs operation.depends_on) _ h in
      let (c, h2) =
        >>-eq-ok (refuse_if (elem key original_ids || elem key known) (id_taken key)) _ h1 in
      let free = refuse_if-eq-ok (elem key original_ids || elem key known) (id_taken key) c in
      let given =
        addition key (text_of operation.agent_id) (text_of operation.objective) definition
          (repair_output_key index definition) dependencies in
      let (name, deps, mode) =
        init_keeps digest given (raising-eq-ok item_error (init digest given) h2) in
      let ids =
        ap (map (λ (d : WorkItemDependency). d.work_item_id)) deps
        ∙ dependency_ids-planner dependencies in
      let to_original = ap (λ k. elem k original_ids) name in
      let to_known = ap (λ k. elem k known) name in
      (
        subst (λ k. subset k known ≡ true) (sym ids)
            (resolve_all-eq-ok repairs operation.depends_on r),
        ground arith,
        ground arith,
      )

  append-nil : (keys : List String) → keys ++ [] ≡ keys
  append-nil [] = refl
  append-nil (key ∷ keys) = ap (◌∷◌ key) (append-nil keys)

  -- What holds of the additions so far: they stand in order, one for each operation.
  repair_step-eq-ok :
      (index : ℕ) (repairs : Repairs) (operation : PatchOperation) {next : Repairs}
      → stands_after original_ids [] repairs.additions ≡ true
      → repair_step digest agents original_ids index repairs operation ≡ ok next
      → (stands_after original_ids [] next.additions ≡ true)
        × (length next.additions ≡ suc (length repairs.additions))
  repair_step-eq-ok index repairs operation {next} s h =
      let bad =
        not (is_add operation)
        || not (given operation.ref)
        || not (given operation.agent_id)
        || not (given operation.objective) in
      let (c, h1) = >>-eq-ok (refuse_if bad incomplete_operation) _ h in
      let (c', h2) =
        >>-eq-ok (refuse_if (elem (text_of operation.ref) repairs.refs) repeated_ref) _ h1 in
      elim (Option-cases (agents (text_of operation.agent_id))) [
        | inl n ↦ absurd (let refused = rw n at h2 in cc)
        | inr (definition, d) ↦
            let (item, i, h3) =
              >>=-eq-ok (repair_item digest agents original_ids index repairs operation definition)
                _ (rw d at h2) in
            let (deps, o, n) = repair_item-eq-ok index repairs operation definition i in
            let nil = append-nil (item_ids repairs.additions) in
            let same : append_item (text_of operation.ref) item repairs ≡ next = cc in
            subst
              (λ (r : Repairs).
                (stands_after original_ids [] r.additions ≡ true)
                × (length r.additions ≡ suc (length repairs.additions)))
              same
              (
                stands_after-append original_ids [] repairs.additions item s
                    (ap (subset (dependency_ids item)) nil ∙ deps) o (ap (elem item.id) nil ∙ n),
                omega (arith, length-append repairs.additions (item ∷ [])),
              )
      ]

  repair_all-eq-ok :
      (index : ℕ) (repairs : Repairs) (operations : List PatchOperation) {last : Repairs}
      → stands_after original_ids [] repairs.additions ≡ true
      → repair_all digest agents original_ids index repairs operations ≡ ok last
      → (stands_after original_ids [] last.additions ≡ true)
        × (length last.additions ≡ length repairs.additions + length operations)
  unfolding repair_all
  repair_all-eq-ok index repairs [] {last} s h =
      let same : repairs ≡ last = cc in
      subst
        (λ (r : Repairs).
          (stands_after original_ids [] r.additions ≡ true)
          × (length r.additions ≡ length repairs.additions + 0))
        same (s, omega arith)
  repair_all-eq-ok index repairs (operation ∷ operations) s h =
      let (next, n, h1) =
        >>=-eq-ok (repair_step digest agents original_ids index repairs operation) _ h in
      let (s', l) = repair_step-eq-ok index repairs operation s n in
      let (out, l') = repair_all-eq-ok (suc index) next operations s' h1 in (out, omega arith)

-- A repair plan has one item for each operation of the patch. Their ids are distinct and none of
-- them is that of an item of the plan; each depends on items before it only, and on none of the plan.
pub apply_repair_patch-stands_after :
    (digest : Digest) (agents : String → Option AgentDefinition) (plan : ExecutionPlan)
    (patch : RepairPlanPatch) (plan_id : Option String) {repaired : ExecutionPlan}
    → apply_repair_patch digest agents plan patch plan_id ≡ ok repaired
    → (stands_after (item_ids plan.work_items) [] repaired.work_items ≡ true)
      × (length repaired.work_items ≡ length patch.operations)
unfolding apply_repair_patch
apply_repair_patch-stands_after digest agents plan patch plan_id {repaired} h =
    let (c, h1) = >>-eq-ok (refuse_if (not (patch.base_plan_id == plan.id)) base_differs) _ h in
    let unknown =
      not (is_empty patch.repair_scope)
      && not (subset patch.repair_scope (item_ids plan.work_items)) in
    let (c', h2) = >>-eq-ok (refuse_if unknown unknown_scope) _ h1 in
    let (repairs, r, h3) =
      >>=-eq-ok (repair_all digest agents (item_ids plan.work_items) 1 no_repairs patch.operations)
        _ h2 in
    let made = repair_plan plan_id plan repairs.additions in
    let (v, h4) = >>-eq-ok (raising plan_error (validate made)) _ h3 in
    let same : made ≡ repaired = cc in
    let (s, l) =
      repair_all-eq-ok digest agents (item_ids plan.work_items) 1 no_repairs patch.operations refl
        r in
    subst
      (λ (p : ExecutionPlan).
        (stands_after (item_ids plan.work_items) [] p.work_items ≡ true)
        × (length p.work_items ≡ length patch.operations))
      same (s, omega arith)
