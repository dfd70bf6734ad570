-- ===== src/Patch/Invalidated.antt =====
-- Which items have to run again after a patch (`apply_patch`, app/planner/patch.py).
use project_os.Base.{
  suc, String, ◌≡◌, ◌↔◌, refl, ap, sym, ◌∙◌, Bool, true, false, not, ◌&&◌, ◌||◌, Option, List, [],
  ◌∷◌, ◌++◌, ◌==◌, string_eq, elem, elem-append, elem-filter, elem-map, elem-unique, elem-sorted,
  any, any-mem, any_intro, all, filter, length, unique, ok, arith, inl, inr, Bool-cases,
}
use project_os.WorkItem.{WorkItem, Digest}
use project_os.Graph.{Graph}
use project_os.Plan.{ExecutionPlan, item_ids, dependencies}
use project_os.Agents.{AgentDefinition}
use project_os.Patch.{PlanPatch, ChangeBudget, modified, added, removed}
use project_os.Patch.Checks.{remove_ids_of}
use project_os.Patch.Apply.{AppliedPlanPatch, apply_patch, budget_or_default}
use project_os.Patch.Downstream.{Downstream, changed_itself, depends, spread_iff}
use project_os.Patch.Revisions.{is_touched, item_ids-revised, invalidated-revised}
use project_os.Patch.Additions.{add_items_lem}
use project_os.Patch.Targets.{
  target_ids, elem-referenced_ids, check_targets_lem, is_changed-change_of,
}
use project_os.Patch.Kept.{is_kept}
use project_os.Patch.Applied.{Guarded, Built, apply_patch-eq-ok}

Downstream-mono :
    (graph : Graph String) (xs ys : List String)
    → ((key : String) → elem key xs ≡ true → elem key ys ≡ true)
    → (key : String) → Downstream graph xs key
    → Downstream graph ys key
Downstream-mono graph xs ys h key (changed_itself m) = changed_itself (h key m)
Downstream-mono graph xs ys h key (depends node d m edge before) =
    depends node d m edge (Downstream-mono graph xs ys h d before)

-- The ids that the patch itself changes: those that its modifications and removals name, and those
-- of the patched plan that are not of a kept item.
abbrev pub changed_ids : ExecutionPlan → PlanPatch → ExecutionPlan → List String
changed_ids plan patch next =
    target_ids patch.operations
    ++ filter (λ key. not (is_kept (item_ids plan.work_items) patch.operations key))
        (item_ids next.work_items)

module _ (digest : Digest) (agents : String → Option AgentDefinition) (plan : ExecutionPlan)
    (patch : PlanPatch) (completed : List String) (allow : Bool) (budget : ChangeBudget)
    (guarded : Guarded digest plan patch completed allow budget) where
  touched_targeted :
      (item : WorkItem)
      → is_touched digest (remove_ids_of patch.operations) (modified patch.operations) item
        ≡ elem item.id (target_ids patch.operations)
  touched_targeted item =
      let split =
        elem-referenced_ids item.id (modified patch.operations) (removed patch.operations) in
      let found =
        is_changed-change_of (item_ids plan.work_items) completed allow patch.operations item
          guarded.targets in
      ground arith

  -- The loop over the items invalidates what the modifications and the removals name.
  invalidated_targeted :
      (key : String)
      → any
          (λ item.
            key == item.id
            && is_touched digest (remove_ids_of patch.operations) (modified patch.operations) item)
          plan.work_items
        ≡ elem key (target_ids patch.operations)
  invalidated_targeted key = elim (Bool-cases (elem key (target_ids patch.operations))) [
    | inl t ↦
        let (known, free) =
          check_targets_lem (item_ids plan.work_items) completed allow
            (modified patch.operations ++ removed patch.operations) guarded.targets key t in
        let (item, m, same) = elem-map (λ (w : WorkItem). w.id) key plan.work_items known in
        let touched = touched_targeted item in
        let named = ap (λ k. elem k (target_ids patch.operations)) same in
        let here = (string_eq.beq_iff key item.id).1 (sym same) in
        any_intro test plan.work_items m (ground arith) ∙ sym t
    | inr f ↦ elim (Bool-cases (any test plan.work_items)) [
      | inl a ↦
          let (item, m, both) = any-mem test plan.work_items a in
          let touched = touched_targeted item in
          let here : (key == item.id) ≡ true = ground arith in
          let same = (string_eq.beq_iff key item.id).0 here in
          let named = ap (λ k. elem k (target_ids patch.operations)) same in absurd (ground arith)
      | inr a ↦ a ∙ sym f
    ]
  ]
    where
      test : WorkItem → Bool
      test item =
          key == item.id
          && is_touched digest (remove_ids_of patch.operations) (modified patch.operations) item

  first_changed :
      {applied : AppliedPlanPatch} (built : Built digest agents plan patch applied) (key : String)
      → elem key (built.draft.invalidated ++ item_ids built.additions)
        ≡ elem key (changed_ids plan patch applied.plan)
  first_changed {applied} built key =
      let ids = item_ids plan.work_items in
      let kept_ids = item_ids built.draft.next_items in
      let added_ids = item_ids built.additions in
      let from_items =
        invalidated-revised digest (remove_ids_of patch.operations) (modified patch.operations) key
          built.revises in
      let kept =
        ap (elem key) (
          item_ids-revised digest (remove_ids_of patch.operations) (modified patch.operations)
            built.revises)
        ∙ elem-filter (λ k. not (elem k (remove_ids_of patch.operations))) key ids in
      let (l, f, d) = add_items_lem digest agents 1 kept_ids (added patch.operations) built.adds in
      let new = new_ids kept_ids added_ids f key in
      let all_ids =
        ap (λ items. elem key (item_ids items)) built.items
        ∙ ids_append built.draft.next_items built.additions in
      let right =
        elem-filter (λ k. not (is_kept ids patch.operations k)) key
          (item_ids applied.plan.work_items) in
      let left = elem-append key built.draft.invalidated added_ids in
      let whole =
        elem-append key (target_ids patch.operations)
          (filter (λ k. not (is_kept ids patch.operations k)) (item_ids applied.plan.work_items)) in
      left
      ∙ table (elem key added_ids) (from_items ∙ invalidated_targeted key) kept new all_ids right
      ∙ sym whole
    where
      ids_append :
          (xs ys : List WorkItem)
          → elem key (item_ids (xs ++ ys)) ≡ (elem key (item_ids xs) || elem key (item_ids ys))
      ids_append [] ys = refl
      ids_append (x ∷ xs) ys = ground (arith, ids_append xs ys)

      new_ids :
          (known keys : List String)
          → all (λ k. not (elem k known)) keys ≡ true
          → (key : String) → (elem key keys && elem key known) ≡ false
      new_ids known [] h key = refl
      new_ids known (k ∷ keys) h key = elim (Bool-cases (key == k)) [
        | inl t ↦ let same = ap (λ j. elem j known) ((string_eq.beq_iff key k).0 t) in ground arith
        | inr f ↦ ground (arith, new_ids known keys (ground arith) key)
      ]

      table :
          (new : Bool) {invalid target kept known all_of right : Bool}
          → invalid ≡ target
          → kept ≡ known
          → (new && kept) ≡ false
          → all_of ≡ (kept || new)
          → right ≡ (all_of && not known)
          → (invalid || new) ≡ (target || right)
      table new a b c d e = ground arith

-- After a patch the invalidated ids are those downstream of the ones that the patch changes: no item
-- that depends on a changed one is left out, and no other has to run again.
pub apply_patch-invalidated :
    (digest : Digest) (agents : String → Option AgentDefinition) (plan : ExecutionPlan)
    (patch : PlanPatch) (completed : List String) (allow_completed_revision : Bool)
    (budget : Option ChangeBudget) {applied : AppliedPlanPatch}
    → apply_patch digest agents plan patch completed allow_completed_revision budget ≡ ok applied
    → (key : String)
    → (elem key applied.invalidated_work_item_ids ≡ true)
      ↔ Downstream (dependencies applied.plan.work_items) (changed_ids plan patch applied.plan) key
apply_patch-invalidated digest agents plan patch completed allow budget {applied} h key =
    let (guarded, built) = apply_patch-eq-ok digest agents plan patch completed allow budget h in
    let graph = dependencies applied.plan.work_items in
    let first = built.draft.invalidated ++ item_ids built.additions in
    let same =
      first_changed digest agents plan patch completed allow (budget_or_default budget) guarded
        built in
    let (out, back) = spread_iff graph first (suc (length graph)) built.spreads key in
    let listed =
      ap (λ (a : AppliedPlanPatch). elem key a.invalidated_work_item_ids) built.reported
      ∙ elem-sorted key (unique built.spread_ids)
      ∙ elem-unique key built.spread_ids in
    (
      λ m.
          Downstream-mono graph first (changed_ids plan patch applied.plan)
            (λ k m. sym (same k) ∙ m) key (out (sym listed ∙ m)),
      λ d.
          listed
          ∙ back (
              Downstream-mono graph (changed_ids plan patch applied.plan) first (λ k m. same k ∙ m)
                key d),
    )
