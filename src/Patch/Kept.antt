-- ===== src/Patch/Kept.antt =====
-- What a patch leaves as it was (`apply_patch`, app/planner/patch.py).
use project_os.Base.{
  ◌+◌, ◌≤◌, String, ◌≡◌, ◌⊎◌, refl, ap, sym, ◌∙◌, subst, Bool, true, false, not, ◌&&◌, Option, none,
  some, List, [], ◌∷◌, ◌++◌, map, Memᴰ, string_eq, elem, filter, all, distinct, length,
  length-append, length-map, all-mem, mem_map, distinct-filter, >>-eq-ok, ok, arith, inl, inr,
  Bool-cases, Option-cases, length-subset-le, elem-filter, subset_intro,
}
use project_os.WorkItem.{WorkItem, Digest}
use project_os.Plan.{ExecutionPlan, item_ids}
use project_os.Agents.{AgentDefinition}
use project_os.Patch.{
  PatchOperation, PlanPatch, ChangeBudget, modified, added, removed, texts_given,
}
use project_os.Patch.Checks.{check_digests, check_budget, remove_ids_of}
use project_os.Patch.Apply.{AppliedPlanPatch, apply_patch, budget_or_default, change_of}
use project_os.Patch.Revisions.{
  IsRevisionOf, is_sealed, is_changed, mem-revised, revised-mem, item_ids-revised,
}
use project_os.Patch.Additions.{add_items_lem}
use project_os.Patch.Targets.{
  target_ids, elem-referenced_ids, check_targets_lem, is_changed-change_of,
}
use project_os.Patch.Applied.{Guarded, Built, apply_patch-eq-ok}

mem-append_left : {x : WorkItem} (xs ys : List WorkItem) → Memᴰ x xs → Memᴰ x (xs ++ ys)
mem-append_left [] ys m = elim m [ ]
mem-append_left (z ∷ xs) ys (Memᴰ.head e) = Memᴰ.head e
mem-append_left (z ∷ xs) ys (Memᴰ.tail m) = Memᴰ.tail (mem-append_left xs ys m)

mem-append : {x : WorkItem} (xs ys : List WorkItem) → Memᴰ x (xs ++ ys) → Memᴰ x xs ⊎ Memᴰ x ys
mem-append [] ys m = inr m
mem-append (z ∷ xs) ys (Memᴰ.head e) = inl (Memᴰ.head e)
mem-append (z ∷ xs) ys (Memᴰ.tail m) = elim (mem-append xs ys m) [
  | inl n ↦ inl (Memᴰ.tail n)
  | inr n ↦ inr n
]

-- A completed item is in the patched plan as it was, where completed items may not be revised.
pub apply_patch-completed :
    (digest : Digest) (agents : String → Option AgentDefinition) (plan : ExecutionPlan)
    (patch : PlanPatch) (completed : List String) (budget : Option ChangeBudget)
    {applied : AppliedPlanPatch} {item : WorkItem}
    → apply_patch digest agents plan patch completed false budget ≡ ok applied
    → Memᴰ item plan.work_items
    → elem item.id completed ≡ true
    → Memᴰ item applied.plan.work_items
apply_patch-completed digest agents plan patch completed budget {applied} {item} h m c =
    let (guarded, built) = apply_patch-eq-ok digest agents plan patch completed false budget h in
    let operations = patch.operations in
    let split = elem-referenced_ids item.id (modified operations) (removed operations) in
    let found =
      is_changed-change_of (item_ids plan.work_items) completed false operations item
        guarded.targets in
    let free = untargeted guarded in
    subst (Memᴰ item) (sym built.items) (
      mem-append_left built.draft.next_items built.additions (
        mem-revised digest (remove_ids_of operations) (modified operations) built.revises m
          (ground arith) (unchanged (change_of (modified operations) item) (ground arith))))
  where
    untargeted :
        Guarded digest plan patch completed false (budget_or_default budget)
        → elem item.id (target_ids patch.operations) ≡ false
    untargeted guarded = elim (Bool-cases (elem item.id (target_ids patch.operations))) [
      | inl t ↦
          let (known, free) =
            check_targets_lem (item_ids plan.work_items) completed false
              (modified patch.operations ++ removed patch.operations) guarded.targets item.id t in
          absurd (ground arith)
      | inr f ↦ f
    ]

    unchanged : (o : Option PatchOperation) → is_changed o ≡ false → o ≡ none
    unchanged none e = refl
    unchanged (some op) e = cc

sealed_of_checked :
    (digest : Digest) (items : List WorkItem)
    → check_digests digest items ≡ ok tt
    → all is_sealed items ≡ true
unfolding check_digests
sealed_of_checked digest [] h = refl
sealed_of_checked digest (item ∷ items) h = elim (Option-cases item.contract_digest) [
  | inl n ↦ absurd (let refused = rw n at h in cc)
  | inr (d, o) ↦
      let (c, h1) = >>-eq-ok _ (check_digests digest items) h in
      rw o (sealed_of_checked digest items h1)
]

-- An id of a patched plan is either that of an item that is kept, or new.
abbrev pub is_kept : List String → List PatchOperation → String → Bool
is_kept ids operations key = elem key ids && not (elem key (remove_ids_of operations))

-- Every item of the patched plan is a revision of an item of the plan, or has an id that no kept
-- item has.
pub apply_patch-IsRevisionOf :
    (digest : Digest) (agents : String → Option AgentDefinition) (plan : ExecutionPlan)
    (patch : PlanPatch) (completed : List String) (allow_completed_revision : Bool)
    (budget : Option ChangeBudget) {applied : AppliedPlanPatch} {new : WorkItem}
    → apply_patch digest agents plan patch completed allow_completed_revision budget ≡ ok applied
    → Memᴰ new applied.plan.work_items
    → ((old : WorkItem) × Memᴰ old plan.work_items × IsRevisionOf old new)
      ⊎ (is_kept (item_ids plan.work_items) patch.operations new.id ≡ false)
apply_patch-IsRevisionOf digest agents plan patch completed allow budget {new = new} h m =
    let (guarded, built) = apply_patch-eq-ok digest agents plan patch completed allow budget h in
    let remove_ids = remove_ids_of patch.operations in
    let changes = modified patch.operations in
    let parts =
      mem-append built.draft.next_items built.additions (subst (Memᴰ new) built.items m) in
    elim parts [
      | inl n ↦ inl (
          revised-mem digest remove_ids changes
            (sealed_of_checked digest plan.work_items guarded.digests) built.revises n)
      | inr n ↦ inr (fresh built n)
    ]
  where
    fresh :
        {applied : AppliedPlanPatch} (built : Built digest agents plan patch applied)
        → Memᴰ new built.additions
        → is_kept (item_ids plan.work_items) patch.operations new.id ≡ false
    fresh built n =
        let remove_ids = remove_ids_of patch.operations in
        let (l, f, d) =
          add_items_lem digest agents 1 (item_ids built.draft.next_items) (added patch.operations)
            built.adds in
        let ids = item_ids-revised digest remove_ids (modified patch.operations) built.revises in
        let new_id =
          all-mem (λ key. not (elem key (item_ids built.draft.next_items)))
            (item_ids built.additions) f (mem_map (λ (w : WorkItem). w.id) built.additions n) in
        let kept =
          elem-filter (λ key. not (elem key remove_ids)) new.id (item_ids plan.work_items) in
        let same = ap (elem new.id) ids in ground arith

length-texts_given : (texts : List (Option String)) → length (texts_given texts) ≤ length texts
length-texts_given [] = omega arith
length-texts_given (none ∷ texts) = omega (arith, length-texts_given texts)
length-texts_given (some text ∷ texts) = ground (arith, length-texts_given texts)

length-split :
    (p : String → Bool) (ids : List String)
    → length ids ≡ length (filter p ids) + length (filter (λ key. not (p key)) ids)
length-split p [] = omega arith
length-split p (key ∷ ids) = ground (arith, length-split p ids)

removed_bound :
    (ids remove_ids : List String)
    → distinct ids ≡ true
    → length (filter (λ key. elem key remove_ids) ids) ≤ length remove_ids
removed_bound ids remove_ids d =
    length-subset-le (filter (λ key. elem key remove_ids) ids) remove_ids
      (distinct-filter (λ key. elem key remove_ids) ids d)
      (subset_intro _ remove_ids
        (λ key m. ground (arith, elem-filter (λ key. elem key remove_ids) key ids)))

-- A patch adds and removes no more items than its budget allows.
pub apply_patch-length :
    (digest : Digest) (agents : String → Option AgentDefinition) (plan : ExecutionPlan)
    (patch : PlanPatch) (completed : List String) (allow_completed_revision : Bool)
    (budget : Option ChangeBudget) {applied : AppliedPlanPatch}
    → distinct (item_ids plan.work_items) ≡ true
    → apply_patch digest agents plan patch completed allow_completed_revision budget ≡ ok applied
    → (length applied.plan.work_items
        ≤ length plan.work_items + (budget_or_default budget).max_added)
      × (length plan.work_items
          ≤ length applied.plan.work_items + (budget_or_default budget).max_removed)
unfolding check_budget
apply_patch-length digest agents plan patch completed allow budget {applied} d h =
    let (guarded, built) = apply_patch-eq-ok digest agents plan patch completed allow budget h in
    let remove_ids = remove_ids_of patch.operations in
    let (l, f, u) =
      add_items_lem digest agents 1 (item_ids built.draft.next_items) (added patch.operations)
        built.adds in
    let ids = item_ids plan.work_items in
    let kept =
      ap length (item_ids-revised digest remove_ids (modified patch.operations) built.revises) in
    let all_of = ap length built.items ∙ length-append built.draft.next_items built.additions in
    let old = length-map (λ (w : WorkItem). w.id) plan.work_items in
    let next = length-map (λ (w : WorkItem). w.id) built.draft.next_items in
    let split = length-split (λ key. elem key remove_ids) ids in
    let bound = removed_bound ids remove_ids d in
    let named =
      length-texts_given
        (map (λ (o : PatchOperation). o.work_item_id) (removed patch.operations)) in
    let given = length-map (λ (o : PatchOperation). o.work_item_id) (removed patch.operations) in
    let (most, least) = within (budget_or_default budget) guarded.in_budget in
    (omega arith, omega arith)
  where
    within :
        (budget : ChangeBudget)
        → check_budget budget plan.work_items patch.operations ≡ ok tt
        → (length (added patch.operations) ≤ budget.max_added)
          × (length (removed patch.operations) ≤ budget.max_removed)
    within budget h = (ground arith, ground arith)
