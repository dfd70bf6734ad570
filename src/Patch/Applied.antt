-- ===== src/Patch/Applied.antt =====
-- What `apply_patch` (app/planner/patch.py) has done where it returns.
use project_os.Base.{
  suc, String, ◌≡◌, refl, ◌∙◌, subst, Bool, true, Option, some, List, ◌++◌, string_eq, distinct,
  length, ok, >>-eq-ok, >>=-eq-ok, arith, inl, inr, Option-cases,
}
use project_os.WorkItem.{WorkItem, Digest}
use project_os.Plan.{ExecutionPlan, item_ids, dependencies}
use project_os.Plan.Init.{validate}
use project_os.Agents.{AgentDefinition}
use project_os.Patch.{
  PlanPatch, ChangeBudget, plan_error, raising, modified, added, removed, referenced_ids,
}
use project_os.Patch.Downstream.{spread}
use project_os.Patch.Checks.{check_patch, check_digests, check_budget, check_targets, remove_ids_of}
use project_os.Patch.Apply.{
  AppliedPlanPatch, Draft, apply_patch, build_patch, revise_items, add_items, invalidate,
  patched_plan, report, budget_or_default,
}
use project_os.Patch.Revisions.{Revises, revise_items-Revises, raising-eq-ok}

-- What was made, after the guards.
pub record Built (digest : Digest) (agents : String → Option AgentDefinition) (plan : ExecutionPlan)
    (patch : PlanPatch) (applied : AppliedPlanPatch) : Type 0 where
  pub draft : Draft
  pub additions : List WorkItem
  pub spread_ids : List String
  pub revises :
      Revises digest
        (remove_ids_of patch.operations)
        (modified patch.operations)
        plan.work_items
        draft
  pub adds :
      add_items digest agents 1 (item_ids draft.next_items) (added patch.operations) ≡ ok additions
  pub items : applied.plan.work_items ≡ draft.next_items ++ additions
  pub spreads :
      spread
        (suc (length (dependencies applied.plan.work_items)))
        (dependencies applied.plan.work_items)
        (draft.invalidated ++ item_ids additions)
      ≡ some spread_ids
  pub accepted : validate applied.plan ≡ ok tt
  pub reported : applied ≡ report plan patch applied.plan spread_ids

module _ (digest : Digest) (agents : String → Option AgentDefinition) where
  invalidate-eq-ok :
      (items : List WorkItem) (changed : List String) {result : List String}
      → invalidate items changed ≡ ok result
      → spread (suc (length (dependencies items))) (dependencies items) changed ≡ some result
  invalidate-eq-ok items changed {result} h =
      elim (Option-cases
        (spread (suc (length (dependencies items))) (dependencies items) changed)) [
          | inl n ↦ absurd (let refused = rw (n, invalidate) at h in cc)
          | inr (ids, s) ↦ let same = rw (s, invalidate) at h in s ∙ (cc)
        ]

  pub build_patch-Built :
      (plan : ExecutionPlan) (patch : PlanPatch) {applied : AppliedPlanPatch}
      → build_patch digest agents plan patch ≡ ok applied
      → Built digest agents plan patch applied
  unfolding build_patch
  build_patch-Built plan patch {applied} h =
      let (draft, r, h1) =
        >>=-eq-ok
          (revise_items digest (remove_ids_of patch.operations) (modified patch.operations)
            plan.work_items)
          _ h in
      let (additions, a, h2) =
        >>=-eq-ok (add_items digest agents 1 (item_ids draft.next_items) (added patch.operations)) _
          h1 in
      let items = draft.next_items ++ additions in
      let (ids, s, h3) =
        >>=-eq-ok (invalidate items (draft.invalidated ++ item_ids additions)) _ h2 in
      let next = patched_plan plan patch items in
      let (v, h4) = >>-eq-ok (raising plan_error (validate next)) _ h3 in
      let same : report plan patch next ids ≡ applied = cc in
      subst (Built digest agents plan patch) same (record {
        draft = draft;
        additions = additions;
        spread_ids = ids;
        revises =
            revise_items-Revises digest (remove_ids_of patch.operations) (modified patch.operations)
              plan.work_items r;
        adds = a;
        items = refl;
        spreads = invalidate-eq-ok items (draft.invalidated ++ item_ids additions) s;
        accepted = raising-eq-ok plan_error (validate next) v;
        reported = refl;
      })

-- The guards that the properties rest on.
pub record Guarded (digest : Digest) (plan : ExecutionPlan) (patch : PlanPatch)
    (completed : List String) (allow_completed_revision : Bool) (budget : ChangeBudget)
    : Type 0 where
  pub digests : check_digests digest plan.work_items ≡ ok tt
  pub in_budget : check_budget budget plan.work_items patch.operations ≡ ok tt
  pub once : distinct (referenced_ids patch.operations) ≡ true
  pub targets :
      check_targets
        (item_ids plan.work_items)
        completed
        allow_completed_revision
        (modified patch.operations ++ removed patch.operations)
      ≡ ok tt

check_patch-Guarded :
    (digest : Digest) (plan : ExecutionPlan) (patch : PlanPatch) (completed : List String)
    (allow : Bool) (budget : ChangeBudget)
    → check_patch digest plan patch completed allow budget ≡ ok tt
    → Guarded digest plan patch completed allow budget
unfolding check_patch
check_patch-Guarded digest plan patch completed allow budget h = record {
  digests = ground arith;
  in_budget = ground arith;
  once = ground arith;
  targets = ground arith;
}

pub apply_patch-eq-ok :
    (digest : Digest) (agents : String → Option AgentDefinition) (plan : ExecutionPlan)
    (patch : PlanPatch) (completed : List String) (allow : Bool) (budget : Option ChangeBudget)
    {applied : AppliedPlanPatch}
    → apply_patch digest agents plan patch completed allow budget ≡ ok applied
    → Guarded digest plan patch completed allow (budget_or_default budget)
      × Built digest agents plan patch applied
unfolding apply_patch
apply_patch-eq-ok digest agents plan patch completed allow budget h =
    let (c, b) =
      >>-eq-ok (check_patch digest plan patch completed allow (budget_or_default budget))
        (build_patch digest agents plan patch) h in
    (
      check_patch-Guarded digest plan patch completed allow (budget_or_default budget) c,
      build_patch-Built digest agents plan patch b,
    )
