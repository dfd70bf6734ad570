-- ===== src/RunState/Invariant.antt =====
-- The states that are reached by recording results: those of ready work items, and, where the
-- environment is prepared already, that of the bootstrap (GraphRunner.run, app/orchestration/runner.py).
-- The plan is not replaced on the way, and no result is withdrawn.
use project_os.Base.{
  Bool, not, ◌||◌, String, ◌≡◌, refl, sym, subst, ap, ◌∙◌, true, false, Option, none, some, List,
  [], ◌∷◌, find?, Memᴰ, ◌==◌, string_eq, subset, distinct, distinct-map_injective, elem-map_of_mem,
  filter_test, mem-filter, all, all-mem, all_intro, Bool-cases, inl, inr, ok, lookup, has_key,
  insert, keys, elem-keys-insert, subset-keys-insert, distinct-keys-insert, arith,
}
use project_os.WorkItem.{WorkItem, dependency_ids}
use project_os.NodeResult.{NodeResult, completed_result}
use project_os.Plan.{ExecutionPlan, item_ids}
use project_os.RunState.{
  RunState, start, is_completed, has_completed, is_ready, ready_items, record_result,
}
use project_os.RunState.Record.{
  record_result-ok, record_result_lem, record_result-kept, node_results-after,
}

abbrev pub is_bootstrap : WorkItem → Bool
is_bootstrap item = item.agent_id == "bootstrap_agent"

-- The first item of the bootstrap agent.
abbrev pub environment_item : ExecutionPlan → Option WorkItem
environment_item plan = find? is_bootstrap plan.work_items

-- A ready work item is run, and its result is recorded; or the bootstrap item is recorded as completed,
-- without a look at its dependencies.
pub data Step : RunState → RunState → Type 0 where
  records :
      {state next : RunState} (item : WorkItem) (result : NodeResult)
      → Memᴰ item (ready_items state)
      → record_result item result state ≡ ok next
      → Step state next
  prepared :
      {state next : RunState} (item : WorkItem) (content : String) (result : NodeResult)
      → environment_item state.plan ≡ some item
      → completed_result item.id item.agent_id content ≡ ok result
      → record_result item result state ≡ ok next
      → Step state next

pub data Reaches (plan : ExecutionPlan) : RunState → Type 0 where
  begins : Reaches plan (start plan)
  steps : {state next : RunState} → Reaches plan state → Step state next → Reaches plan next

-- A work item with a result has dependencies that are completed, unless it is the bootstrap's.
abbrev pub is_let_through : RunState → WorkItem → Bool
is_let_through state item = is_bootstrap item || all (has_completed state) (dependency_ids item)

abbrev pub is_in_order : RunState → WorkItem → Bool
is_in_order state item = not (has_key item.id state.node_results) || is_let_through state item

pub record Consistent (state : RunState) : Type 0 where
  pub one_result_each : distinct (keys state.node_results) ≡ true
  pub known : subset (keys state.node_results) (item_ids state.plan.work_items) ≡ true
  pub in_order : all (is_in_order state) state.plan.work_items ≡ true

or_right : (a b : Bool) → b ≡ true → (a || b) ≡ true
or_right a b h = ground arith

or_left : (a b : Bool) → a ≡ true → (a || b) ≡ true
or_left a b h = ground arith

completed_before :
    (state : RunState)
    → Consistent state
    → (item : WorkItem) → Memᴰ item state.plan.work_items
    → has_key item.id state.node_results ≡ true
    → is_let_through state item ≡ true
completed_before state consistent item m h =
    let ordered = all-mem (is_in_order state) state.plan.work_items consistent.in_order m in
    ground (arith, h)

start-Consistent : (plan : ExecutionPlan) → Consistent (start plan)
start-Consistent plan = record {
  one_result_each = refl;
  known = refl;
  in_order = all_intro (is_in_order (start plan)) plan.work_items (λ item m. refl);
}

environment_item-mem :
    (items : List WorkItem) {item : WorkItem}
    → find? is_bootstrap items ≡ some item
    → Memᴰ item items × (is_bootstrap item ≡ true)
environment_item-mem [] h = cc
environment_item-mem (first ∷ items) {item} h = elim (Bool-cases (is_bootstrap first)) [
  | inl t ↦
      let found = rw t at h in
      let same : first ≡ item = cc in
      (Memᴰ.head (sym same), subst (λ (i : WorkItem). is_bootstrap i ≡ true) same t)
  | inr f ↦ let (m, b) = environment_item-mem items (rw f at h) in (Memᴰ.tail m, b)
]

-- What a step records is a work item of the plan that is let through.
pub Step-records :
    {state next : RunState}
    → Step state next
    → (item : WorkItem) × (result : NodeResult) × Memᴰ item state.plan.work_items
      × (is_let_through state item ≡ true)
      × (record_result item result state ≡ ok next)
unfolding ready_items
Step-records {state} (records item result m h) =
    let ready = filter_test (is_ready state) state.plan.work_items m in
    (
      item,
      result,
      mem-filter (is_ready state) state.plan.work_items m,
      or_right (is_bootstrap item) (all (has_completed state) (dependency_ids item))
          (ground (arith, ready)),
      h,
    )
Step-records {state} (prepared item content result e c h) =
    let (m, b) = environment_item-mem state.plan.work_items e in
    (item, result, m, or_left (is_bootstrap item) _ b, h)

pub has_completed-lookup :
    (state : RunState) (key : String)
    → has_completed state key ≡ true
    → (result : NodeResult) × (lookup key state.node_results ≡ some result)
      × (is_completed result ≡ true)
has_completed-lookup state key h = go (lookup key state.node_results) refl h
  where
    go :
        (found : Option NodeResult)
        → lookup key state.node_results ≡ found
        → elim found [ none ↦ false | some result ↦ is_completed result ] ≡ true
        → (result : NodeResult) × (lookup key state.node_results ≡ some result)
          × (is_completed result ≡ true)
    go none p h = cc
    go (some result) p h = (result, p, h)

module _ (state next : RunState) (item : WorkItem) (result : NodeResult)
    (recorded : record_result item result state ≡ ok next) where
  has_completed-kept :
      (key : String) → has_completed state key ≡ true → has_completed next key ≡ true
  has_completed-kept key h =
      let (old, p, c) = has_completed-lookup state key h in
      rw (record_result-kept item result state recorded key old p, has_completed) c

  pub results-next : next.node_results ≡ insert item.id result state.node_results
  results-next =
      let (w, a, fresh, e) = record_result-ok item result state recorded in
      ap (λ (s : RunState). s.node_results) (sym e) ∙ node_results-after item result state

  let_through-kept :
      (other : WorkItem) → is_let_through state other ≡ true → is_let_through next other ≡ true
  let_through-kept other h = elim (Bool-cases (is_bootstrap other)) [
    | inl t ↦ or_left _ _ t
    | inr f ↦
        let earlier : all (has_completed state) (dependency_ids other) ≡ true = ground arith in
        or_right _ _ (
          all_intro (has_completed next) (dependency_ids other) (λ d n.
            has_completed-kept d (all-mem (has_completed state) (dependency_ids other) earlier n)))
  ]

  follows-next :
      distinct (item_ids state.plan.work_items) ≡ true
      → Memᴰ item state.plan.work_items
      → is_let_through state item ≡ true
      → Consistent state
      → (other : WorkItem) → Memᴰ other state.plan.work_items
      → has_key other.id (insert item.id result state.node_results) ≡ true
      → is_let_through state other ≡ true
  follows-next one here through before other om h = elim (Bool-cases (other.id == item.id)) [
    | inl t ↦
        let same =
          distinct-map_injective (λ (i : WorkItem). i.id) state.plan.work_items one om here
            ((string_eq.beq_iff other.id item.id).0 t) in
        subst (λ (i : WorkItem). is_let_through state i ≡ true) (sym same) through
    | inr f ↦
        completed_before state before other om
          (ground (arith, h, elem-keys-insert item.id other.id result state.node_results, f))
  ]

  pub record_result-Consistent :
      distinct (item_ids state.plan.work_items) ≡ true
      → Memᴰ item state.plan.work_items
      → is_let_through state item ≡ true
      → Consistent state
      → Consistent next
  record_result-Consistent one m through before =
      let (fresh, new, plan) = record_result_lem item result state recorded item.id in
      let here = elem-map_of_mem (λ (i : WorkItem). i.id) state.plan.work_items m in
      record {
        one_result_each =
            rw results-next
              (distinct-keys-insert item.id result state.node_results before.one_result_each);
        known =
            rw (results-next, plan)
              (subset-keys-insert item.id result state.node_results _ here before.known);
        in_order = rw plan (
            all_intro (is_in_order next) state.plan.work_items (λ other om.
              elim (Bool-cases (has_key other.id next.node_results)) [
                | inl t ↦ or_right _ _ (
                    let_through-kept other
                      (follows-next one m through before other om (rw results-next at t)))
                | inr f ↦ or_left _ _ (ap not f)
              ]));
      }

pub plan-Reaches :
    (plan : ExecutionPlan) (state : RunState) → Reaches plan state → state.plan ≡ plan
plan-Reaches plan state begins = refl
plan-Reaches plan next (steps {state = state} r step) =
    let (item, result, m, through, h) = Step-records step in
    let (fresh, new, same) = record_result_lem item result state h item.id in
    same ∙ plan-Reaches plan state r

-- In every state that is reached from a fresh one of a plan with distinct ids by recording results of
-- ready items, or of the bootstrap's, each result is that of one work item of the plan, and a work item
-- other than the bootstrap's has a result only where all its dependencies have completed ones.
pub Reaches-Consistent :
    (plan : ExecutionPlan) (state : RunState)
    → distinct (item_ids plan.work_items) ≡ true
    → Reaches plan state
    → Consistent state
Reaches-Consistent plan state one begins = start-Consistent plan
Reaches-Consistent plan next one (steps {state = state} r step) =
    let (item, result, m, through, h) = Step-records step in
    record_result-Consistent state next item result h (rw (plan-Reaches plan state r) one) m through
      (Reaches-Consistent plan state one r)
