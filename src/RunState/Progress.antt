-- ===== src/RunState/Progress.antt =====
-- A run of an accepted plan always has a next work item.
use project_os.Base.{
  String, ◌≡◌, ◌⊎◌, subst, ◌∙◌, is_empty-map, sym, inl, inr, Bool, true, false, not, List, Memᴰ,
  string_eq, elem, all, all-mem, all_intro, filter, mem-filter, filter_test, filter-mem, mem_map,
  mem-map, elem-map, elem-map_of_mem, is_empty, is_empty_of_mem, Bool-cases, keys, has_key,
  has_key-lookup, lookup-mem, arith,
}
use project_os.WorkItem.{WorkItem, dependency_ids}
use project_os.NodeResult.{NodeResult}
use project_os.Graph
use project_os.Graph.Frontier.{some_frontier}
use project_os.Plan.{item_ids, dependencies}
use project_os.Plan.Accepted.{IsAccepted, keys-dependencies}
use project_os.RunState.{RunState, is_completed, has_completed, is_ready, ready_items}

-- Every recorded result is a completed one.
abbrev pub all_completed : RunState → Bool
all_completed state = all (λ entry. is_completed entry.1) state.node_results

abbrev pub unrecorded : RunState → List WorkItem
unrecorded state = filter (λ item. not (has_key item.id state.node_results)) state.plan.work_items

-- Where every recorded result is completed, what is recorded has completed.
pub has_completed_of_key :
    (state : RunState) (key : String)
    → all_completed state ≡ true
    → has_key key state.node_results ≡ true
    → has_completed state key ≡ true
has_completed_of_key state key h k =
    let (result, p) = has_key-lookup key state.node_results k in
    rw (p, has_completed)
      (all-mem (λ (entry : String × NodeResult). is_completed entry.1) state.node_results h
        (lookup-mem key state.node_results p))

module _ (state : RunState) (accepted : IsAccepted state.plan.work_items) where
  -- A known id is recorded, or that of an unrecorded work item.
  covers :
      (key : String)
      → elem key (keys (dependencies state.plan.work_items)) ≡ true
      → (has_key key state.node_results ≡ true)
        ⊎ (elem key (keys (dependencies (unrecorded state))) ≡ true)
  covers key h =
      let known : elem key (item_ids state.plan.work_items) ≡ true =
        rw (← keys-dependencies state.plan.work_items) h in
      let (item, m, p) = elem-map (λ (i : WorkItem). i.id) key state.plan.work_items known in
      elim (Bool-cases (has_key key state.node_results)) [
        | inl t ↦ inl t
        | inr f ↦
            let fresh : not (has_key item.id state.node_results) ≡ true = rw (p, f) in
            inr (
              rw (keys-dependencies (unrecorded state), ← p)
                (elem-map_of_mem (λ (i : WorkItem). i.id) (unrecorded state)
                  (filter-mem (λ i. not (has_key i.id state.node_results)) state.plan.work_items m
                    fresh)))
      ]

  within :
      (node : String × List String)
      → Memᴰ node (dependencies (unrecorded state))
      → Memᴰ node (dependencies state.plan.work_items)
  within node m =
      let (item, n, p) =
        mem-map (λ (i : WorkItem). (i.id, dependency_ids i)) (unrecorded state) m in
      rw (← p) (
        mem_map (λ (i : WorkItem). (i.id, dependency_ids i)) state.plan.work_items
          (mem-filter (λ i. not (has_key i.id state.node_results)) state.plan.work_items n))

  -- Some unrecorded item waits for recorded items only.
  next_item :
      is_empty (dependencies (unrecorded state)) ≡ false
      → (item : WorkItem) × Memᴰ item (unrecorded state)
        × (Graph.is_ready (keys state.node_results) (item.id, dependency_ids item) ≡ true)
  next_item h =
      let (rank, falls) = accepted.acyclic in
      let (n, m, r) =
        some_frontier (dependencies state.plan.work_items) accepted.closed rank falls
          (keys state.node_results) (dependencies (unrecorded state)) h within covers in
      let (item, i, p) =
        mem-map (λ (i : WorkItem). (i.id, dependency_ids i)) (unrecorded state) m in
      (item, i, subst (λ n. Graph.is_ready (keys state.node_results) n ≡ true) (sym p) r)

  -- While every recorded result is completed and some work item has no result, an accepted plan has
  -- a ready work item.
  pub ready_items-progress :
      all_completed state ≡ true
      → is_empty (unrecorded state) ≡ false
      → is_empty (ready_items state) ≡ false
  unfolding ready_items
  ready_items-progress completed more =
      let (item, m, r) = next_item (is_empty-map _ (unrecorded state) ∙ more) in
      let fresh =
        filter_test (λ (i : WorkItem). not (has_key i.id state.node_results)) state.plan.work_items
          m in
      let waits = all_intro (has_completed state) (dependency_ids item) (λ d n.
        has_completed_of_key state d completed
          (all-mem (λ d. has_key d state.node_results) (dependency_ids item) r n)) in
      is_empty_of_mem _ (
        filter-mem (is_ready state) state.plan.work_items
          (mem-filter (λ (i : WorkItem). not (has_key i.id state.node_results))
            state.plan.work_items m)
          (ground (arith, fresh, waits)))
