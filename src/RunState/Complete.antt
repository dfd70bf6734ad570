-- ===== src/RunState/Complete.antt =====
-- When a run is over: `RunState.is_complete`.
use project_os.Base.{
  String, ℕ, suc, ◌≤◌, length-insert_fresh, ◌≡◌, ◌↔◌, refl, subst, ap, true, List, string_eq,
  nat_eq, subset, subset_intro, subset-elem, distinct, elem-map_of_mem, elem-map, all, all-mem,
  all_intro, Bool-cases, inl, inr, is_empty, is_empty-filter, all_of_none_filtered, has_key, keys,
  lookup-of_mem, lookup-has_key, length, length-map, length-subset-le, subset_of_length, arith,
}
use project_os.WorkItem.{WorkItem}
use project_os.NodeResult.{NodeResult}
use project_os.Plan.{ExecutionPlan, item_ids}
use project_os.Plan.Accepted.{IsAccepted}
use project_os.RunState.{RunState, is_completed, has_completed, is_ready, ready_items, is_complete}
use project_os.RunState.Invariant.{
  Consistent, Step-records, Reaches, begins, steps, results-next, Reaches-Consistent, plan-Reaches,
  has_completed-lookup,
}
use project_os.RunState.Record.{record_result-ok}
use project_os.RunState.Progress.{
  all_completed, unrecorded, has_completed_of_key, ready_items-progress,
}

module _ (state : RunState) (one : distinct (item_ids state.plan.work_items) ≡ true)
    (consistent : Consistent state) where
  ids : List String
  ids = item_ids state.plan.work_items

  recorded_ids : List String
  recorded_ids = keys state.node_results

  -- As many results as work items, where every work item has one.
  length_of_recorded :
      subset ids recorded_ids ≡ true → length state.node_results ≡ length state.plan.work_items
  unfolding ids recorded_ids
  length_of_recorded all_in =
      let up = length-subset-le ids recorded_ids one all_in in
      let down = length-subset-le recorded_ids ids consistent.one_result_each consistent.known in
      omega (
        arith,
        length-map (λ (entry : String × NodeResult). entry.0) state.node_results,
        length-map (λ (item : WorkItem). item.id) state.plan.work_items,
        up,
        down,
      )

  recorded_of_length :
      length state.node_results ≡ length state.plan.work_items → subset ids recorded_ids ≡ true
  unfolding ids recorded_ids
  recorded_of_length h =
      subset_of_length recorded_ids ids consistent.one_result_each consistent.known (
        omega (
          arith,
          length-map (λ (entry : String × NodeResult). entry.0) state.node_results,
          length-map (λ (item : WorkItem). item.id) state.plan.work_items,
        ))

  completed_of_entries :
      all_completed state ≡ true
      → subset ids recorded_ids ≡ true
      → all (λ item. has_completed state item.id) state.plan.work_items ≡ true
  unfolding ids recorded_ids
  completed_of_entries h all_in =
      all_intro (λ item. has_completed state item.id) state.plan.work_items
        (λ item m. has_completed_of_key state item.id h (
          subset-elem item.id ids recorded_ids all_in
            (elem-map_of_mem (λ (i : WorkItem). i.id) state.plan.work_items m)))

  has_key_of_completed :
      (key : String) → has_completed state key ≡ true → has_key key state.node_results ≡ true
  has_key_of_completed key h =
      let (result, p, c) = has_completed-lookup state key h in
      lookup-has_key key state.node_results p

  recorded_of_completed :
      all (λ item. has_completed state item.id) state.plan.work_items ≡ true
      → subset ids recorded_ids ≡ true
  unfolding ids recorded_ids
  recorded_of_completed h = subset_intro ids recorded_ids (λ key k.
      let (item, m, p) = elem-map (λ (i : WorkItem). i.id) key state.plan.work_items k in
      subst (λ k. has_key k state.node_results ≡ true) p
        (has_key_of_completed item.id
          (all-mem (λ item. has_completed state item.id) state.plan.work_items h m)))

  entries_of_completed :
      all (λ item. has_completed state item.id) state.plan.work_items ≡ true
      → all_completed state ≡ true
  entries_of_completed h =
      all_intro (λ (entry : String × NodeResult). is_completed entry.1) state.node_results
        (λ (key, result) m.
          let known =
            subset-elem key (keys state.node_results) (item_ids state.plan.work_items)
              consistent.known
              (elem-map_of_mem (λ (entry : String × NodeResult). entry.0) state.node_results m) in
          let (item, im, p) = elem-map (λ (i : WorkItem). i.id) key state.plan.work_items known in
          let done =
            subst (λ k. has_completed state k ≡ true) p
              (all-mem (λ item. has_completed state item.id) state.plan.work_items h im) in
          rw
            (
              lookup-of_mem key result state.node_results consistent.one_result_each m,
              has_completed,
            )
            at done)

  -- A run is complete exactly when every work item of its plan has a completed result.
  pub is_complete_iff :
      (is_complete state ≡ true)
      ↔ (all (λ item. has_completed state item.id) state.plan.work_items ≡ true)
  unfolding is_complete
  is_complete_iff = (
    λ h.
        let same =
          (nat_eq.beq_iff (length state.node_results) (length state.plan.work_items)).0
            (ground arith) in
        completed_of_entries (ground arith) (recorded_of_length same),
    λ h.
        let same =
          (nat_eq.beq_iff (length state.node_results) (length state.plan.work_items)).1
            (length_of_recorded (recorded_of_completed h)) in
        ground (arith, same, entries_of_completed h),
  )

  -- Nothing is ready in a complete run.
  nothing_ready : is_complete state ≡ true → is_empty (ready_items state) ≡ true
  unfolding ready_items
  nothing_ready h =
      let done = is_complete_iff.0 h in
      is_empty-filter (is_ready state) state.plan.work_items (λ item m.
        let recorded =
          has_key_of_completed item.id
            (all-mem (λ item. has_completed state item.id) state.plan.work_items done m) in
        ground (arith, recorded))

  nothing_unrecorded :
      all_completed state ≡ true → is_empty (unrecorded state) ≡ true → is_complete state ≡ true
  nothing_unrecorded h none_left = is_complete_iff.1 (
      all_intro (λ item. has_completed state item.id) state.plan.work_items
        (λ item m. has_completed_of_key state item.id h (
          all-mem (λ (i : WorkItem). has_key i.id state.node_results) state.plan.work_items
            (all_of_none_filtered (λ (i : WorkItem). has_key i.id state.node_results)
              state.plan.work_items none_left)
            m)))

-- In a state that is reached from a fresh one of an accepted plan by recording results, and whose
-- results are all completed, nothing is ready exactly when it is complete.
pub is_complete-ready_items :
    (plan : ExecutionPlan) (state : RunState)
    → IsAccepted plan.work_items
    → Reaches plan state
    → all_completed state ≡ true
    → (is_empty (ready_items state) ≡ true) ↔ (is_complete state ≡ true)
is_complete-ready_items plan state accepted run completed =
    let consistent = Reaches-Consistent plan state accepted.distinct_ids run in
    let here : IsAccepted state.plan.work_items = rw (plan-Reaches plan state run) accepted in
    (
      λ h. elim (Bool-cases (is_empty (unrecorded state))) [
        | inl t ↦ nothing_unrecorded state here.distinct_ids consistent completed t
        | inr f ↦
            let ready = ready_items-progress state here completed f in ground (arith, h, ready)
      ],
      λ h. nothing_ready state here.distinct_ids consistent h,
    )

pub steps_taken : {plan : ExecutionPlan} {state : RunState} → Reaches plan state → ℕ
steps_taken begins = 0
steps_taken (steps run step) = suc (steps_taken run)

length-node_results :
    (plan : ExecutionPlan) (state : RunState) (run : Reaches plan state)
    → steps_taken run ≡ length state.node_results
unfolding steps_taken
length-node_results plan state begins = refl
length-node_results plan next (steps {state = state} run step) =
    let (item, result, m, through, h) = Step-records step in
    let (w, a, fresh, e) = record_result-ok item result state h in
    rw
      (
        results-next state next item result h,
        length-insert_fresh item.id result state.node_results fresh,
      )
      (ap suc (length-node_results plan state run))

-- At most as many results are recorded in a run of a plan with distinct ids as it has work items.
pub steps_taken-le :
    (plan : ExecutionPlan) (state : RunState)
    → distinct (item_ids plan.work_items) ≡ true
    → (run : Reaches plan state) → steps_taken run ≤ length plan.work_items
steps_taken-le plan state one run =
    let consistent = Reaches-Consistent plan state one run in
    let below =
      length-subset-le (keys state.node_results) (item_ids state.plan.work_items)
        consistent.one_result_each consistent.known in
    let counted = length-map (λ (entry : String × NodeResult). entry.0) state.node_results in
    let items = length-map (λ (item : WorkItem). item.id) state.plan.work_items in
    let same = ap (λ (p : ExecutionPlan). length p.work_items) (plan-Reaches plan state run) in
    omega (arith, length-node_results plan state run)
