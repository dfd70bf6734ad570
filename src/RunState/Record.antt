-- ===== src/RunState/Record.antt =====
-- `RunState.record`: what a recorded result changes.
use project_os.Base.{
  String, ◌≡◌, refl, false, not, ◌&&◌, ◌||◌, none, some, ◌==◌, string_eq, elem, filter, elem-filter,
  if◌then◌else◌, Bool-cases, inl, inr, ok, refuse_if, refuse_if-eq-ok, >>-eq-ok, lookup, has_key,
  insert, lookup-insert, lookup-insert_fresh, lookup-erase, arith,
}
use project_os.WorkItem.{WorkItem}
use project_os.NodeResult.{NodeResult}
use project_os.RunState.{
  RunState, RecordError, result_mismatch, already_recorded, is_completed, discharge, record_result,
}

abbrev pub recorded : WorkItem → NodeResult → RunState → RunState
recorded item result state = record state {
  node_results = insert item.id result state.node_results;
}

-- The state after `record`.
abbrev pub after : WorkItem → NodeResult → RunState → RunState
after item result state =
    if is_completed result
    then discharge item result (recorded item result state)
    else recorded item result state

module _ (item : WorkItem) (result : NodeResult) (state : RunState) where
  -- A result that is recorded is that of the item, which had none.
  pub record_result-ok :
      {next : RunState}
      → record_result item result state ≡ ok next
      → (result.work_item_id ≡ item.id)
        × (result.agent_id ≡ item.agent_id)
        × (has_key item.id state.node_results ≡ false)
        × (after item result state ≡ next)
  unfolding record_result
  record_result-ok {next} h =
      let (c1, h1) =
        >>-eq-ok
          (refuse_if
            (not (result.work_item_id == item.id) || not (result.agent_id == item.agent_id))
            result_mismatch)
          _ h in
      let (c2, h2) =
        >>-eq-ok (refuse_if (has_key item.id state.node_results) already_recorded) _ h1 in
      let t1 =
        refuse_if-eq-ok
          (not (result.work_item_id == item.id) || not (result.agent_id == item.agent_id))
          RecordError.result_mismatch c1 in
      let t2 =
        refuse_if-eq-ok (has_key item.id state.node_results) RecordError.already_recorded c2 in
      (
        (string_eq.beq_iff result.work_item_id item.id).0 (ground arith),
        (string_eq.beq_iff result.agent_id item.agent_id).0 (ground arith),
        t2,
        cc,
      )

  pub node_results-after :
      (after item result state).node_results ≡ insert item.id result state.node_results
  node_results-after = elim (Bool-cases (is_completed result)) [
    | inl t ↦ rw t refl
    | inr f ↦ rw f refl
  ]

  pub plan-after : (after item result state).plan ≡ state.plan
  plan-after = elim (Bool-cases (is_completed result)) [ inl t ↦ rw t refl | inr f ↦ rw f refl ]

  forced-after : (after item result state).forced_rerun_work_item_ids ≡ (
      if is_completed result
      then filter (λ key. not (item.id == key)) state.forced_rerun_work_item_ids
      else state.forced_rerun_work_item_ids)
  forced-after = elim (Bool-cases (is_completed result)) [ inl t ↦ rw t refl | inr f ↦ rw f refl ]

  -- Each result that was there before is kept.
  pub record_result-kept :
      {next : RunState}
      → record_result item result state ≡ ok next
      → (key : String) (old : NodeResult) → lookup key state.node_results ≡ some old
      → lookup key next.node_results ≡ some old
  record_result-kept {next} h key old p =
      let (w, a, fresh, e) = record_result-ok h in
      rw (← e, node_results-after)
        (lookup-insert_fresh item.id key result state.node_results fresh p)

  -- A result is recorded for an item that had none: it stands under the item's id, under every other
  -- id stands what stood there, and the plan is unchanged.
  pub record_result_lem :
      {next : RunState}
      → record_result item result state ≡ ok next
      → (key : String)
      → (has_key item.id state.node_results ≡ false)
        × (lookup key next.node_results
            ≡ (if key == item.id then some result else lookup key state.node_results))
        × (next.plan ≡ state.plan)
  record_result_lem {next} h key =
      let (w, a, fresh, e) = record_result-ok h in
      (
        fresh,
        rw (← e, node_results-after) (lookup-insert item.id key result state.node_results),
        rw (← e) plan-after,
      )

  -- A failed result discharges no duty of a rerun and no context of a recovery; a completed one
  -- discharges those of its own item and no other.
  pub record_result-duties :
      {next : RunState}
      → record_result item result state ≡ ok next
      → (key : String)
      → (elem key next.forced_rerun_work_item_ids ≡ (
          elem key state.forced_rerun_work_item_ids && not (is_completed result && item.id == key)))
        × (lookup key next.recovery_diagnostics ≡ (
            if is_completed result && item.id == key
            then none
            else lookup key state.recovery_diagnostics))
        × (lookup key next.retry_recovery_contexts ≡ (
            if is_completed result && item.id == key
            then none
            else lookup key state.retry_recovery_contexts))
  record_result-duties {next} h key =
      let (w, a, fresh, e) = record_result-ok h in
      rw (← e) (elim (Bool-cases (is_completed result)) [
        | inl t ↦ rw t (
          ground
              (arith, elem-filter (λ k. not (item.id == k)) key state.forced_rerun_work_item_ids),
          lookup-erase item.id key state.recovery_diagnostics,
          lookup-erase item.id key state.retry_recovery_contexts,
        )
        | inr f ↦ rw f (ground arith, refl, refl)
      ])
