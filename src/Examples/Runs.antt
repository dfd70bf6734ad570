-- ===== src/Examples/Runs.antt =====
-- A run of the plan: the partition completes, and the integration is next.
use project_os.Base.{
  false, has_key, ◌≡◌, ◌≤◌, ◌↔◌, refl, true, none, some, [], ◌∷◌, map, Memᴰ, all, elem, is_empty,
  length, lookup, ok, string_eq, is_blank,
}
use project_os.WorkItem.{WorkItem}
use project_os.NodeResult.{NodeResult, NodeStatus, completed_result}
use project_os.Plan.{ExecutionPlan}
use project_os.RunState.{RunState, start, has_completed, ready_items, record_result, is_complete}
use project_os.RunState.Record.{after, record_result_lem, record_result-duties}
use project_os.RunState.Invariant.{
  records, prepared, Reaches, begins, steps, Consistent, Reaches-Consistent,
}
use project_os.RunState.Complete.{
  is_complete_iff, is_complete-ready_items, steps_taken, steps_taken-le,
}
use project_os.Examples.Items.{part, plain}
use project_os.Examples.Plans.{plan, plan_of, items, plan-IsAccepted}

abbrev result_of : WorkItem → NodeStatus → NodeResult
result_of item status = record {
  work_item_id = item.id;
  agent_id = item.agent_id;
  status = status;
  content = some "# API";
  capability_request = none;
  failure_signal = none;
  error = none;
}

abbrev part_done : NodeResult
part_done = result_of part NodeStatus.completed

abbrev first : RunState
first = after part part_done (start plan)

recorded : record_result part part_done (start plan) ≡ ok first
unfolding record_result
recorded = refl

part_is_ready : Memᴰ part (ready_items (start plan))
unfolding ready_items
part_is_ready = Memᴰ.head refl

join_is_next : map (λ item. item.id) (ready_items first) ≡ "join" ∷ []
unfolding ready_items
join_is_next = refl

abbrev run : Reaches plan first
run = steps begins (records part part_done part_is_ready recorded)

Reaches-Consistent_example : Consistent first
Reaches-Consistent_example = Reaches-Consistent plan first refl run

is_complete_iff_example :
    (is_complete first ≡ true) ↔ (all (λ item. has_completed first item.id) items ≡ true)
is_complete_iff_example = is_complete_iff first refl (Reaches-Consistent plan first refl run)

is_complete-ready_items_example : (is_empty (ready_items first) ≡ true) ↔ (is_complete first ≡ true)
is_complete-ready_items_example = is_complete-ready_items plan first plan-IsAccepted run refl

steps_taken-le_example : steps_taken run ≤ length items
steps_taken-le_example = steps_taken-le plan first refl run

-- A rerun of the partition was forced.
abbrev forced : RunState
forced = record (start plan) { forced_rerun_work_item_ids = "part" ∷ "gate" ∷ [] }

abbrev part_failed : NodeResult
part_failed = result_of part NodeStatus.failed

failure_recorded : record_result part part_failed forced ≡ ok (after part part_failed forced)
unfolding record_result
failure_recorded = refl

record_result_lem_example :
    (has_key "part" (start plan).node_results ≡ false)
    × (lookup "join" first.node_results ≡ none)
    × (first.plan ≡ plan)
record_result_lem_example =
    record_result_lem part part_done (start plan) {next = first} recorded "join"

record_result-duties_example :
    (elem "part" (after part part_failed forced).forced_rerun_work_item_ids ≡ true)
    × (lookup "part" (after part part_failed forced).recovery_diagnostics ≡ none)
    × (lookup "part" (after part part_failed forced).retry_recovery_contexts ≡ none)
record_result-duties_example =
    record_result-duties part part_failed forced {next = after part part_failed forced}
      failure_recorded "part"

-- The bootstrap's item is recorded though it waits for a review, where the environment is prepared.
abbrev bootstrap : WorkItem
bootstrap = record (plain "env" ("review" ∷ [])) { agent_id = "bootstrap_agent" }

abbrev waiting : ExecutionPlan
waiting = plan_of (bootstrap ∷ plain "review" [] ∷ [])

abbrev environment_done : NodeResult
environment_done = result_of bootstrap NodeStatus.completed

abbrev prepared_state : RunState
prepared_state = after bootstrap environment_done (start waiting)

environment_made : completed_result "env" "bootstrap_agent" "# API" ≡ ok environment_done
unfolding completed_result is_blank
environment_made = refl

environment_recorded : record_result bootstrap environment_done (start waiting) ≡ ok prepared_state
unfolding record_result
environment_recorded = refl

prepared_run : Reaches waiting prepared_state
prepared_run =
    steps begins
      (prepared bootstrap "# API" environment_done refl environment_made environment_recorded)

not_ready : map (λ item. item.id) (ready_items (start waiting)) ≡ "review" ∷ []
unfolding ready_items
not_ready = refl
