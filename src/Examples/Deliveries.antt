-- ===== src/Examples/Deliveries.antt =====
-- A delivery from its plan to its end, and one that waits for an approval.
use project_os.Base.{
  String, List, ◌≡◌, refl, true, not, ◌||◌, none, some, lookup, string_eq, nat_eq, ◌==◌, ◌&&◌, [],
  ◌∷◌, ◌++◌, all, elem, if◌then◌else◌,
}
use project_os.Delivery.{
  DeliveryState, planned, implementing, built, runnable, behavior_verified, waiting_for_approval,
  needs_rework, delivery_ready, delivery_eq, DeliveryStore, empty_store, state, transition,
}
use project_os.Delivery.History.{Chain, begins, transition-Chain, visited, delivery_ready-visited}
use project_os.Delivery.Matrix.{RequirementRecord, TraceabilityMatrix, bind_evidence}
use project_os.Delivery.Evidence.{grows, evidence, bind_evidence_lem}
use project_os.Delivery.Coverage.{coverage_summary, coverage_summary_lem}
use project_os.Delivery.Outcome.{
  set_delivery_state, state-set_delivery_state_ready, set_delivery_state_waiting,
}

abbrev after : DeliveryState → DeliveryStore → DeliveryStore
after target store = record {
  saved_state = some target;
  events =
      store.events
      ++ record { from_state = state store; to_state = target; reason = "run"; evidence_ids = [] }
        ∷ [];
}

abbrev started : DeliveryStore
started = after implementing empty_store

abbrev delivered : DeliveryStore
delivered = after delivery_ready (after behavior_verified (after runnable (after built started)))

started-Chain : Chain planned started.events implementing
unfolding transition
started-Chain = transition-Chain implementing "run" [] empty_store {next = started} begins refl

transition-Chain_example : Chain planned (after built started).events built
unfolding transition
transition-Chain_example =
    transition-Chain built "run" [] started {next = after built started} started-Chain refl

abbrev built_store : DeliveryStore
built_store = after built started

delivered-Chain : Chain planned delivered.events delivery_ready
unfolding transition
delivered-Chain =
    transition-Chain delivery_ready "run" [] (after behavior_verified (after runnable built_store))
      {next = delivered}
      (transition-Chain behavior_verified "run" [] (after runnable built_store)
        {next = after behavior_verified (after runnable built_store)}
        (transition-Chain runnable "run" [] built_store {next = after runnable built_store}
          (transition-Chain built "run" [] started {next = built_store} started-Chain refl) refl)
        refl)
      refl

delivery_ready-visited_example :
    all (visited delivered.events) (built ∷ runnable ∷ behavior_verified ∷ []) ≡ true
delivery_ready-visited_example = delivery_ready-visited delivered delivered-Chain refl

completed_run : set_delivery_state delivery_ready "run" started ≡ delivered
unfolding set_delivery_state transition
completed_run = refl

state-set_delivery_state_ready_example : state (set_delivery_state delivery_ready "run" started) ≡ (
    if elem implementing (implementing ∷ built ∷ needs_rework ∷ [])
    then delivery_ready
    else implementing)
state-set_delivery_state_ready_example = state-set_delivery_state_ready "run" started

set_delivery_state_waiting_example :
    set_delivery_state waiting_for_approval "approval" started ≡ started
set_delivery_state_waiting_example = set_delivery_state_waiting "approval" started

abbrev requirement : RequirementRecord
requirement = record {
  requirement_id = "AC-1";
  text = "An order can be placed.";
  acceptance_criteria = "AC-1" ∷ [];
  implementation_units = "orders" ∷ [];
  test_evidence_ids = "test-1" ∷ [];
  runtime_evidence_ids = [];
  actor = some "customer";
  action = some "order";
  preconditions = [];
  expected_outputs = [];
  error_cases = [];
  priority = "should";
}

abbrev matrix : TraceabilityMatrix
matrix = ("AC-1", requirement) ∷ []

abbrev both : List String
both = "AC-1" ∷ "AC-2" ∷ []

bind_evidence_lem_example :
    (s : RequirementRecord) × (lookup "AC-1" (bind_evidence both "run-1" true matrix) ≡ some s)
    × (grows requirement s ≡ true)
    × ((not (elem "AC-1" both) || elem "run-1" (evidence true s)) ≡ true)
bind_evidence_lem_example = bind_evidence_lem both "run-1" true matrix "AC-1" {r = requirement} refl

-- Binding an evidence forgets who acts, and how urgent the requirement is.
bound :
    bind_evidence ("AC-1" ∷ []) "run-1" true matrix
    ≡ (
      "AC-1",
      record requirement {
        runtime_evidence_ids = "run-1" ∷ [];
        actor = none;
        action = none;
        priority = "must";
      },
    )
      ∷ []
unfolding bind_evidence
bound = refl

coverage_summary_lem_example : (coverage_summary matrix).complete ≡ (
    (coverage_summary matrix).implemented == (coverage_summary matrix).total
    && (coverage_summary matrix).tested == (coverage_summary matrix).total
    && (coverage_summary matrix).runtime_verified == (coverage_summary matrix).total)
coverage_summary_lem_example = coverage_summary_lem matrix
