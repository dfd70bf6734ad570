-- ===== src/Lib.antt =====
-- ProjectOS plans a delivery as a graph of work items, runs each item with an agent, and recovers
-- from failures within a budget. This library models the deterministic core of that control plane,
-- in app/orchestration and app/planner, and the port pool of its runtime: what a plan has to be to be
-- accepted and how a patch may change it, how the state of a run follows from the results of its work
-- items, and which recovery action a failure leads to.
--
-- How the parts interact. A planner makes an `ExecutionPlan` of `WorkItem`s. Both check themselves
-- when they are made; the delivery contracts say which tools and which slot an item of a lifecycle
-- role has. The runner asks `RunState` for the ready items, runs them and records a `NodeResult` for
-- each. A failed attempt has a `FailureSignal`, for which the runner asks the retry policy what to
-- do; every decision is appended to the ledger of the trace, whose counters the policy is given.
-- The dependencies of the items come from the planner's draft, a template and the system's rules. A
-- patch changes a plan within a budget and says which items have to run again; a repair patch makes a
-- plan of its own. A repair revises an item within its scope, and the end of a run moves the state
-- of the delivery. The schemas of data that the agents share have versions, which are compared.
--
-- The files, and the code that they model:
--   Base           Python's str, list, set and dict as the program uses them, and fnmatch
--   Execution      app/execution_context.py, ArtifactRef of app/artifact/repository.py
--   Contracts      app/orchestration/delivery_registry.py: contract_for, required_tools_for
--   WorkItem       app/orchestration/work_item.py: the record and its contract digest
--   WorkItem.Paths   the path patterns: _forbidden_covers_allowed and what it calls
--   WorkItem.Init    WorkItem.__post_init__ and _validate_execution_grant
--   WorkItem.Grants  what an item that was made may do
--   WorkItem.Scope   validate_scope_transition, and the refusals of
--                    write_staged_file of app/domain/code/git_service.py, after _validate_path
--   WorkItem.Scope.Literal, Matching, Gate, Narrows  the gate beside the check
--   Graph          app/orchestration/plan.py: the loop of _ensure_acyclic, on any type of ids
--   Plan           app/orchestration/plan.py: ExecutionPlan
--   Plan.Delivery    delivery_registry.py: validate_work_item and validate_plan
--   Plan.Ancestors   plan.py: the inner function ancestors of _validate_artifact_edges
--   Plan.Edges       plan.py: _validate_artifact_edges
--   Plan.Init        plan.py: ExecutionPlan.__post_init__ and _ensure_acyclic
--   Plan.Accepted    what an accepted plan is
--   NodeResult     app/orchestration/node_result.py and app/agent/result.py
--   NodeResult.Serial, Retry.Serial  as_dict and from_dict of NodeResult and of FailureSignal
--   RunState       app/orchestration/state.py: ready_items, record and is_complete
--   RunState.Record, Invariant, Progress, Complete: runs as sequences of recorded results, of ready
--                  items or of the bootstrap's (GraphRunner.run); the plan is not replaced on the way
--                  and no result is withdrawn
--   Retry          app/orchestration/retry.py: kinds, signals, records, limits, policy and ledger
--   Retry.Verdict    the policy by a table of the kinds
--   Runner         app/orchestration/runner.py: _select_schedulable_items, _recovery_action
--                  and _record_retry_decision
--   Delivery       app/orchestration/delivery.py: DeliveryState, and transition of DeliveryStore
--   Delivery.Matrix, Coverage  delivery.py: the traceability matrix, bind_evidence and the coverage
--   Delivery.Outcome  runner.py: _set_delivery_state
--   Ports          app/runtime/port_allocator.py
--   Leases         app/runtime/port_lifecycle.py: the registry of leases that processes share, with
--                  Ports as its interface
--   Leases.Held, Operations, Refines  who holds a port, and the operations as steps
--   Agents         app/agent/registry.py
--   DependencyPolicy  app/planner/dependency_policy.py, with the records of app/planner/draft.py and
--                  app/planner/context.py that it reads
--   DependencyPolicy.Rules, Resolve  the system's rules, and resolve
--   DependencyPolicy.Growth, Choice, Kept, Demanded, Waiting, Required, Resolved
--                  that dependencies stay, which the rules demand, and what is returned
--   Patch          app/planner/patch.py: the records and the errors
--   Patch.Checks, Apply  the guards of apply_patch, and what it makes
--   Patch.Downstream  the loop that spreads a change, on any type of ids
--   Patch.Revisions, Additions, Targets, Applied  what apply_patch has done where it returns
--   Patch.Kept, Invalidated  what a patch leaves as it was, and what has to run again
--   Patch.Repair   apply_repair_patch
--   Patch.Baseline  PlanBaseline.from_plan
--   Tools          app/tool_manager/grants.py, app/tool_manager/access_policy.py: grants and the policy
--   Tools.Grants   grants.py: CapabilityGrantStore
--   Tools.Gateway  app/tool_manager/gateway.py: tools_for and preflight
--   Tools.Once, Written, Revoked, Visible  what is read and written, what a revocation leaves, and
--                  what an agent gets
--   Schema         app/orchestration/schema_registry.py: fields, models and registries
--   Schema.Evolution  app/orchestration/schema_evolution.py: SchemaComparator, without version numbers
--   Schema.Compatible  what a registry keeps where no change is breaking
--   Examples       concrete items, plans, runs, failures, repairs, deliveries, ports and batches
--
-- How state and errors are modelled. An object that is changed in place is a record that is passed
-- on; a ValueError is a value of an error type with a constructor for each refusal, so that the
-- order of the checks is that of the program. A dict is the list of its entries in insertion order,
-- a set the list of its members. A field that a constructor fills in is an option. Numbers are
-- natural numbers.
--
-- Loops. `_ensure_acyclic` has a round of fuel for each work item and `ancestors` one for each edge
-- with those of the item; neither runs out, since a round of the first deletes an item, and each
-- edge is pushed once in the second. The loop that spreads a change has a round for each item and one
-- to stop, since every other round changes an item. Everything else is recursion on a list.
--
-- Parameters. The probe of a port is a test on numbers, and the registry of agents a function from
-- agents to their numbers of parallel instances. The digest of a contract (SHA-256 of JSON text) is
-- a function on payloads. The clock's text is an argument of the decisions, a time of the leases a
-- number of seconds, and the fingerprint of a failure an argument of the ledger's query and of
-- as_dict. Where a payload is read, the repr of a list or a dict is a parameter.
--
-- Not modelled: files, locks, JSON text and threads, the checks of generated code against schemas,
-- the steps of a run that replace its plan or withdraw results, the agents and language models, the
-- sandbox, the web interface, and the parts of the planner and of the runner that prepare prompts.
mod Base
pub mod Graph
pub mod Retry
pub mod Execution
pub mod Contracts
pub mod WorkItem
pub mod Plan
pub mod NodeResult
pub mod RunState
pub mod Runner
pub mod Schema
pub mod Delivery
pub mod Ports
pub mod Agents
pub mod Patch
pub mod DependencyPolicy
pub mod Leases
pub mod Tools
pub mod Examples
