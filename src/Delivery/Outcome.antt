-- ===== src/Delivery/Outcome.antt =====
-- `GraphRunner._set_delivery_state` (app/orchestration/runner.py): the state of a delivery follows
-- the outcome of a run. A transition that the store refuses is passed over. A
-- runner without traces has no store, and does nothing.
use project_os.Base.{
  String, ◌≡◌, refl, Option, none, some, List, [], ◌∷◌, elem, ◌==◌, if◌then◌else◌, ok, raise,
}
use project_os.Delivery.{
  DeliveryState, planned, implementing, built, runnable, behavior_verified, waiting_for_approval,
  needs_rework, delivery_ready, delivery_eq, DeliveryStore, StateEvent, state, transition,
}

-- The loop over the milestones, which ends at the first refusal.
abbrev pub pass_milestones : List DeliveryState → String → DeliveryStore → DeliveryStore
pass_milestones [] reason store = store
pass_milestones (milestone ∷ rest) reason store =
    if state store == milestone
    then pass_milestones rest reason store
    else elim (transition milestone reason [] store) [
      | raise error ↦ store
      | ok next ↦ pass_milestones rest reason next
    ]

-- store.transition(target, reason=reason), where a ValueError is passed over
abbrev pub try_transition : DeliveryState → String → DeliveryStore → DeliveryStore
try_transition target reason store = elim (transition target reason [] store) [
  | raise error ↦ store
  | ok next ↦ next
]

unfoldable pub set_delivery_state : DeliveryState → String → DeliveryStore → DeliveryStore
set_delivery_state target reason store =
    if state store == target
    then store
    else if target == delivery_ready
    then pass_milestones (built ∷ runnable ∷ behavior_verified ∷ delivery_ready ∷ []) reason store
    else try_transition target reason store

-- A store that saved a state.
abbrev at_state : DeliveryState → List StateEvent → DeliveryStore
at_state s events = record { saved_state = some s; events = events }

-- A completed run is delivered from implementation, rework or a build; from every other state the
-- milestones are refused, and the state stays.
pub state-set_delivery_state_ready :
    (reason : String) (store : DeliveryStore)
    → state (set_delivery_state delivery_ready reason store) ≡ (
        if elem (state store) (implementing ∷ built ∷ needs_rework ∷ [])
        then delivery_ready
        else state store)
unfolding set_delivery_state transition
state-set_delivery_state_ready reason store = of_saved store.saved_state
  where
    of_saved :
        (saved : Option DeliveryState)
        → state (
            set_delivery_state delivery_ready reason
              (record { saved_state = saved; events = store.events }))
          ≡ (if elem
                (state (record { saved_state = saved; events = store.events }))
                (implementing ∷ built ∷ needs_rework ∷ [])
              then delivery_ready
              else state (record { saved_state = saved; events = store.events }))
    of_saved none = refl
    of_saved (some planned) = refl
    of_saved (some _) = refl

-- A run that waits for an approval leaves every store as it is.
pub set_delivery_state_waiting :
    (reason : String) (store : DeliveryStore)
    → set_delivery_state waiting_for_approval reason store ≡ store
unfolding set_delivery_state transition
set_delivery_state_waiting reason store = of_saved store.saved_state
  where
    of_saved :
        (saved : Option DeliveryState)
        → set_delivery_state waiting_for_approval reason
            (record { saved_state = saved; events = store.events })
          ≡ record { saved_state = saved; events = store.events }
    of_saved none = refl
    of_saved (some planned) = refl
    of_saved (some _) = refl
