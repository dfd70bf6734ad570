-- ===== src/Delivery.antt =====
-- `DeliveryState` and `DeliveryStore.transition` (app/orchestration/delivery.py). The store is the
-- content of its two files, state.json and state-events.jsonl, as far as states go.
pub mod History
pub mod Outcome
pub mod Matrix
pub mod Evidence
pub mod Coverage
use project_os.Base.{
  String, ◌≡◌, refl, Bool, not, ◌||◌, Option, none, some, List, [], ◌∷◌, ◌++◌, find?, elem, Eq,
  ◌==◌, Enum, enum_eq, string_eq, if◌then◌else◌, Result, ok, raise, ◌>>=◌, ◌>>◌, refuse_if,
}

pub data DeliveryState : Type 0 where
  planned implementing built runnable behavior_verified : DeliveryState
  waiting_for_approval needs_rework delivery_ready blocked failed : DeliveryState

abbrev pub delivery_value : DeliveryState → String
delivery_value planned = "planned"
delivery_value implementing = "implementing"
delivery_value built = "built"
delivery_value runnable = "runnable"
delivery_value behavior_verified = "behavior_verified"
delivery_value waiting_for_approval = "waiting_for_approval"
delivery_value needs_rework = "needs_rework"
delivery_value delivery_ready = "delivery_ready"
delivery_value blocked = "blocked"
delivery_value failed = "failed"

abbrev pub delivery_states : List DeliveryState
delivery_states =
    planned ∷ implementing ∷ built ∷ runnable ∷ behavior_verified ∷ waiting_for_approval
    ∷ needs_rework ∷ delivery_ready ∷ blocked ∷ failed ∷ []

pub delivery_found :
    (a : DeliveryState) → find? (λ b. delivery_value b == delivery_value a) delivery_states ≡ some a
delivery_found planned = refl
delivery_found _ = refl

abbrev pub delivery_enum : Enum DeliveryState
delivery_enum = record { value = delivery_value; members = delivery_states; found = delivery_found }

instance abbrev pub delivery_eq : Eq DeliveryState
delivery_eq = enum_eq delivery_enum

-- _TRANSITIONS
abbrev pub transitions : DeliveryState → List DeliveryState
transitions planned = implementing ∷ blocked ∷ failed ∷ []
transitions implementing = built ∷ needs_rework ∷ blocked ∷ failed ∷ []
transitions built = runnable ∷ needs_rework ∷ blocked ∷ failed ∷ []
transitions runnable = behavior_verified ∷ needs_rework ∷ blocked ∷ failed ∷ []
transitions behavior_verified = delivery_ready ∷ needs_rework ∷ blocked ∷ []
transitions waiting_for_approval = implementing ∷ blocked ∷ failed ∷ []
transitions needs_rework = implementing ∷ built ∷ blocked ∷ failed ∷ []
transitions delivery_ready = []
transitions blocked = implementing ∷ failed ∷ []
transitions failed = implementing ∷ []

abbrev pub can_transition : DeliveryState → DeliveryState → Bool
can_transition current target = target == current || elem target (transitions current)

pub record StateEvent : Type 0 where
  pub from_state : DeliveryState
  pub to_state : DeliveryState
  pub reason : String
  pub evidence_ids : List String

-- state.json is absent until the first transition.
pub record DeliveryStore : Type 0 where
  pub saved_state : Option DeliveryState
  pub events : List StateEvent

abbrev pub empty_store : DeliveryStore
empty_store = record { saved_state = none; events = [] }

-- DeliveryStore.state
abbrev pub state : DeliveryStore → DeliveryState
state store = elim store.saved_state [ none ↦ planned | some saved ↦ saved ]

pub data TransitionError : Type 0 where
  illegal : DeliveryState → DeliveryState → TransitionError

-- DeliveryStore.transition
unfoldable pub transition :
    DeliveryState → String → List String → DeliveryStore → Result TransitionError DeliveryStore
transition target reason evidence_ids store = do
  let current = state store
  refuse_if (not (can_transition current target)) (illegal current target)
  let event : StateEvent = record {
    from_state = current;
    to_state = target;
    reason = reason;
    evidence_ids = evidence_ids;
  }
  ok (record { saved_state = some target; events = store.events ++ event ∷ [] })
