-- ===== src/Delivery/History.antt =====
-- The events of a delivery are a path through its states, so a delivery that is ready has been
-- built, run and verified.
use project_os.Base.{
  String, ◌≡◌, refl, subst, Option, ap, elem-mem, Bool, true, false, not, ◌||◌, List, [], ◌∷◌, ◌++◌,
  elem, subset, all, all_intro, all-mem, any, ◌==◌, ok, refuse_if, refuse_if-eq-ok, >>-eq-ok,
  Bool-cases, inl, inr, arith, subset-elem, mem-elem,
}
use project_os.Delivery.{
  DeliveryState, planned, built, runnable, behavior_verified, delivery_ready, delivery_eq,
  delivery_states, DeliveryStore, StateEvent, illegal, state, transition, can_transition,
}

-- Each event starts where the one before it ended, and is one of the allowed transitions.
pub data Chain (first : DeliveryState) : List StateEvent → DeliveryState → Type 0 where
  begins : Chain first [] first
  extends :
      {events : List StateEvent} {current : DeliveryState}
      → Chain first events current
      → (event : StateEvent) → event.from_state ≡ current
      → can_transition current event.to_state ≡ true
      → Chain first (events ++ event ∷ []) event.to_state

-- A transition extends the path of the events up to the saved state.
pub transition-Chain :
    (target : DeliveryState) (reason : String) (evidence_ids : List String) (store : DeliveryStore)
    {next : DeliveryStore}
    → Chain planned store.events (state store)
    → transition target reason evidence_ids store ≡ ok next
    → Chain planned next.events (state next)
unfolding transition
transition-Chain target reason evidence_ids store {next} chain h =
    let (passed, e) =
      >>-eq-ok
        (refuse_if (not (can_transition (state store) target)) (illegal (state store) target)) _
        h in
    let t =
      refuse_if-eq-ok (not (can_transition (state store) target)) (illegal (state store) target)
        passed in
    let event : StateEvent = record {
      from_state = state store;
      to_state = target;
      reason = reason;
      evidence_ids = evidence_ids;
    } in
    let allowed : can_transition (state store) target ≡ true = ground arith in
    let same : record { saved_state = Option.some target; events = store.events ++ event ∷ [] }
        ≡ next =
      cc in
    subst (λ (s : DeliveryStore). Chain planned s.events (state s)) same
      (extends chain event refl allowed)

-- What has to be visited before a state.
abbrev pub required : DeliveryState → List DeliveryState
required built = built ∷ []
required runnable = built ∷ runnable ∷ []
required behavior_verified = built ∷ runnable ∷ behavior_verified ∷ []
required delivery_ready = built ∷ runnable ∷ behavior_verified ∷ []
required _ = []

abbrev allows_required : DeliveryState → DeliveryState → Bool
allows_required current target =
    not (can_transition current target) || subset (required target) (target ∷ required current)

every_state : (s : DeliveryState) → elem s delivery_states ≡ true
every_state planned = refl
every_state _ = refl

all_allow_required :
    all (λ current. all (allows_required current) delivery_states) delivery_states ≡ true
all_allow_required = refl

required-transition :
    (current target : DeliveryState)
    → can_transition current target ≡ true
    → subset (required target) (target ∷ required current) ≡ true
required-transition current target h = if_allowed _ _ h (
    all-mem (allows_required current) delivery_states
      (all-mem (λ current. all (allows_required current) delivery_states) delivery_states
        all_allow_required (elem-mem current delivery_states (every_state current)))
      (elem-mem target delivery_states (every_state target)))
  where
    if_allowed : (a b : Bool) → a ≡ true → (not a || b) ≡ true → b ≡ true
    if_allowed a b h k = ground arith

-- Some event reaches the state.
abbrev pub visited : List StateEvent → DeliveryState → Bool
visited events s = any (λ event. s == event.to_state) events

visited-append :
    (events : List StateEvent) (event : StateEvent) (s : DeliveryState)
    → visited (events ++ event ∷ []) s ≡ (visited events s || s == event.to_state)
visited-append [] event s = or_false (s == event.to_state)
  where
    or_false : (b : Bool) → (b || false) ≡ b
    or_false b = ground arith
visited-append (e ∷ events) event s =
    regroup (s == e.to_state) (visited events s) (s == event.to_state) _
      (visited-append events event s)
  where
    regroup : (a b c d : Bool) → d ≡ (b || c) → (a || d) ≡ ((a || b) || c)
    regroup a b c d h = ground arith

-- A path from `planned` has visited what its last state requires.
Chain-visited :
    {events : List StateEvent} {current : DeliveryState}
    → Chain planned events current
    → all (visited events) (required current) ≡ true
Chain-visited begins = refl
Chain-visited (extends {events = events} {current = current} chain event from allowed) =
    all_intro (visited (events ++ event ∷ [])) (required event.to_state) (λ s m.
      let known =
        subset-elem s (required event.to_state) (event.to_state ∷ required current)
          (required-transition current event.to_state allowed)
          (mem-elem (required event.to_state) m) in
      rw (visited-append events event s) (elim (Bool-cases (s == event.to_state)) [
        | inl t ↦ or_right _ _ t
        | inr f ↦ or_left _ _ (
            all-mem (visited events) (required current) (Chain-visited chain)
              (elem-mem s (required current) (rw f at known)))
      ]))
  where
    or_right : (a b : Bool) → b ≡ true → (a || b) ≡ true
    or_right a b h = ground arith

    or_left : (a b : Bool) → a ≡ true → (a || b) ≡ true
    or_left a b h = ground arith

-- A delivery that is ready has events in which it was built, was runnable and had its behaviour
-- verified.
pub delivery_ready-visited :
    (store : DeliveryStore)
    → Chain planned store.events (state store)
    → state store ≡ delivery_ready
    → all (visited store.events) (built ∷ runnable ∷ behavior_verified ∷ []) ≡ true
delivery_ready-visited store chain h = rw (ap required h) at (Chain-visited chain)
