-- ===== src/Runner/Recovery/Budget.antt =====
-- The ledger keeps the budgets.
use project_os.Base.{
  ℕ, ◌≤◌, ◌<◌, String, ◌≡◌, subst, inl, inr, Bool, true, false, ◌&&◌, some, [], ◌∷◌, ◌++◌, count_if,
  count_if-append, arith, string_eq, option_eq, is_blank, ok, Bool-cases,
}
use project_os.Retry.Kinds.{FailureKind, RecoveryAction, work_item, kind_eq, action_eq, scope_eq}
use project_os.Retry.Signal.{FailureSignal, RetryRecord, retry_record}
use project_os.Retry.Policy.{RetryLimits, action_for, max_work_item_attempts, max_retries_for}
use project_os.Retry.Verdict.{action_for_spends}
use project_os.Retry.Ledger.{
  Ledger, append, budget_count, budget_count_for_work_item, budget_count_for_kind, next_attempt,
  spends_budget, is_about,
}
use text.Mathlib.TextEquality.{eq_iff}
use project_os.Runner.Recovery.{record_retry_decision, recovery_action}

-- No counter of the ledger is above its limit.
pub record WithinBudget (limits : RetryLimits) (ledger : Ledger) : Type 0 where
  pub total : budget_count ledger ≤ limits.max_total_retries
  pub of_item :
      (item_id : String)
      → budget_count_for_work_item item_id ledger ≤ limits.max_retries_per_work_item
  pub of_kind :
      (item_id : String) (kind : FailureKind)
      → budget_count_for_kind item_id kind ledger ≤ max_retries_for limits kind

module _ (limits : RetryLimits) (created_at item_id : String) (signal : FailureSignal) where
  -- The record of a decision.
  abbrev decision : RecoveryAction → Ledger → RetryRecord
  decision action ledger = record {
    scope = work_item;
    subject_id = item_id;
    attempt = next_attempt work_item item_id ledger;
    max_attempts = max_work_item_attempts limits;
    action = action;
    failure = signal;
    root_work_item_id = some item_id;
    interrupted_work_item_ids = [];
    created_at = created_at;
  }

  abbrev chosen : Ledger → RecoveryAction
  chosen ledger =
      action_for limits signal (budget_count ledger) (budget_count_for_work_item item_id ledger)
        (budget_count_for_kind item_id signal.kind ledger)

  -- For an item with an id the record passes its checks, so the decision is recorded.
  pub recovery_action_lem :
      (ledger : Ledger)
      → is_blank item_id ≡ false
      → recovery_action limits created_at item_id signal ledger
        ≡ ok (chosen ledger, ledger ++ decision (chosen ledger) ledger ∷ [])
  unfolding recovery_action record_retry_decision retry_record append next_attempt
      max_work_item_attempts
  recovery_action_lem ledger h = ground arith

module _ (limits : RetryLimits) (created_at item_id : String) (signal : FailureSignal)
    (ledger : Ledger) where
  abbrev new_record : RetryRecord
  new_record =
      decision limits created_at item_id signal (chosen limits created_at item_id signal ledger)
        ledger

  -- A decision about an item that spends budget is taken below the limits of that item.
  new_record_within :
      (id : String)
      → (spends_budget new_record && is_about id new_record) ≡ true
      → (id ≡ item_id)
        × (budget_count ledger < limits.max_total_retries)
        × (budget_count_for_work_item item_id ledger < limits.max_retries_per_work_item)
        × (budget_count_for_kind item_id signal.kind ledger < max_retries_for limits signal.kind)
  new_record_within id h =
      let (total, of_item, of_kind) =
        action_for_spends limits (budget_count ledger) (budget_count_for_work_item item_id ledger)
          (budget_count_for_kind item_id signal.kind ledger) signal (ground arith) in
      (ground (arith, eq_iff item_id id), total, of_item, of_kind)

  count_new :
      (p : RetryRecord → Bool) (limit : ℕ)
      → count_if p ledger ≤ limit
      → (p new_record ≡ true → count_if p ledger < limit)
      → count_if p (ledger ++ new_record ∷ []) ≤ limit
  count_new p limit h below = elim (Bool-cases (p new_record)) [
    | inl t ↦ let strict = below t in ground (arith, count_if-append p ledger (new_record ∷ []))
    | inr f ↦ ground (arith, count_if-append p ledger (new_record ∷ []))
  ]

  append-WithinBudget : WithinBudget limits ledger → WithinBudget limits (ledger ++ new_record ∷ [])
  unfolding budget_count budget_count_for_work_item budget_count_for_kind
  append-WithinBudget w = record {
    total =
        count_new spends_budget _ w.total
          (λ h. (new_record_within item_id (ground (arith, eq_iff item_id item_id))).1);
    of_item =
        λ id. count_new _ _ (w.of_item id) (λ h. let q = new_record_within id h in rw q.0 q.2);
    of_kind = λ id kind. count_new _ _ (w.of_kind id kind) (λ h.
        let q = new_record_within id (ground arith) in
        let same_kind : signal.kind ≡ kind = (kind_eq.beq_iff signal.kind kind).0 (ground arith) in
        rw (q.0, ← same_kind) q.3);
  }

-- A decision about an item with an id never takes a counter over its limit.
pub recovery_action-WithinBudget :
    (limits : RetryLimits) (created_at item_id : String) (signal : FailureSignal) (ledger : Ledger)
    {action : RecoveryAction} {ledger' : Ledger}
    → is_blank item_id ≡ false
    → WithinBudget limits ledger
    → recovery_action limits created_at item_id signal ledger ≡ ok (action, ledger')
    → WithinBudget limits ledger'
recovery_action-WithinBudget limits created_at item_id signal ledger {action} {ledger'} h w e =
    let same : ledger ++ new_record limits created_at item_id signal ledger ∷ [] ≡ ledger' =
      cc (recovery_action_lem limits created_at item_id signal ledger h) in
    subst (WithinBudget limits) same (append-WithinBudget limits created_at item_id signal ledger w)
