-- ===== src/Retry/Verdict.antt =====
-- Which action the policy chooses, by a table of the kinds in place of the ladder of tests.
use project_os.Base.{
  ℕ, ◌<◌, ◌≡◌, ◌⊎◌, inl, inr, refl, Bool-cases, elem, [], ◌∷◌, Bool, true, false, if◌then◌else◌,
  arith,
}
use project_os.Retry.Kinds.{
  FailureKind, RecoveryAction, retry_item, retry_batch, resume, action_eq, request_replan, block,
  fail,
}
use project_os.Retry.Signal.{FailureSignal}
use project_os.Retry.Policy.{RetryLimits, max_retries_for, is_exhausted, action_for}

-- How a kind of failure is treated: handed over at once, replanned, resumed from a checkpoint or
-- retried while the limits allow it, or not recovered.
pub data Treatment : Type 0 where
  blocked replanned resumed retried given_up : Treatment

abbrev pub treatment : FailureKind → Treatment
treatment FailureKind.sandbox_setup = blocked
treatment FailureKind.worker_bootstrap_failure = blocked
treatment FailureKind.tool_contract_mismatch = blocked
treatment FailureKind.artifact_commit_failure = blocked
treatment FailureKind.test_failure = replanned
treatment FailureKind.provider_stall = resumed
treatment FailureKind.worker_timeout = resumed
treatment FailureKind.worker_crash = resumed
treatment FailureKind.provider_policy_rejected = given_up
treatment FailureKind.runtime_preflight = given_up
treatment FailureKind.tool_execution = given_up
treatment _ = retried

abbrev pub outcome : Treatment → Bool → RecoveryAction
outcome blocked exhausted = block
outcome replanned exhausted = request_replan
outcome resumed exhausted = if exhausted then fail else resume
outcome retried exhausted = if exhausted then fail else retry_item
outcome given_up exhausted = fail

module _ (limits : RetryLimits) (total item of_kind : ℕ) where
  for_kind :
      (kind : FailureKind) (signal : FailureSignal)
      → signal.kind ≡ kind
      → signal.retryable ≡ true
      → action_for limits signal total item of_kind
        ≡ outcome (treatment kind) (is_exhausted limits kind total item of_kind)
  unfolding action_for
  for_kind FailureKind.provider_policy_rejected signal k r = rw (r, k) (ground arith)
  for_kind FailureKind.runtime_preflight signal k r = rw (r, k) (ground arith)
  for_kind FailureKind.tool_execution signal k r = rw (r, k) (ground arith)
  for_kind _ signal k r = rw (r, k)

  not_retryable :
      (signal : FailureSignal)
      → signal.retryable ≡ false
      → action_for limits signal total item of_kind ≡ block
  unfolding action_for
  not_retryable signal r = rw r

  -- The action is `block` for a signal that is not retryable, and otherwise the outcome of its
  -- kind's treatment, in which only resuming and retrying depend on the counters.
  pub action_for_lem :
      (signal : FailureSignal)
      → action_for limits signal total item of_kind ≡ (
          if signal.retryable
          then outcome (treatment signal.kind) (is_exhausted limits signal.kind total item of_kind)
          else block)
  action_for_lem signal = elim (Bool-cases signal.retryable) [
    | inl r ↦ let e = for_kind signal.kind signal refl r in ground arith
    | inr r ↦ let e = not_retryable signal r in ground arith
  ]

  outcome_within :
      (t : Treatment) (exhausted : Bool)
      → (outcome t exhausted ≡ retry_item) ⊎ (outcome t exhausted ≡ resume)
      → exhausted ≡ false
  outcome_within blocked b h = ground arith
  outcome_within _ b h = ground arith

  -- A retry or a resumption is only chosen while each of the three counters is below its limit.
  pub action_for_within :
      (signal : FailureSignal)
      → (action_for limits signal total item of_kind ≡ retry_item)
        ⊎ (action_for limits signal total item of_kind ≡ resume)
      → (total < limits.max_total_retries)
        × (item < limits.max_retries_per_work_item)
        × (of_kind < max_retries_for limits signal.kind)
  action_for_within signal h = elim (Bool-cases signal.retryable) [
    | inl r ↦
        let e = for_kind signal.kind signal refl r in
        let free = outcome_within (treatment signal.kind) _ (rw e at h) in ground arith
    | inr r ↦ let e = not_retryable signal r in absurd (ground arith)
  ]

  outcome_spends :
      (t : Treatment) (exhausted : Bool)
      → elem (outcome t exhausted) (retry_item ∷ retry_batch ∷ resume ∷ []) ≡ true
      → (outcome t exhausted ≡ retry_item) ⊎ (outcome t exhausted ≡ resume)
  outcome_spends blocked b h = cc
  outcome_spends replanned b h = cc
  outcome_spends resumed true h = cc
  outcome_spends resumed false h = inr refl
  outcome_spends retried true h = cc
  outcome_spends retried false h = inl refl
  outcome_spends given_up b h = cc

  -- An action that the ledger counts against a budget is only chosen while each of the three counters
  -- is below its limit.
  pub action_for_spends :
      (signal : FailureSignal)
      → elem (action_for limits signal total item of_kind) (retry_item ∷ retry_batch ∷ resume ∷ [])
        ≡ true
      → (total < limits.max_total_retries)
        × (item < limits.max_retries_per_work_item)
        × (of_kind < max_retries_for limits signal.kind)
  action_for_spends signal h = elim (Bool-cases signal.retryable) [
    | inl r ↦
        let e = for_kind signal.kind signal refl r in
        action_for_within signal (rw e (outcome_spends (treatment signal.kind) _ (rw e at h)))
    | inr r ↦ let e = not_retryable signal r in cc (rw e at h)
  ]
