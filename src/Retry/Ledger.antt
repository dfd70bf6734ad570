-- ===== src/Retry/Ledger.antt =====
-- `RetryLedger` of app/orchestration/retry.py: the durable history of one trace, as the list of its
-- records. Files, locks and JSON text are left out: every method reads the whole list, and `append`
-- writes it back with one more record, under the lock.
use project_os.Base.{
  ℕ, ◌+◌, String, Bool, ◌&&◌, ◌||◌, Option, some, List, [], ◌∷◌, ◌++◌, ◌==◌, elem, filter, find?,
  any, count_if, string_eq, option_eq,
}
use mathlib.Core.List.{reverse}
use project_os.Retry.Kinds.{
  FailureKind, RetryScope, retry_item, retry_batch, resume, kind_eq, action_eq, scope_eq,
}
use project_os.Retry.Signal.{FailureSignal, RetryRecord}

abbrev pub Ledger : Type 0
Ledger = List RetryRecord

unfoldable pub append : Ledger → RetryRecord → Ledger
append records r = records ++ r ∷ []

-- record.action in self._budget_actions
abbrev pub spends_budget : RetryRecord → Bool
spends_budget r = elem r.action (retry_item ∷ retry_batch ∷ resume ∷ [])

abbrev pub is_about : String → RetryRecord → Bool
is_about work_item_id r = r.subject_id == work_item_id || r.root_work_item_id == some work_item_id

unfoldable pub budget_count : Ledger → ℕ
budget_count = count_if spends_budget

unfoldable pub budget_count_for_work_item : String → Ledger → ℕ
budget_count_for_work_item work_item_id = count_if (λ r. spends_budget r && is_about work_item_id r)

unfoldable pub budget_count_for_kind : String → FailureKind → Ledger → ℕ
budget_count_for_kind work_item_id kind =
    count_if (λ r. spends_budget r && r.failure.kind == kind && is_about work_item_id r)

unfoldable pub next_attempt : RetryScope → String → Ledger → ℕ
next_attempt scope subject_id records =
    1 + count_if (λ r. r.scope == scope && r.subject_id == subject_id) records

-- The fingerprint is a digest (SHA-256 over the normalised fields): a parameter.
unfoldable pub has_same_failure_without_new_evidence :
    (FailureSignal → String) → String → FailureSignal → Ledger → Bool
has_same_failure_without_new_evidence fingerprint work_item_id signal records =
    any
      (λ r.
        is_about work_item_id r
        && fingerprint r.failure == fingerprint signal
        && r.failure.input_digest == signal.input_digest
        && r.failure.evidence_id == signal.evidence_id)
      (reverse records)

unfoldable pub recovery_records : Ledger → List RetryRecord
recovery_records = filter (λ r. elem r.action (resume ∷ retry_batch ∷ []))

unfoldable pub latest_for_work_item : String → Ledger → Option RetryRecord
latest_for_work_item work_item_id records =
    find? (λ r. is_about work_item_id r || elem work_item_id r.interrupted_work_item_ids)
      (reverse records)
