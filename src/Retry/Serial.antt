-- ===== src/Retry/Serial.antt =====
-- `as_dict` and `from_dict` of `FailureSignal` (app/orchestration/retry.py).
use project_os.Base.{
  String, ◌≡◌, true, false, [], ◌∷◌, Result, ok, ◌>>=◌, Json, Fields, truth, text, array, nil,
  dict_of, text_or_null, text_array, required_text, optional, member_or, is_true, is_not_false,
  known, str_of, text_tuple, PayloadError, known-value, some_text-text_or_null,
  text_tuple-text_array,
}
use project_os.Retry.Kinds.{kind_enum, kind_value}
use project_os.Retry.Signal.{FailureSignal}

-- FailureSignal.as_dict; the fingerprint is SHA-256 of the normalised fields
unfoldable pub signal_as_dict : (FailureSignal → String) → FailureSignal → Fields
signal_as_dict fingerprint signal = dict_of (
    ("kind", text (kind_value signal.kind))
    ∷ ("summary", text signal.summary)
    ∷ ("evidence_id", text_or_null signal.evidence_id)
    ∷ ("validator", text_or_null signal.validator)
    ∷ ("field_path", text_or_null signal.field_path)
    ∷ ("code", text_or_null signal.code)
    ∷ ("input_digest", text_or_null signal.input_digest)
    ∷ ("artifact_digest", text_or_null signal.artifact_digest)
    ∷ ("retry_hint", text_or_null signal.retry_hint)
    ∷ ("retryable", truth signal.retryable)
    ∷ ("scope", text signal.scope)
    ∷ ("requires_control_plane", truth signal.requires_control_plane)
    ∷ ("related_work_item_ids", text_array signal.related_work_item_ids)
    ∷ ("related_artifact_refs", text_array signal.related_artifact_refs)
    ∷ ("failure_fingerprint", text (fingerprint signal))
    ∷ [])

module _ (repr : Json → String) where
  -- FailureSignal.from_dict
  unfoldable pub signal_from_dict : Fields → Result PayloadError FailureSignal
  signal_from_dict payload = do
    kind_text ← required_text repr "kind" payload
    kind ← known kind_enum kind_text
    summary ← required_text repr "summary" payload
    work_item_ids ← text_tuple repr (member_or (array nil) "related_work_item_ids" payload)
    artifact_refs ← text_tuple repr (member_or (array nil) "related_artifact_refs" payload)
    ok (record {
      kind = kind;
      summary = summary;
      evidence_id = optional repr "evidence_id" payload;
      validator = optional repr "validator" payload;
      field_path = optional repr "field_path" payload;
      code = optional repr "code" payload;
      input_digest = optional repr "input_digest" payload;
      artifact_digest = optional repr "artifact_digest" payload;
      retry_hint = optional repr "retry_hint" payload;
      retryable = is_not_false (member_or (truth true) "retryable" payload);
      scope = str_of repr (member_or (text "current_work_item") "scope" payload);
      requires_control_plane = is_true (member_or (truth false) "requires_control_plane" payload);
      related_work_item_ids = work_item_ids;
      related_artifact_refs = artifact_refs;
    })

  -- A failure signal that as_dict writes and from_dict reads again is the same; from_dict does not
  -- read the fingerprint.
  pub signal_from_dict-signal_as_dict :
      (fingerprint : FailureSignal → String) (signal : FailureSignal)
      → signal_from_dict (signal_as_dict fingerprint signal) ≡ ok signal
  unfolding signal_from_dict signal_as_dict
  signal_from_dict-signal_as_dict fingerprint signal = λ i. do
    kind ← known-value kind_enum signal.kind i
    work_item_ids ← text_tuple-text_array repr signal.related_work_item_ids i
    artifact_refs ← text_tuple-text_array repr signal.related_artifact_refs i
    ok (record signal {
      kind = kind;
      evidence_id = some_text-text_or_null repr signal.evidence_id i;
      validator = some_text-text_or_null repr signal.validator i;
      field_path = some_text-text_or_null repr signal.field_path i;
      code = some_text-text_or_null repr signal.code i;
      input_digest = some_text-text_or_null repr signal.input_digest i;
      artifact_digest = some_text-text_or_null repr signal.artifact_digest i;
      retry_hint = some_text-text_or_null repr signal.retry_hint i;
      related_work_item_ids = work_item_ids;
      related_artifact_refs = artifact_refs;
    })
