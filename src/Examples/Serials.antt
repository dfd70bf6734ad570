-- ===== src/Examples/Serials.antt =====
-- A failed result and its payload.
use project_os.Base.{
  String, ◌≡◌, refl, none, some, [], ◌∷◌, ok, raise, Json, Fields, null, text, dict_of, missing_key,
  unknown_value,
}
use project_os.Retry.Kinds.{test_failure}
use project_os.Retry.Signal.{FailureSignal, signal_of}
use project_os.Retry.Serial.{signal_from_dict}
use project_os.NodeResult.{NodeResult, NodeStatus}
use project_os.NodeResult.Serial.{result_as_dict, result_from_dict, result_from_dict-result_as_dict}

abbrev signal : FailureSignal
signal = record (signal_of test_failure "Two tests fail.") {
  evidence_id = some "e1";
  related_work_item_ids = "part" ∷ "tests" ∷ [];
}

abbrev failed_tests : NodeResult
failed_tests = record {
  work_item_id = "part";
  agent_id = "backend";
  status = NodeStatus.failed;
  content = none;
  capability_request = none;
  failure_signal = some signal;
  error = some "Two tests fail.";
}

abbrev repr : Json → String
repr value = "[]"

abbrev fingerprint : FailureSignal → String
fingerprint s = "digest"

abbrev payload : Fields
payload = result_as_dict fingerprint failed_tests

result_from_dict-result_as_dict_example : result_from_dict repr payload ≡ ok failed_tests
result_from_dict-result_as_dict_example =
    result_from_dict-result_as_dict repr fingerprint failed_tests

-- A payload with the id under node_id, as checkpoints had it before.
abbrev old : Fields
old = dict_of (
    ("node_id", text "part")
    ∷ ("agent_id", text "backend")
    ∷ ("status", text "failed")
    ∷ ("failure_signal", null)
    ∷ ("error", text "Two tests fail.")
    ∷ [])

old_payload : result_from_dict repr old ≡ ok (record failed_tests { failure_signal = none })
unfolding result_from_dict
old_payload = refl

no_agent : result_from_dict repr (dict_of (("work_item_id", text "part") ∷ [])) ≡ raise missing_key
unfolding result_from_dict
no_agent = refl

unknown_kind : signal_from_dict repr (dict_of (("kind", text "none") ∷ [])) ≡ raise unknown_value
unfolding signal_from_dict
unknown_kind = refl
