-- ===== src/NodeResult/Serial.antt =====
-- `NodeResult.as_dict` and `NodeResult.from_dict` (app/orchestration/node_result.py).
use project_os.Base.{
  String, ◌≡◌, refl, Option, none, some, [], ◌∷◌, Result, ok, ◌>>=◌, Json, Fields, null, truth,
  number, text, array, object, dict_of, text_or_null, required_text, optional, member_or, known,
  str_of, PayloadError, known-value, some_text-text_or_null,
}
use project_os.Retry.Signal.{FailureSignal}
use project_os.Retry.Serial.{signal_as_dict, signal_from_dict, signal_from_dict-signal_as_dict}
use project_os.NodeResult.{NodeResult, CapabilityRequest, status_enum, status_value}

-- as_dict: capability_request
abbrev request_json : Option CapabilityRequest → Json
request_json none = null
request_json (some request) =
    object
      (dict_of (("capability", text request.capability) ∷ ("reason", text request.reason) ∷ []))

-- as_dict: failure_signal
abbrev signal_json : (FailureSignal → String) → Option FailureSignal → Json
signal_json fingerprint none = null
signal_json fingerprint (some signal) = object (signal_as_dict fingerprint signal)

-- NodeResult.as_dict
unfoldable pub result_as_dict : (FailureSignal → String) → NodeResult → Fields
result_as_dict fingerprint result = dict_of (
    ("work_item_id", text result.work_item_id)
    ∷ ("agent_id", text result.agent_id)
    ∷ ("status", text (status_value result.status))
    ∷ ("content", text_or_null result.content)
    ∷ ("capability_request", request_json result.capability_request)
    ∷ ("failure_signal", signal_json fingerprint result.failure_signal)
    ∷ ("error", text_or_null result.error)
    ∷ [])

module _ (repr : Json → String) where
  -- from_dict: capability
  abbrev request_of : Json → Result PayloadError (Option CapabilityRequest)
  request_of null = ok none
  request_of (truth b) = ok none
  request_of (number n) = ok none
  request_of (text s) = ok none
  request_of (array items) = ok none
  request_of (object payload) = do
    capability ← required_text repr "capability" payload
    reason ← required_text repr "reason" payload
    ok (some (record { capability = capability; reason = reason }))

  -- from_dict: failure
  abbrev failure_of : Json → Result PayloadError (Option FailureSignal)
  failure_of null = ok none
  failure_of (truth b) = ok none
  failure_of (number n) = ok none
  failure_of (text s) = ok none
  failure_of (array items) = ok none
  failure_of (object payload) = do signal ← signal_from_dict repr payload; ok (some signal)

  -- NodeResult.from_dict
  unfoldable pub result_from_dict : Fields → Result PayloadError NodeResult
  result_from_dict payload = do
    request ← request_of (member_or null "capability_request" payload)
    failure ← failure_of (member_or null "failure_signal" payload)
    agent_id ← required_text repr "agent_id" payload
    status_text ← required_text repr "status" payload
    status ← known status_enum status_text
    ok (record {
      work_item_id =
          str_of repr (member_or (member_or (text "") "node_id" payload) "work_item_id" payload);
      agent_id = agent_id;
      status = status;
      content = optional repr "content" payload;
      capability_request = request;
      failure_signal = failure;
      error = optional repr "error" payload;
    })

  request_of-request_json :
      (request : Option CapabilityRequest) → request_of (request_json request) ≡ ok request
  request_of-request_json none = refl
  request_of-request_json (some request) = refl

  module _ (fingerprint : FailureSignal → String) where
    failure_of-signal_json :
        (failure : Option FailureSignal) → failure_of (signal_json fingerprint failure) ≡ ok failure
    failure_of-signal_json none = refl
    failure_of-signal_json (some signal) =
        λ i. do read ← signal_from_dict-signal_as_dict repr fingerprint signal i; ok (some read)

    -- A node result that as_dict writes and from_dict reads again is the same, with all fields of
    -- its capability request and of its failure signal.
    pub result_from_dict-result_as_dict :
        (result : NodeResult) → result_from_dict (result_as_dict fingerprint result) ≡ ok result
    unfolding result_from_dict result_as_dict
    result_from_dict-result_as_dict result = λ i. do
      request ← request_of-request_json result.capability_request i
      failure ← failure_of-signal_json result.failure_signal i
      status ← known-value status_enum result.status i
      ok (record result {
        status = status;
        content = some_text-text_or_null repr result.content i;
        capability_request = request;
        failure_signal = failure;
        error = some_text-text_or_null repr result.error i;
      })
