-- ===== src/Executor/Protocol/Laws.antt =====
-- packages/qvac-executor/src/protocol.ts: what `parseChildEvent` accepts.
use qvac_atlas.Base.{◌≤◌, String, ◌≡◌, some, [], ◌∷◌, arith}
use qvac_atlas.Json.{Value, str, num, obj, fields}
use qvac_atlas.Executor.Phase.{
  label, phase_of_label, qvac_import, worker_start, model_load, inference, clean_shutdown,
}
use qvac_atlas.Executor.Protocol.{
  ChildEvent, phase, backend, ChildPhaseState, started, succeeded, failed, Backend, cpu, gpu,
  sequence_of, parse_child_event,
}

abbrev pub state_label : ChildPhaseState → String
state_label started = "started"
state_label succeeded = "succeeded"
state_label failed = "failed"

abbrev pub backend_label : Backend → String
backend_label cpu = "cpu"
backend_label gpu = "gpu"

-- The message of an event, as the child's program sends it.
abbrev pub message_of : ChildEvent → Value
message_of (phase n p s) = obj (
    fields (
      ("type", str "phase")
      ∷ ("sequence", num n)
      ∷ ("phase", str (label p))
      ∷ ("state", str (state_label s))
      ∷ []))
message_of (backend n b) = obj (
    fields
      (("type", str "backend") ∷ ("sequence", num n) ∷ ("backend", str (backend_label b)) ∷ []))

-- Every event whose sequence number is a safe integer is parsed back from its message.
pub parse_child_event-message_of :
    (e : ChildEvent) → sequence_of e ≤ 9007199254740991 → parse_child_event (message_of e) ≡ some e
unfolding parse_child_event phase_of_label
parse_child_event-message_of (phase n qvac_import started) h = ground arith
parse_child_event-message_of (phase n qvac_import succeeded) h = ground arith
parse_child_event-message_of (phase n qvac_import failed) h = ground arith
parse_child_event-message_of (phase n worker_start started) h = ground arith
parse_child_event-message_of (phase n worker_start succeeded) h = ground arith
parse_child_event-message_of (phase n worker_start failed) h = ground arith
parse_child_event-message_of (phase n model_load started) h = ground arith
parse_child_event-message_of (phase n model_load succeeded) h = ground arith
parse_child_event-message_of (phase n model_load failed) h = ground arith
parse_child_event-message_of (phase n inference started) h = ground arith
parse_child_event-message_of (phase n inference succeeded) h = ground arith
parse_child_event-message_of (phase n inference failed) h = ground arith
parse_child_event-message_of (phase n clean_shutdown started) h = ground arith
parse_child_event-message_of (phase n clean_shutdown succeeded) h = ground arith
parse_child_event-message_of (phase n clean_shutdown failed) h = ground arith
parse_child_event-message_of (backend n cpu) h = ground arith
parse_child_event-message_of (backend n gpu) h = ground arith
