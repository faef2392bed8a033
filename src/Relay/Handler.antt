-- ===== src/Relay/Handler.antt =====
-- apps/submission-relay/src/handler.ts: one request to the relay. The queue, the URL parser and the
-- text decoder are parameters; the signal that the queue is given is not modelled.
pub mod Laws
use Prim.Native.String.{String}
use qvac_atlas.Base.{
  ℕ, Bool, true, false, not, ◌&&◌, Option, none, some, List, [], ◌∷◌, ◌=ₜ◌, Result, ok, err,
  bind_result, or_raise, if◌then◌else◌,
}
use qvac_atlas.Json.{str}
use qvac_atlas.Submission.Stream.{
  Bytes, Read, Drained, whole, too_long, failed, drain, declares_more,
}
use qvac_atlas.Submission.Protocol.{
  Codec, Thrown, protocol, foreign, body_size, body_invalid, AdmittedSubmission,
  admit_exact_submission, serialize_receipt, max_report_bytes, submission_path,
}
use qvac_atlas.Submission.Client.{Url, is_json_type}

pub record Request : Type 0 where
  pub url : Option Url  -- parsed
  pub method : String
  pub has_content_encoding : Bool
  pub content_type : Option String
  pub content_length : Option String
  pub body : Option (List Read)

pub record Relay : Type 0 where
  pub decode : Bytes → Option String
  pub enqueue : AdmittedSubmission → Option String

-- `jsonError` with its own headers, and the receipt of status 202.
pub data Answer : Type 0 where
  json_error : ℕ → String → List (String × String) → Answer
  accepted : String → Answer

abbrev pub status_of : Answer → ℕ
status_of (json_error n code headers) = n
status_of (accepted text) = 202

-- What was put to the queue, and the answer.
pub record Handled : Type 0 where
  pub enqueued : List AdmittedSubmission
  pub answer : Answer

abbrev pub decoded_body : (Bytes → Option String) → Drained → Result Thrown String
decoded_body decode (whole bytes) = or_raise (decode bytes) (protocol body_invalid)
decoded_body decode too_long = err (protocol body_size)
decoded_body decode failed = err foreign

abbrev pub read_body : (Bytes → Option String) → Option (List Read) → Result Thrown String
read_body decode none = err (protocol body_invalid)
read_body decode (some reads) = decoded_body decode (drain max_report_bytes reads)

unfoldable pub bounded_body : Relay → Request → Result Thrown String
bounded_body w r =
    if declares_more max_report_bytes r.content_length
    then err (protocol body_size)
    else read_body w.decode r.body

abbrev pub refuse : ℕ → String → List (String × String) → Handled
refuse n code headers = record { enqueued = []; answer = json_error n code headers }

abbrev pub unavailable : Answer
unavailable = json_error 503 "queue-unavailable" (("retry-after", "60") ∷ [])

abbrev pub served : Result Thrown String → Answer
served (ok text) = accepted text
served (err e) = unavailable

abbrev pub queued_as : Codec → AdmittedSubmission → Option String → Answer
queued_as c s none = unavailable
queued_as c s (some status) =
    served (serialize_receipt c (record { status = str status; submission_id = s.report_id }))

-- `error instanceof SubmissionProtocolError && error.code === "body-size"`.
abbrev pub is_body_size : Thrown → Bool
is_body_size (protocol body_size) = true
is_body_size _ = false

abbrev pub submit_admitted : Codec → Relay → Result Thrown AdmittedSubmission → Handled
submit_admitted c w (ok s) = record { enqueued = s ∷ []; answer = queued_as c s (w.enqueue s) }
submit_admitted c w (err e) =
    if is_body_size e
    then refuse 413 "submission-too-large" []
    else refuse 400 "invalid-submission" []

unfoldable pub admit_body : Codec → Relay → Request → Result Thrown AdmittedSubmission
admit_body c w r = bind_result (bounded_body w r) (admit_exact_submission c)

abbrev pub handle_at : Codec → Relay → Request → Option Url → Handled
handle_at c w r none = refuse 400 "bad-request" []
handle_at c w r (some u) =
    if not (u.pathname =ₜ submission_path && u.search =ₜ "")
    then refuse 404 "not-found" []
    else if not (r.method =ₜ "POST")
    then refuse 405 "method-not-allowed" (("allow", "POST") ∷ [])
    else if r.has_content_encoding
    then refuse 415 "unsupported-content-encoding" []
    else if not (is_json_type r.content_type)
    then refuse 415 "unsupported-media-type" []
    else submit_admitted c w (admit_body c w r)

-- The handler that `createSubmissionHandler` returns.
unfoldable pub handle : Codec → Relay → Request → Handled
handle c w r = handle_at c w r r.url
