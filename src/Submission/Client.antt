-- ===== src/Submission/Client.antt =====
-- packages/submission/src/client.ts: an anonymous submission. The URL parser, fetch, the text
-- decoder and the two signals are parameters; the cancelling of a body is not modelled.
pub mod Laws
use Prim.Native.String
use Prim.Native.String.{String}
use qvac_atlas.Base.{
  ℕ, ◌+◌, Bool, true, false, not, ◌&&◌, ◌||◌, Option, none, some, List, [], ◌∷◌, ◌==◌, ◌=ₜ◌, ltb,
  leb, codes, before_semicolon, trimmed, same_codes, Result, ok, err, bind_result, or_raise,
  require, map_error, if◌then◌else◌,
}
use qvac_atlas.Json.{Value, num}
use qvac_atlas.Submission.Stream.{
  Bytes, Read, Drained, whole, too_long, failed, drain, declares_more,
}
use qvac_atlas.Submission.Protocol.{
  Codec, Thrown, protocol, foreign, AdmittedSubmission, SubmissionReceipt, admit_exact_submission,
  parse_receipt, max_response_bytes, default_submission_timeout_ms, submission_path,
}

pub data SubmissionClientError : Type 0 where
  cancelled invalid_report relay_rejected relay_response relay_unavailable timed_out :
      SubmissionClientError

-- The parts of a parsed URL that the program reads.
pub record Url : Type 0 where
  pub scheme : String
  pub username : String
  pub password : String
  pub pathname : String
  pub search : String
  pub hash : String
  pub origin : String

unfoldable pub is_pinned : Url → Bool
is_pinned u =
    u.scheme =ₜ "https:"
    && u.username =ₜ ""
    && u.password =ₜ ""
    && u.search =ₜ ""
    && u.hash =ₜ ""
    && (u.pathname =ₜ "/" || u.pathname =ₜ "")

unfoldable pub pinned_origin : (String → Option Url) → String → Result SubmissionClientError String
pinned_origin parse_url s =
    bind_result (or_raise (parse_url s) relay_unavailable)
      (λ u. bind_result (require (is_pinned u) relay_unavailable) (λ _. ok u.origin))

pub record Response : Type 0 where
  pub status : ℕ
  pub content_type : Option String
  pub content_length : Option String
  pub body : Option (List Read)

-- `?.split(";", 1)[0]?.trim() === "application/json"`.
unfoldable pub is_json_type : Option String → Bool
is_json_type none = false
is_json_type (some s) = same_codes (trimmed (codes (before_semicolon s))) (codes "application/json")

-- A request of `fetch`; its method and headers are fixed.
pub record Posted : Type 0 where
  pub url : String
  pub body : String

-- What the code outside the client answers: of one text sent, and at each point the signals.
pub record Network : Type 0 where
  pub fetch : Posted → Option Response
  pub decode : Bytes → Option String
  pub aborted_before : Bool
  pub aborted_after : Bool
  pub timed_out_after : Bool

-- A SubmissionClientError, or another exception.
pub data Raised : Type 0 where
  client : SubmissionClientError → Raised
  other : Raised

abbrev pub decoded : (Bytes → Option String) → Drained → Result Raised String
decoded decode (whole bytes) = or_raise (decode bytes) (client relay_response)
decoded decode too_long = err (client relay_response)
decoded decode failed = err other

abbrev pub body_text : Network → Option (List Read) → Result Raised String
body_text w none = ok ""
body_text w (some reads) = decoded w.decode (drain max_response_bytes reads)

unfoldable pub bounded_response_text : Network → Response → Result Raised String
bounded_response_text w r =
    if declares_more max_response_bytes r.content_length
    then err (client relay_response)
    else body_text w r.body

-- The tests of the signals in a `catch`, before its last resort.
unfoldable pub failure : Network → SubmissionClientError → Raised
failure w e =
    if w.aborted_after
    then client cancelled
    else if w.timed_out_after
    then client timed_out
    else client e

abbrev error_of : Raised → SubmissionClientError
error_of (client e) = e
error_of other = relay_response

unfoldable pub response_text : Network → Response → Result Raised String
response_text w r = map_error (λ e. failure w (error_of e)) (bounded_response_text w r)

unfoldable pub received :
    Codec → Network → AdmittedSubmission → Response → Result Raised SubmissionReceipt
received c w s r = bind_result (require (r.status == 202) (client relay_rejected)) (λ _.
    bind_result (require (is_json_type r.content_type) (client relay_response)) (λ _.
      bind_result (response_text w r) (λ text.
        bind_result (or_raise (c.parse text) (client relay_response))
          (λ parsed. map_error (λ _. client relay_response) (parse_receipt parsed s.report_id)))))

unfoldable pub answered :
    Codec → Network → AdmittedSubmission → Option Response → Result Raised SubmissionReceipt
answered c w s none = err (failure w relay_unavailable)
answered c w s (some r) = received c w s r

pub record AnonymousSubmissionClient : Type 0 where
  pub origin : String
  pub timeout_ms : ℕ

-- The request that left, if one did, and what the promise settles to.
pub record Submitted : Type 0 where
  pub sent : List Posted
  pub result : Result Raised SubmissionReceipt

abbrev pub unsent : Raised → Submitted
unsent e = record { sent = []; result = err e }

abbrev pub post : AnonymousSubmissionClient → String → Posted
post k exact = record { url = String.◌++◌ k.origin submission_path; body = exact }

abbrev pub submit_admitted :
    Codec
    → Network
    → AnonymousSubmissionClient
    → String
    → Result Thrown AdmittedSubmission
    → Submitted
submit_admitted c w k exact (err (protocol e)) = unsent (client invalid_report)
submit_admitted c w k exact (err foreign) = unsent other
submit_admitted c w k exact (ok s) =
    if w.aborted_before
    then unsent (client cancelled)
    else record { sent = post k exact ∷ []; result = answered c w s (w.fetch (post k exact)) }

unfoldable pub submit : Codec → Network → AnonymousSubmissionClient → String → Submitted
submit c w k exact = submit_admitted c w k exact (admit_exact_submission c exact)

abbrev safe_integer : Value → Option ℕ
safe_integer (num n) = if leb n 9007199254740991 then some n else none
safe_integer _ = none

abbrev timeout_of : Option Value → Value
timeout_of (some v) = v
timeout_of none = num default_submission_timeout_ms

unfoldable pub create_anonymous_submission_client :
    (String → Option Url)
    → String
    → Option Value
    → Result SubmissionClientError AnonymousSubmissionClient
create_anonymous_submission_client parse_url relay_origin timeout =
    bind_result (pinned_origin parse_url relay_origin) (λ origin.
      bind_result (or_raise (safe_integer (timeout_of timeout)) relay_unavailable) (λ ms.
        bind_result (require (not (ltb ms 100 || ltb 30000 ms)) relay_unavailable)
          (λ _. ok (record { origin = origin; timeout_ms = ms }))))
