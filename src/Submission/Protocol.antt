-- ===== src/Submission/Protocol.antt =====
-- packages/submission/src/protocol.ts: which reports may be submitted, and the receipt.
-- JSON.parse, canonicalize and validatePublishableReport of packages/schema are parameters; `none`
-- is an exception. A submission is a text, so the test of its type is passed.
pub mod Parts
pub mod Laws
use Prim.Native.String
use Prim.Native.String.{String}
use qvac_atlas.Base.{
  ℕ, ◌+◌, Bool, true, false, not, ◌&&◌, ◌||◌, Option, none, some, List, [], ◌∷◌, ◌==◌, ◌=ₜ◌, ltb,
  length, all, codes, is_hex, take_chars, drop_chars, one_of, Result, ok, err, bind_result,
  or_raise, require, if◌then◌else◌,
}
use qvac_atlas.Json.{
  Value, str, obj, Fields, get, fields, record_of, is_null, is_text, to_string, Coerced, text,
  unlisted, throws,
}
use qvac_atlas.Json.Keys.{has_exact_keys}

pub record Codec : Type 0 where
  pub parse : String → Option Value
  pub canonicalize : Value → Option String
  pub validate_publishable : Value → Option Bool

pub data Code : Type 0 where
  body_size body_json body_invalid report_shape body_noncanonical : Code
  report_invalid report_profile report_not_genuine report_id receipt_invalid : Code

-- A SubmissionProtocolError, or another exception.
pub data Thrown : Type 0 where
  protocol : Code → Thrown
  foreign : Thrown

infixl 5 ◌>>=◌ ◌>>◌
abbrev pub ◌>>=◌ : {A B : Type 0} → Result Thrown A → (A → Result Thrown B) → Result Thrown B
m >>= f = bind_result m f

abbrev pub ◌>>◌ : {A B : Type 0} → Result Thrown A → Result Thrown B → Result Thrown B
m >> n = bind_result m (λ _. n)

abbrev pub submission_path : String
submission_path = "/v1/submissions"

abbrev pub max_report_bytes : ℕ
max_report_bytes = 65536

abbrev pub max_response_bytes : ℕ
max_response_bytes = 512

abbrev pub default_submission_timeout_ms : ℕ
default_submission_timeout_ms = 15000

-- REPORT_ID.
unfoldable pub is_report_id : String → Bool
is_report_id s =
    take_chars 7 s =ₜ "sha256:"
    && length (codes (drop_chars 7 s)) == 64
    && all is_hex (codes (drop_chars 7 s))

abbrev pub submission_profile : List (String × String)
submission_profile =
    ("id", "atlas-smollm2-360m-lifecycle")
    ∷ ("version", "1.0.0-candidate.1")
    ∷ ("artifact_sha256", "48ab3034d0dd401fbc721eb1df3217902fee7dab9078992d66431f09b7750201")
    ∷ ("requested_backend", "gpu")
    ∷ []

pub record AdmittedSubmission : Type 0 where
  pub exact_json : String
  pub report : Fields
  pub report_id : String
  pub digest : String

-- `status` holds what the source's type says is a QueueStatus.
pub record SubmissionReceipt : Type 0 where
  pub status : Value
  pub submission_id : String

abbrev pub matches_profile : Fields → Bool
matches_profile p =
    has_exact_keys p ("artifact_sha256" ∷ "id" ∷ "requested_backend" ∷ "version" ∷ [])
    && all (λ (k, s). is_text (get p k) s) submission_profile

abbrev pub on_record : Option Fields → (Fields → Bool) → Bool
on_record none f = false
on_record (some fs) f = f fs

unfoldable pub is_submission_eligible_report : Value → Bool
unfolding record_of has_exact_keys
is_submission_eligible_report v =
    on_record (record_of v) (λ fs. on_record (record_of (get fs "profile")) matches_profile)

unfoldable pub is_genuine : Fields → Bool
unfolding record_of
is_genuine report =
    on_record (record_of (get report "provenance"))
      (λ p. is_text (get p "kind") "probe" && is_null (get p "fixture_id"))

abbrev pub string_of : Value → Option String
string_of (str s) = some s
string_of _ = none

-- `typeof reportId !== "string" || !REPORT_ID.test(reportId)`.
unfoldable pub report_id_of : Value → Result Thrown String
report_id_of v = do
  s ← or_raise (string_of v) (protocol report_id)
  require (is_report_id s) (protocol report_id)
  ok s

unfoldable pub admit_exact_submission : Codec → String → Result Thrown AdmittedSubmission
admit_exact_submission c exact = do
  require (ltb 0 (String.len exact) && not (ltb max_report_bytes (String.len exact)))
      (protocol body_size)
  parsed ← or_raise (c.parse exact) (protocol body_json)
  report ← or_raise (record_of parsed) (protocol report_shape)
  canonical ← or_raise (c.canonicalize parsed) (protocol body_json)
  require (exact =ₜ String.◌++◌ canonical "\n") (protocol body_noncanonical)
  valid ← or_raise (c.validate_publishable parsed) foreign
  require valid (protocol report_invalid)
  require (is_submission_eligible_report parsed) (protocol report_profile)
  require (is_genuine report) (protocol report_not_genuine)
  id ← report_id_of (get report "report_id")
  ok (record { exact_json = exact; report = report; report_id = id; digest = drop_chars 7 id })

abbrev pub queue_statuses : List String
queue_statuses = "queued" ∷ "already-queued" ∷ []

-- `includes(receipt.status)`.
abbrev pub is_status : Value → Bool
is_status (str s) = one_of queue_statuses s
is_status _ = false

abbrev pub receipt_json : SubmissionReceipt → Value
receipt_json r = obj (fields (("status", r.status) ∷ ("submission_id", str r.submission_id) ∷ []))

unfoldable pub serialize_receipt : Codec → SubmissionReceipt → Result Thrown String
serialize_receipt c r = do
  require (is_status r.status && is_report_id r.submission_id) (protocol receipt_invalid)
  json ← or_raise (c.canonicalize (receipt_json r)) foreign
  ok (String.◌++◌ json "\n")

-- `includes(String(value.status))`.
abbrev includes_coerced : Coerced → Result Thrown Bool
includes_coerced (text s) = ok (one_of queue_statuses s)
includes_coerced unlisted = ok false
includes_coerced throws = err foreign

unfoldable pub parse_receipt : Value → String → Result Thrown SubmissionReceipt
unfolding record_of has_exact_keys to_string
parse_receipt v expected = do
  fs ← or_raise (record_of v) (protocol receipt_invalid)
  require (has_exact_keys fs ("status" ∷ "submission_id" ∷ [])) (protocol receipt_invalid)
  listed ← includes_coerced (to_string (get fs "status"))
  require (listed && is_text (get fs "submission_id") expected) (protocol receipt_invalid)
  ok (record { status = get fs "status"; submission_id = expected })
