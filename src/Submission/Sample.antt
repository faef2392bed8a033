-- ===== src/Submission/Sample.antt =====
-- A sample report with its text, and a codec for it; for the tests.
use Prim.Native.String.{String}
use qvac_atlas.Base.{
  Bool, true, false, Option, none, some, [], ◌∷◌, ◌=ₜ◌, codes, same_codes, if◌then◌else◌,
}
use qvac_atlas.Json.{Value, str, null, obj, Fields, fields, get}
use qvac_atlas.Submission.Stream.{Bytes}
use qvac_atlas.Submission.Protocol.{Codec, AdmittedSubmission, SubmissionReceipt, receipt_json}
use qvac_atlas.Submission.Client.{Url, AnonymousSubmissionClient}

abbrev pub digest : String
digest = "0123456789abcdef0123456789abcdef0123456789abcdef0123456789abcdef"

abbrev pub id : String
id = "sha256:0123456789abcdef0123456789abcdef0123456789abcdef0123456789abcdef"

abbrev pub report : Fields
report = fields (
    ("report_id", str id)
    ∷ (
      "profile",
      obj (
          fields (
            ("id", str "atlas-smollm2-360m-lifecycle")
            ∷ ("version", str "1.0.0-candidate.1")
            ∷ ("requested_backend", str "gpu")
            ∷ (
              "artifact_sha256",
              str "48ab3034d0dd401fbc721eb1df3217902fee7dab9078992d66431f09b7750201",
            )
            ∷ [])),
    )
    ∷ ("provenance", obj (fields (("kind", str "probe") ∷ ("fixture_id", null) ∷ [])))
    ∷ [])

abbrev pub exact : String
exact = "report\n"

abbrev pub receipt_text : String
receipt_text = "receipt\n"

abbrev pub submission : AdmittedSubmission
submission = record { exact_json = exact; report = report; report_id = id; digest = digest }

abbrev pub receipt : SubmissionReceipt
receipt = record { status = str "queued"; submission_id = id }

abbrev is_missing : Value → Bool
is_missing Value.undefined = true
is_missing _ = false

abbrev name_of : Value → Option String
name_of (obj fs) = if is_missing (get fs "report_id") then some "receipt" else some "report"
name_of _ = none

abbrev pub codec : Codec
codec = record {
  parse = λ t.
      if t =ₜ exact
      then some (obj report)
      else if t =ₜ receipt_text
      then some (receipt_json receipt)
      else none;
  canonicalize = name_of;
  validate_publishable = λ v. some true;
}

abbrev pub decode : Bytes → Option String
decode bytes =
    if same_codes bytes (codes exact)
    then some exact
    else if same_codes bytes (codes receipt_text)
    then some receipt_text
    else none

abbrev pub url : Url
url = record {
  scheme = "https:";
  username = "";
  password = "";
  pathname = "/v1/submissions";
  search = "";
  hash = "";
  origin = "https://relay.example";
}

abbrev pub client : AnonymousSubmissionClient
client = record { origin = "https://relay.example"; timeout_ms = 15000 }
