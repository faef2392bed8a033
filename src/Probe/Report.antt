-- ===== src/Probe/Report.antt =====
-- packages/probe/src/report.ts: the report of a real probe. `withReportId`, `validateReport`,
-- `canonicalize` and `scanPrivacy` of packages/schema are parameters; `none` is an exception.
use qvac_atlas.Base.{
  ℕ, String, Bool, true, false, Option, none, some, [], ◌∷◌, ◌=ₜ◌, ◌==◌, if◌then◌else◌,
}
use Prim.Native.String
use qvac_atlas.Json.{Value, null, bool, str, obj, Fields, end, field, get, fields}

pub record Schema : Type 0 where
  pub with_report_id : Value → Option Value
  pub is_valid : Value → Option Bool
  pub canonicalize : Value → Option String
  pub scan_privacy : Value → Option ℕ

abbrev candidate_profile : Value
candidate_profile = obj (
    fields (
      ("id", str "atlas-smollm2-360m-lifecycle")
      ∷ ("version", str "1.0.0-candidate.1")
      ∷ ("artifact_sha256", str "48ab3034d0dd401fbc721eb1df3217902fee7dab9078992d66431f09b7750201")
      ∷ ("requested_backend", str "gpu")
      ∷ []))

-- The input of `assembleProbeReport`.
pub record Input : Type 0 where
  pub created_at : String
  pub publication : Bool
  pub platform : Value
  pub node_version : Value
  pub qvac : Value
  pub doctor : Value
  pub runner : Value
  pub redaction_counts : Value

abbrev fields_of : Value → Fields
fields_of (obj fs) = fs
fields_of _ = end

abbrev at : Value → String → Value
at v k = get (fields_of v) k

abbrev draft : Input → Value
draft i = obj (
    fields (
      ("schema_version", str "1.0.0")
      ∷ ("probe_version", str "0.1.0")
      ∷ ("report_id", str "sha256:0000000000000000000000000000000000000000000000000000000000000000")
      ∷ ("created_at", str i.created_at)
      ∷ ("provenance", obj (fields (("kind", str "probe") ∷ ("fixture_id", null) ∷ [])))
      ∷ (
        "consent",
        obj (
            fields
              (("fingerprint_acknowledged", bool true) ∷ ("publication", bool i.publication) ∷ [])),
      )
      ∷ ("platform", i.platform)
      ∷ ("runtime", obj (fields (("node_version", i.node_version) ∷ [])))
      ∷ ("qvac", i.qvac)
      ∷ (
        "official_checks",
        obj (
            fields (
              ("doctor", i.doctor)
              ∷ (
                "bundle_verification",
                obj (
                    fields (
                      ("status", str "skipped")
                      ∷ ("reason", str "not-applicable")
                      ∷ ("duration_ms", null)
                      ∷ [])),
              )
              ∷ [])),
      )
      ∷ ("profile", candidate_profile)
      ∷ (
        "execution",
        obj (
            fields (
              ("phases", at i.runner "phases")
              ∷ ("backend_observation", at i.runner "backend_observation")
              ∷ ("termination", at i.runner "termination")
              ∷ [])),
      )
      ∷ ("result", at i.runner "result")
      ∷ (
        "privacy",
        obj (
            fields (
              ("collection_policy", str "allowlist-v1")
              ∷ ("sanitizer_version", str "0.1.0")
              ∷ ("redaction_counts", i.redaction_counts)
              ∷ [])),
      )
      ∷ []))

unfoldable pub assemble_probe_report : Schema → Input → Option Value
assemble_probe_report schema i = schema.with_report_id (draft i)

-- `{ ...value, [key]: v }`.
abbrev pub set : Fields → String → Value → Fields
set end k v = field k v end
set (field j w fs) k v = if j =ₜ k then field j v fs else field j w (set fs k v)

unfoldable pub with_probe_publication : Schema → Value → Bool → Option Value
with_probe_publication schema report publication = schema.with_report_id (
    obj (
      set (fields_of report) "consent"
        (obj (set (fields_of (at report "consent")) "publication" (bool publication)))))

abbrev pub line : Option String → Option String
line none = none
line (some s) = some (String.◌++◌ s "\n")

unfoldable pub serialize_report : Schema → Value → Option String
serialize_report schema report = line (schema.canonicalize report)

-- `validateLocalReport`, and then `containsPrivateReportMaterial`: whether neither raises.
abbrev is_true : Option Bool → Bool
is_true (some true) = true
is_true _ = false

abbrev found_none : Option ℕ → Bool
found_none none = false
found_none (some n) = n == 0

unfoldable pub is_publishable : Schema → Value → Bool
is_publishable schema report =
    if is_true (schema.is_valid report) then found_none (schema.scan_privacy report) else false
