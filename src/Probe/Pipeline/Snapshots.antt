-- ===== src/Probe/Pipeline/Snapshots.antt =====
-- packages/probe/src/real-pipeline.ts: what the pipeline takes over from its collaborators' answers.
-- The answers are plain data, so no access to a field raises and a clone is the value itself.
use qvac_atlas.Base.{
  ℕ, String, Bool, true, false, Option, none, some, List, [], ◌∷◌, ◌&&◌, ◌==◌, not, leb, all,
  one_of, if◌then◌else◌,
}
use qvac_atlas.Json.{
  Value, null, num, str, arr, obj, Fields, end, cons, nil, items, of_items, get, fields, record_of,
  is_null, is_text,
}
use qvac_atlas.Json.Keys.{exact_joined_keys}

-- An integer from 0 to 3,600,000.
abbrev timed : Value → Bool
timed (num n) = leb n 3600000
timed _ = false

unfoldable pub keyed : Value → List String → Bool
unfolding record_of exact_joined_keys
keyed v ks = elim (record_of v) [ none ↦ false | some fs ↦ exact_joined_keys fs ks ]

abbrev fields_of : Value → Fields
fields_of (obj fs) = fs
fields_of _ = end

abbrev at : Value → String → Value
at v k = get (fields_of v) k

abbrev only_item : Value → Option Value
only_item (arr (cons v nil)) = some v
only_item _ = none

-- `snapshotResolvedQvac`.
abbrev sdk_package : Option Value → Bool
sdk_package none = false
sdk_package (some p) =
    keyed p ("name" ∷ "version" ∷ [])
    && is_text (at p "name") "@qvac/sdk"
    && is_text (at p "version") "0.16.0"

abbrev resolved_qvac : Value → Value
resolved_qvac duration = obj (
    fields (
      (
        "discovery",
        obj (
            fields (
              ("status", str "passed")
              ∷ ("reason", str "completed")
              ∷ ("duration_ms", duration)
              ∷ [])),
      )
      ∷ ("sdk_version", str "0.16.0")
      ∷ (
        "packages",
        arr (
            of_items
              (obj (fields (("name", str "@qvac/sdk") ∷ ("version", str "0.16.0") ∷ [])) ∷ [])),
      )
      ∷ []))

unfoldable pub snapshot_resolved_qvac : Value → Option Value
snapshot_resolved_qvac v =
    let d = at v "discovery" in
    if keyed v ("discovery" ∷ "packages" ∷ "sdk_version" ∷ [])
      && keyed d ("duration_ms" ∷ "reason" ∷ "status" ∷ [])
      && is_text (at d "status") "passed"
      && is_text (at d "reason") "completed"
      && timed (at d "duration_ms")
      && is_text (at v "sdk_version") "0.16.0"
      && sdk_package (only_item (at v "packages"))
    then some (resolved_qvac (at d "duration_ms"))
    else none

-- `snapshotDoctor`.
abbrev pub check : String → String → Value → Value
check status reason duration =
    obj (fields (("status", str status) ∷ ("reason", str reason) ∷ ("duration_ms", duration) ∷ []))

abbrev unavailable : Value
unavailable = check "unknown" "unavailable" null

unfoldable pub snapshot_doctor : Value → Value
snapshot_doctor v =
    let known = keyed v ("duration_ms" ∷ "reason" ∷ "status" ∷ []) && timed (at v "duration_ms") in
    if known && is_text (at v "status") "passed" && is_text (at v "reason") "completed"
    then check "passed" "completed" (at v "duration_ms")
    else if known && is_text (at v "status") "failed" && is_text (at v "reason") "failed"
    then check "failed" "failed" (at v "duration_ms")
    else if known && is_text (at v "status") "failed" && is_text (at v "reason") "timed-out"
    then check "failed" "timed-out" (at v "duration_ms")
    else unavailable

-- `snapshotRunner`, with the privacy scan as a parameter; `none` where it raises.
abbrev allowed_codes : List String
allowed_codes =
    "QVAC_IMPORT_FAILED" ∷ "QVAC_IMPORT_TIMEOUT" ∷ "WORKER_START_FAILED" ∷ "WORKER_START_TIMEOUT"
    ∷ "MODEL_LOAD_FAILED" ∷ "MODEL_LOAD_TIMEOUT" ∷ "INFERENCE_FAILED" ∷ "INFERENCE_TIMEOUT"
    ∷ "CLEAN_SHUTDOWN_FAILED" ∷ "CLEAN_SHUTDOWN_TIMEOUT" ∷ "CLEANUP_TIMEOUT_AFTER_FAILURE"
    ∷ "TIMEOUT_AFTER_LIFECYCLE" ∷ "RUNNER_PROTOCOL_INVALID" ∷ "SIGNAL_AFTER_LIFECYCLE"
    ∷ "WORKER_SIGNAL" ∷ "RUNNER_EXIT_UNEXPECTED" ∷ "RUNNER_EVENT_REJECTED" ∷ []

abbrev allowed_code : Value → Bool
allowed_code null = true
allowed_code (str s) = one_of allowed_codes s
allowed_code _ = false

abbrev keyed_items : Value → List String → Bool
keyed_items (arr vs) ks = all (λ v. keyed v ks) (items vs)
keyed_items _ ks = false

abbrev runner_shaped : Value → Bool
runner_shaped v =
    keyed v ("backend_observation" ∷ "phases" ∷ "result" ∷ "termination" ∷ [])
    && keyed_items (at v "phases") ("duration_ms" ∷ "name" ∷ "status" ∷ [])
    && keyed (at v "backend_observation") ("backend" ∷ "method" ∷ "status" ∷ [])
    && keyed (at v "termination") ("exit_code" ∷ "kind" ∷ "last_completed_phase" ∷ "signal" ∷ [])
    && keyed (at v "result") ("completion_observed" ∷ "failure" ∷ "workload_status" ∷ [])
    && keyed (at (at v "result") "failure")
        ("category" ∷ "code" ∷ "phase" ∷ "sanitized_excerpt" ∷ [])

abbrev runner_consistent : Value → Bool
runner_consistent v =
    let o = at v "backend_observation" in
    let k = at (at v "termination") "kind" in
    (if is_text (at o "status") "observed"
      then is_text (at o "method") "runner-event"
      else is_text (at o "method") "unavailable")
    && not (is_text k "not-started")
    && not (is_text k "spawn-error")

abbrev clean : Option ℕ → Bool
clean none = false
clean (some n) = n == 0

unfoldable pub snapshot_runner : (Value → Option ℕ) → Value → Option Value
snapshot_runner scan v =
    let f = at (at v "result") "failure" in
    if runner_shaped v
      && clean (scan v)
      && runner_consistent v
      && is_null (at f "sanitized_excerpt")
      && allowed_code (at f "code")
    then some v
    else none

-- `parseResolved`, `parseDoctorOutcome` and `parseWorkload`: `failed` and `preflight-failed` read
-- alike, and so does an answer that is neither.
pub data Answer : Type 0 where
  good : Value → Answer
  refused : Answer
  aborted : Answer
  invalid : Answer

abbrev ended : Value → String → Answer → Answer
ended v status rest =
    if is_text (at v "status") status
    then (if keyed v ("status" ∷ []) then refused else invalid)
    else if is_text (at v "status") "aborted"
    then (if keyed v ("status" ∷ []) then aborted else invalid)
    else rest

abbrev or_invalid : Option Value → Answer
or_invalid none = invalid
or_invalid (some v) = good v

unfoldable pub parse_resolved : Value → Answer
unfolding snapshot_resolved_qvac
parse_resolved v = ended v "failed" (
    if is_text (at v "status") "resolved" && keyed v ("qvac" ∷ "status" ∷ [])
    then or_invalid (snapshot_resolved_qvac (at v "qvac"))
    else invalid)

unfoldable pub parse_doctor_outcome : Value → Answer
unfolding snapshot_doctor
parse_doctor_outcome v = ended v "preflight-failed" (
    if is_text (at v "status") "completed" && keyed v ("doctor" ∷ "status" ∷ [])
    then good (snapshot_doctor (at v "doctor"))
    else invalid)

unfoldable pub parse_workload : (Value → Option ℕ) → Value → Answer
unfolding snapshot_runner
parse_workload scan v = ended v "preflight-failed" (
    if is_text (at v "status") "executed" && keyed v ("runner" ∷ "status" ∷ [])
    then or_invalid (snapshot_runner scan (at v "runner"))
    else invalid)

-- `parseWriteOutcome`; null is `unclear`, which the pipeline reads as an uncertain cleanup.
pub data WriteStatus : Type 0 where
  written write_failed cleanup_uncertain unclear : WriteStatus

unfoldable pub parse_write_outcome : Value → WriteStatus
parse_write_outcome v =
    if not (keyed v ("status" ∷ []))
    then unclear
    else if is_text (at v "status") "written"
    then written
    else if is_text (at v "status") "write-failed"
    then write_failed
    else if is_text (at v "status") "cleanup-uncertain"
    then cleanup_uncertain
    else unclear
