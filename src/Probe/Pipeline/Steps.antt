-- ===== src/Probe/Pipeline/Steps.antt =====
-- packages/probe/src/real-pipeline.ts: `runRealProbePipeline`, from its first call to its last, one
-- function for each group of calls. The guard on the type of `options.signal` is the parameter type.
use qvac_atlas.Base.{String, Bool, true, false, Option, none, some, if◌then◌else◌}
use qvac_atlas.Json.{Value, bool, null}
use qvac_atlas.Probe.Report.{
  Input, assemble_probe_report, with_probe_publication, serialize_report, is_publishable,
}
use qvac_atlas.Probe.Stages.{Machine, advance}
use qvac_atlas.Probe.Pipeline.Snapshots.{
  Answer, good, invalid, parse_resolved, parse_doctor_outcome, parse_workload, parse_write_outcome,
  WriteStatus,
}
use qvac_atlas.Probe.Pipeline.Session.{
  preflight, disclose_privacy, decide_fingerprint, resolve, disclose_project_code,
  decide_project_code, run_doctor, disclose_workload, decide_workload, run_workload, preview_draft,
  preview_final, choose_publication, confirm_local_write, write_exclusive, Reply, value, throws,
  Outside, Run, previewed_not_written, written, raised, Step, go, done, Part, ◌>>=◌, ◌>>◌, stop,
  succeed, is_aborted, reach, ask, guarded, coordinator_boundary, decided, check_signal, aborted,
  preflight_failed, write_failed, cleanup_uncertain, refused,
}

abbrev pub vacant : Value → Part (Unit {0})
vacant (bool true) = succeed tt
vacant _ = stop preflight_failed

abbrev pub collected : Option (Value × (Value × Value)) → Part (Value × (Value × Value))
collected none = stop preflight_failed
collected (some p) = succeed p

-- A status of the coordinator.
abbrev pub answered : Answer → Part Value
answered (good v) = succeed v
answered Answer.refused = stop preflight_failed
answered Answer.aborted = stop aborted
answered invalid = stop preflight_failed

unfoldable pub open_session : Outside → Part (Unit {0})
unfolding guarded reach
open_session w = do
  check_signal w
  v ← guarded w preflight
  vacant v
  reach "output-vacant"
  guarded w disclose_privacy
  reach "privacy-disclosed"
  d ← guarded w decide_fingerprint
  decided d
  reach "fingerprint-consented"

unfoldable pub resolve_project : Outside → Part Value
unfolding guarded reach coordinator_boundary parse_resolved
resolve_project w = do
  v ← coordinator_boundary w resolve
  qvac ← answered (parse_resolved v)
  check_signal w
  reach "project-resolved"
  guarded w disclose_project_code
  reach "project-code-disclosed"
  d ← guarded w decide_project_code
  decided d
  reach "project-code-consented"
  succeed qvac

unfoldable pub check_doctor : Outside → Part Value
unfolding reach coordinator_boundary parse_doctor_outcome
check_doctor w = do
  v ← coordinator_boundary w run_doctor
  doctor ← answered (parse_doctor_outcome v)
  check_signal w
  reach "doctor-complete"
  succeed doctor

unfoldable pub work : Outside → Part Value
unfolding guarded reach coordinator_boundary parse_workload
work w = do
  guarded w disclose_workload
  reach "workload-disclosed"
  d ← guarded w decide_workload
  decided d
  reach "workload-consented"
  v ← coordinator_boundary w run_workload
  runner ← answered (parse_workload w.schema.scan_privacy v)
  check_signal w
  reach "runtime-complete"
  succeed runner

-- A `try` block that ends in a stage: its exceptions stop the run.
abbrev pub try_moved : Run → Option Machine → Step (Unit {0})
try_moved r none = stop preflight_failed r
try_moved r (some m) = go tt (record r { machine = m })

abbrev pub try_reach : String → Part (Unit {0})
try_reach next r = try_moved r (advance next r.machine)

abbrev pub or_stop : Option Value → Part Value
or_stop none = stop preflight_failed
or_stop (some v) = succeed v

abbrev pub publishable : Outside → Value → Part (Unit {0})
publishable w report = if is_publishable w.schema report then succeed tt else stop preflight_failed

abbrev pub input_of : (Value × (Value × Value)) → Value → Value → Value → String → Input
input_of (platform, (version, counts)) qvac doctor runner at = record {
  created_at = at;
  publication = false;
  platform = platform;
  node_version = version;
  qvac = qvac;
  doctor = doctor;
  runner = runner;
  redaction_counts = counts;
}

unfoldable pub assembled_at : Outside → (String → Input) → Option String → Option Value
unfolding assemble_probe_report
assembled_at w i none = none
assembled_at w i (some at) = assemble_probe_report w.schema (i at)

unfoldable pub assemble_report : Outside → (String → Input) → Part Value
unfolding advance is_publishable assembled_at
assemble_report w i = do
  report ← or_stop (assembled_at w i w.now)
  try_reach "assembled"
  publishable w report
  try_reach "validated"
  succeed report

-- `guarded` around `preview(serializeReport(report), "draft")`.
unfoldable pub preview_of : Outside → Option String → Part Value
unfolding guarded
preview_of w (some json) = guarded w (preview_draft json)
preview_of w none = is_aborted w >>= λ b.
    if b
    then stop aborted
    else is_aborted w >>= λ c. if c then stop aborted else stop preflight_failed

abbrev pub chosen : Value → Part Bool
chosen (bool b) = succeed b
chosen null = stop refused
chosen _ = stop preflight_failed

unfoldable pub choose : Outside → Value → Part Bool
unfolding guarded reach serialize_report preview_of
choose w report = do
  preview_of w (serialize_report w.schema report)
  reach "draft-previewed"
  v ← guarded w choose_publication
  b ← chosen v
  reach "publication-chosen"
  succeed b

unfoldable pub publish : Outside → Value → Bool → Part Value
unfolding advance is_publishable with_probe_publication
publish w report b = do
  final ← or_stop (with_probe_publication w.schema report b)
  publishable w final
  try_reach "final-validated"
  succeed final

-- `serializeReport` outside a `try`.
abbrev pub or_raise : Option String → Part String
or_raise none r = done raised r
or_raise (some s) r = go s r

abbrev pub confirmed : Value → String → Value → Part (Unit {0})
confirmed report json (bool true) = succeed tt
confirmed report json (bool false) =
    λ r. done (previewed_not_written report json r.machine.history) r
confirmed report json _ = stop preflight_failed

unfoldable pub confirm : Outside → Value → Part String
unfolding guarded reach serialize_report
confirm w report = do
  json ← or_raise (serialize_report w.schema report)
  guarded w (preview_final json)
  reach "final-previewed"
  v ← guarded w confirm_local_write
  confirmed report json v
  reach "write-consented"
  succeed json

unfoldable pub settled_as : Value → String → WriteStatus → Part (Unit {0})
unfolding reach
settled_as report json WriteStatus.written = do
  reach "written"
  reach "complete"
  λ r. done (written report json r.machine.history) r
settled_as report json WriteStatus.write_failed = stop write_failed
settled_as report json _ = stop cleanup_uncertain

unfoldable pub settled : Value → String → Reply → Part (Unit {0})
unfolding parse_write_outcome settled_as
settled report json throws = stop cleanup_uncertain
settled report json (value v) = settled_as report json (parse_write_outcome v)

unfoldable pub write : Outside → Value → String → Part (Unit {0})
unfolding settled
write w report json = do
  check_signal w
  reply ← ask w (write_exclusive json)
  settled report json reply

unfoldable pub pipeline : Outside → Part (Unit {0})
unfolding open_session reach resolve_project check_doctor work assemble_report choose publish
    confirm write
pipeline w = do
  open_session w
  platform ← collected w.platform
  reach "collected"
  qvac ← resolve_project w
  doctor ← check_doctor w
  runner ← work w
  report ← assemble_report w (input_of platform qvac doctor runner)
  publication ← choose w report
  final ← publish w report publication
  json ← confirm w final
  write w final json
