-- ===== src/Executor/Report/Encode.antt =====
-- The objects that stand for a `ProbeEvent` in the source, as the adapter receives them.
use qvac_atlas.Base.{ℕ, String, Bool, Option, none, some, [], ◌∷◌}
use qvac_atlas.Json.{Value, num, null, str, bool, obj, Fields, fields}
use qvac_atlas.Executor.Phase.{LifecyclePhase, label}
use qvac_atlas.Executor.Protocol.{Backend, cpu, gpu}
use qvac_atlas.Executor.Lifecycle.{PhaseStatus, passed, failed, unknown, skipped}
use qvac_atlas.Executor.Events.{
  ProbeEvent, phase, backend, termination, result, TerminationKind, Category, Failure,
}

abbrev pub number_or_null : Option ℕ → Value
number_or_null none = null
number_or_null (some n) = num n

abbrev pub text_or_null : Option String → Value
text_or_null none = null
text_or_null (some s) = str s

abbrev pub phase_or_null : Option LifecyclePhase → Value
phase_or_null none = null
phase_or_null (some p) = str (label p)

abbrev pub status_label : PhaseStatus → String
status_label passed = "passed"
status_label failed = "failed"
status_label unknown = "unknown"
status_label skipped = "skipped"

abbrev pub backend_label : Backend → String
backend_label cpu = "cpu"
backend_label gpu = "gpu"

abbrev pub kind_label : TerminationKind → String
kind_label TerminationKind.clean_exit = "clean-exit"
kind_label TerminationKind.exit_code = "exit-code"
kind_label TerminationKind.signal = "signal"
kind_label TerminationKind.timeout = "timeout"
kind_label TerminationKind.spawn_error = "spawn-error"
kind_label TerminationKind.not_started = "not-started"
kind_label TerminationKind.unknown = "unknown"

abbrev pub category_label : Category → String
category_label Category.none = "none"
category_label Category.native_runtime = "native-runtime"
category_label Category.worker_crash = "worker-crash"
category_label Category.timeout = "timeout"
category_label Category.workload_failed = "workload-failed"
category_label Category.spawn_error = "spawn-error"
category_label Category.unknown = "unknown"

abbrev pub failure_fields : Failure → Fields
failure_fields f = fields (
    ("category", str (category_label f.category))
    ∷ ("phase", phase_or_null f.phase)
    ∷ ("code", text_or_null f.code)
    ∷ ("sanitized_excerpt", null)
    ∷ [])

abbrev pub phase_fields : LifecyclePhase → PhaseStatus → Option ℕ → Fields
phase_fields p w d = fields (
    ("type", str "phase")
    ∷ ("name", str (label p))
    ∷ ("status", str (status_label w))
    ∷ ("duration_ms", number_or_null d)
    ∷ [])

abbrev pub backend_fields : Backend → Fields
backend_fields b = fields (("type", str "backend") ∷ ("backend", str (backend_label b)) ∷ [])

abbrev pub termination_fields :
    TerminationKind → Option ℕ → Option String → Option LifecyclePhase → Fields
termination_fields k c s p = fields (
    ("type", str "termination")
    ∷ ("kind", str (kind_label k))
    ∷ ("exit_code", number_or_null c)
    ∷ ("signal", text_or_null s)
    ∷ ("last_completed_phase", phase_or_null p)
    ∷ [])

abbrev pub result_fields : PhaseStatus → Bool → Failure → Fields
result_fields w c f = fields (
    ("type", str "result")
    ∷ ("workload_status", str (status_label w))
    ∷ ("completion_observed", bool c)
    ∷ ("failure", obj (failure_fields f))
    ∷ [])

unfoldable pub encode : ProbeEvent → Value
encode (phase e) = obj (phase_fields e.name e.status e.duration_ms)
encode (backend b) = obj (backend_fields b)
encode (termination k c s p) = obj (termination_fields k c s p)
encode (result w c f) = obj (result_fields w c f)
