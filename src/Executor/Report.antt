-- ===== src/Executor/Report.antt =====
-- packages/qvac-executor/src/supervisor.ts: `ProbeEvent`, and how a supervision that has ended is
-- reported: `#ensureTerminalPhase`, `#lastCompletedPhase`, `#reportedPhases`, `#buildEvents`.
pub mod Encode
pub mod Shape
use qvac_atlas.Base.{
  ℕ, String, Bool, true, false, Option, none, some, List, [], ◌∷◌, ◌++◌, ◌&&◌, ◌||◌, ◌==◌, ◌=ₜ◌,
  not, max, if◌then◌else◌, any, all, keep, leb, one_of,
}
use qvac_atlas.Executor.Phase.{
  LifecyclePhase, qvac_import, worker_start, model_load, clean_shutdown, lifecycle_phases, index_of,
  same_phase, is_phase,
}
use qvac_atlas.Executor.Phase
use qvac_atlas.Executor.Protocol.{Backend}
use qvac_atlas.Executor.Lifecycle.{
  Lifecycle, PhaseEvent, PhaseStatus, passed, failed, unknown, elapsed, is_none, or_else,
  or_default, current_phase, recorded,
}
use qvac_atlas.Executor.Events.{
  ProbeEvent, phase, backend, termination, result, TerminationKind, Category, Failure,
}

pub data Override : Type 0 where
  timeout protocol : Override

-- How the supervision was cut short, if it was.
pub record Interruption : Type 0 where
  pub override : Option Override
  pub timeout_phase : Option LifecyclePhase
  pub timeout_after_failure : Bool
  pub protocol_phase : Option LifecyclePhase

-- How the child ended: `code` and `signal` of the exit event, and the time of the report.
pub record Exit : Type 0 where
  pub code : Option ℕ
  pub signal : Option String
  pub attached_at : ℕ
  pub now : ℕ

abbrev pub known_signals : List String
known_signals = "SIGABRT" ∷ "SIGBUS" ∷ "SIGILL" ∷ "SIGKILL" ∷ "SIGSEGV" ∷ "SIGTERM" ∷ []

-- `normalizedSignal`.
unfoldable pub normalized_signal : Option String → Option String
normalized_signal none = none
normalized_signal (some s) = some (if one_of known_signals s then s else "UNKNOWN")

unfoldable pub timeout_code : LifecyclePhase → String
timeout_code qvac_import = "QVAC_IMPORT_TIMEOUT"
timeout_code worker_start = "WORKER_START_TIMEOUT"
timeout_code model_load = "MODEL_LOAD_TIMEOUT"
timeout_code Phase.inference = "INFERENCE_TIMEOUT"
timeout_code clean_shutdown = "CLEAN_SHUTDOWN_TIMEOUT"

unfoldable pub failure_code : LifecyclePhase → String
failure_code qvac_import = "QVAC_IMPORT_FAILED"
failure_code worker_start = "WORKER_START_FAILED"
failure_code model_load = "MODEL_LOAD_FAILED"
failure_code Phase.inference = "INFERENCE_FAILED"
failure_code clean_shutdown = "CLEAN_SHUTDOWN_FAILED"

-- `notStartedEvents`.
unfoldable pub not_started_events : String → List ProbeEvent
not_started_events code =
    phase (record { name = qvac_import; status = PhaseStatus.skipped; duration_ms = none })
    ∷ termination TerminationKind.spawn_error none none none
    ∷ result PhaseStatus.unknown false
        (record { category = Category.spawn_error; phase = some qvac_import; code = some code })
    ∷ []

abbrev pub is_zero : Option ℕ → Bool
is_zero none = false
is_zero (some n) = n == 0

abbrev with_phase : LifecyclePhase → PhaseStatus → Option ℕ → Lifecycle → Lifecycle
with_phase p s d l = record l {
  phases = l.phases ++ record { name = p; status = s; duration_ms = d } ∷ [];
}

abbrev unless_recorded : LifecyclePhase → Lifecycle → Lifecycle
unless_recorded p l = if recorded p l.phases then l else with_phase p unknown none l

-- The phase that a failed or unfinished run is put down to.
abbrev failure_phase : Interruption → Lifecycle → LifecyclePhase
failure_phase i l = or_default i.timeout_phase (current_phase l clean_shutdown)

-- A clean root exit is not evidence that the unfinished phase failed.
abbrev left_open : Interruption → Exit → Lifecycle → Bool
left_open i x l =
    is_zero x.code
    && is_none x.signal
    && is_none i.override
    && not l.lifecycle_terminal
    && is_none l.first_failure

-- The end of a run that no protocol failure cut short.
abbrev ended : Interruption → Exit → Lifecycle → LifecyclePhase → Lifecycle
ended i x l p =
    if left_open i x l
    then unless_recorded p l
    else if not (recorded p l.phases) && is_none l.first_failure
    then (let d =
          if is_phase l.open_phase p
          then elapsed x.now l.open_phase_started_at
          else elapsed x.now x.attached_at in
        record l {
          phases =
              l.phases
              ++ record { name = p; status = PhaseStatus.failed; duration_ms = some d } ∷ [];
          first_failure = some p;
        })
    else l

-- `#ensureTerminalPhase`.
abbrev at_end : Option Override → Interruption → Exit → Lifecycle → Lifecycle
at_end (some protocol) i x l =
    unless_recorded (or_default (or_else i.protocol_phase l.open_phase) qvac_import) l
at_end (some timeout) i x l = ended i x l (failure_phase i l)
at_end none i x l = ended i x l (failure_phase i l)

unfoldable pub ensure_terminal_phase : Interruption → Exit → Lifecycle → Lifecycle
unfolding current_phase elapsed
ensure_terminal_phase i x l = at_end i.override i x l

abbrev pub is_passed : PhaseStatus → Bool
is_passed passed = true
is_passed _ = false

abbrev pub is_failed : PhaseStatus → Bool
is_failed failed = true
is_failed _ = false

abbrev pub has_passed : List PhaseEvent → LifecyclePhase → Bool
has_passed es p = any (λ e. same_phase e.name p && is_passed e.status) es

-- `phases.find(({ name }) => name === phase)?.status === "passed"`.
abbrev first_passed : LifecyclePhase → List PhaseEvent → Bool
first_passed p [] = false
first_passed p (e ∷ es) = if same_phase e.name p then is_passed e.status else first_passed p es

-- The loop of `#lastCompletedPhase`, with its `break`.
abbrev last_from :
    Option LifecyclePhase → List LifecyclePhase → List PhaseEvent → Option LifecyclePhase
last_from last [] es = last
last_from last (p ∷ ps) es =
    let rest = last_from (some p) ps es in if first_passed p es then rest else last

unfoldable pub last_completed_phase : List PhaseEvent → Option LifecyclePhase
last_completed_phase es = last_from none lifecycle_phases es

-- `#reportedPhases`.
unfoldable pub reported_phases : Lifecycle → List PhaseEvent
reported_phases l = elim l.first_failure [
  | none ↦ l.phases
  | some f ↦ keep (λ e. leb (index_of e.name) (index_of f)) l.phases
]

unfoldable pub all_passed : Lifecycle → Bool
all_passed l = is_none l.first_failure && all (has_passed l.phases) lifecycle_phases

-- A termination event from a clean kind, its exit code and its signal.
abbrev pub ending : TerminationKind → Option ℕ → Option String → Lifecycle → ProbeEvent
ending k c s l = termination k c s (last_completed_phase l.phases)

-- The event for an exit that nothing interrupted; an exit code is a natural number here, so
-- `Math.max(0, code)` is the code itself.
abbrev pub exit_termination : Option ℕ → Option String → Lifecycle → ProbeEvent
exit_termination c (some s) l = ending TerminationKind.signal none (normalized_signal (some s)) l
exit_termination (some c) none l =
    if c == 0
    then ending TerminationKind.clean_exit (some 0) none l
    else ending TerminationKind.exit_code (some (max 0 c)) none l
exit_termination none none l = ending TerminationKind.unknown none none l

abbrev pub termination_by : Option Override → Exit → Lifecycle → ProbeEvent
termination_by (some timeout) x l = ending TerminationKind.timeout none none l
termination_by (some protocol) x l = ending TerminationKind.unknown none none l
termination_by none x l = exit_termination x.code x.signal l

unfoldable pub termination_event : Interruption → Exit → Lifecycle → ProbeEvent
unfolding last_completed_phase normalized_signal
termination_event i x l = termination_by i.override x l

abbrev pub outcome : PhaseStatus → Category → Option LifecyclePhase → String → ProbeEvent
outcome s k p c = result s false (record { category = k; phase = p; code = some c })

abbrev pub timeout_result : Interruption → Lifecycle → ProbeEvent
timeout_result i l =
    if i.timeout_after_failure
    then outcome unknown Category.unknown l.first_failure "CLEANUP_TIMEOUT_AFTER_FAILURE"
    else if all_passed l
    then outcome unknown Category.unknown (some clean_shutdown) "TIMEOUT_AFTER_LIFECYCLE"
    else outcome PhaseStatus.failed Category.timeout (some (or_default i.timeout_phase qvac_import))
        (timeout_code (or_default i.timeout_phase qvac_import))

abbrev pub protocol_result : Interruption → Lifecycle → ProbeEvent
protocol_result i l =
    outcome unknown Category.unknown
      (some (or_default (or_else i.protocol_phase l.open_phase) qvac_import))
      "RUNNER_PROTOCOL_INVALID"

abbrev pub signal_result : Option LifecyclePhase → ProbeEvent
signal_result none = outcome unknown Category.unknown (some clean_shutdown) "SIGNAL_AFTER_LIFECYCLE"
signal_result (some p) = outcome PhaseStatus.failed Category.worker_crash (some p) "WORKER_SIGNAL"

abbrev pub failed_result : LifecyclePhase → ProbeEvent
failed_result p =
    outcome PhaseStatus.failed
      (if same_phase p qvac_import then Category.native_runtime else Category.workload_failed)
      (some p) (failure_code p)

abbrev pub uninterrupted_result : Option LifecyclePhase → Lifecycle → ProbeEvent
uninterrupted_result (some p) l = failed_result p
uninterrupted_result none l =
    outcome unknown Category.unknown (some (current_phase l qvac_import)) "RUNNER_EXIT_UNEXPECTED"

-- The result of an exit that nothing interrupted and that was no full pass.
abbrev pub exit_result : Exit → Lifecycle → ProbeEvent
exit_result x l =
    if not (is_none x.signal)
    then signal_result (or_else l.first_failure l.open_phase)
    else if is_zero x.code && is_phase l.first_failure qvac_import
    then outcome unknown Category.unknown l.first_failure "RUNNER_EXIT_UNEXPECTED"
    else uninterrupted_result l.first_failure l

abbrev pub result_by : Option Override → Interruption → Exit → Lifecycle → ProbeEvent
result_by (some timeout) i x l = timeout_result i l
result_by (some protocol) i x l = protocol_result i l
result_by none i x l = exit_result x l

unfoldable pub result_event : Interruption → Exit → Lifecycle → ProbeEvent
unfolding all_passed timeout_code failure_code current_phase
result_event i x l =
    if all_passed l && is_zero x.code && is_none i.override
    then result passed true (record { category = Category.none; phase = none; code = none })
    else result_by i.override i x l

abbrev pub inference_attempted : List PhaseEvent → Bool
inference_attempted es =
    any (λ e. same_phase e.name Phase.inference && (is_passed e.status || is_failed e.status)) es

abbrev pub phase_events : List PhaseEvent → List ProbeEvent
phase_events [] = []
phase_events (e ∷ es) = phase e ∷ phase_events es

abbrev pub backend_events : Option Backend → Bool → List ProbeEvent
backend_events none attempted = []
backend_events (some b) attempted = if attempted then backend b ∷ [] else []

-- `#buildEvents`.
unfoldable pub build_events : Interruption → Exit → Lifecycle → List ProbeEvent
unfolding termination_event result_event reported_phases
build_events i x l =
    phase_events (reported_phases l)
    ++ (backend_events l.backend (inference_attempted (reported_phases l))
        ++ termination_event i x l ∷ result_event i x l ∷ [])
