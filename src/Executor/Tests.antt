-- ===== src/Executor/Tests.antt =====
-- Runs of the executor's parts at concrete inputs.
use qvac_atlas.Base.{
  ◌*◌, ◌=ₜ◌, ◌≤◌, ◌≡◌, refl, true, false, none, some, List, [], ◌∷◌, arith, length, ◌||◌,
}
use qvac_atlas.Json.{str, obj, bool, fields}
use qvac_atlas.Executor.Phase.{qvac_import, inference}
use qvac_atlas.Executor.Protocol.{phase, started, succeeded, failed, parse_child_event}
use qvac_atlas.Executor.Protocol.Laws.{parse_child_event-message_of, message_of}
use qvac_atlas.Executor.Lifecycle.{Lifecycle, fresh, advance, PhaseStatus}
use qvac_atlas.Executor.Lifecycle.Track.{running, At, fresh-At, advance-At}
use qvac_atlas.Executor.Events.{ProbeEvent, TerminationKind, Category}
use qvac_atlas.Executor.Tail.{append, last}
use qvac_atlas.Executor.Tail.Laws.{append_all, append_all_lem, concat}
use qvac_atlas.Executor.Supervisor.{
  Supervisor, default_executor_limits, Input, attaches, message, overall_fires, kill_fires, exits,
  aborts, new, step, steps, attach, on_message, finalize, resolved,
}
use qvac_atlas.Executor.Supervisor.Runs.{IsReport}
use qvac_atlas.Executor.Supervisor.Settled.{steps-IsReport}
use qvac_atlas.Executor.Supervisor.Timers.{always_attended, cleanup_attended, winding_up}
use qvac_atlas.Executor.Supervisor.Once.{steps-IsOver, IsOver}
use qvac_atlas.Executor.Child.{Surroundings, run_child}
use qvac_atlas.Executor.Child.Script.{IsScripted, run_child-IsScripted}
use qvac_atlas.Executor.Child.Watched.{IsJudged, run_child-IsJudged, whole_run}

-- A child whose SDK fails to import.
abbrev pub failed_import : List Input
failed_import =
    attaches true 0
    ∷ message (message_of (phase 0 qvac_import started)) (some 80) 1000
    ∷ message (message_of (phase 1 qvac_import failed)) (some 80) 21000
    ∷ exits (some 1) none true 30000
    ∷ []

abbrev pub failed_import_events : List ProbeEvent
failed_import_events =
    ProbeEvent.phase
      (record { name = qvac_import; status = PhaseStatus.failed; duration_ms = some 20 })
    ∷ ProbeEvent.termination TerminationKind.exit_code (some 1) none none
    ∷ ProbeEvent.result PhaseStatus.failed false (record {
      category = Category.native_runtime;
      phase = some qvac_import;
      code = some "QVAC_IMPORT_FAILED";
    })
    ∷ []

pub failed_import_test :
    (steps default_executor_limits new failed_import).completion ≡ resolved failed_import_events
unfolding steps new step attach on_message parse_child_event advance finalize
failed_import_test = refl

steps-IsReport_example : IsReport failed_import_events
steps-IsReport_example =
    steps-IsReport default_executor_limits failed_import failed_import_events
      (tt, (tt, (tt, (omega arith, tt)))) failed_import_test

abbrev timed_out : List Input
timed_out = attaches true 0 ∷ overall_fires ∷ kill_fires ∷ []

attached_test : (steps default_executor_limits new timed_out).attached ≡ true
unfolding steps new step attach
attached_test = refl

terminating_test : (steps default_executor_limits new timed_out).terminating ≡ true
unfolding steps new step attach
terminating_test = refl

always_attended_example :
    ((steps default_executor_limits new timed_out).overall_timer
      || winding_up (steps default_executor_limits new timed_out))
    ≡ true
always_attended_example = always_attended default_executor_limits timed_out attached_test

cleanup_attended_example : winding_up (steps default_executor_limits new timed_out) ≡ true
cleanup_attended_example = cleanup_attended default_executor_limits timed_out terminating_test

abbrev over : Supervisor
over = steps default_executor_limits new failed_import

over_finalized : over.finalized ≡ true
unfolding steps new step attach on_message parse_child_event advance finalize
over_finalized = refl

steps-IsOver_example :
    IsOver over (steps default_executor_limits over (aborts ∷ overall_fires ∷ []))
steps-IsOver_example =
    steps-IsOver default_executor_limits over (aborts ∷ overall_fires ∷ []) over_finalized

append_all_lem_example :
    (append_all 3 [] ((1 ∷ 2 ∷ []) ∷ (3 ∷ 4 ∷ []) ∷ [])
      ≡ last 3 (concat ((1 ∷ 2 ∷ []) ∷ (3 ∷ 4 ∷ []) ∷ [])))
    × (length (append_all 3 [] ((1 ∷ 2 ∷ []) ∷ (3 ∷ 4 ∷ []) ∷ [])) ≤ 3)
append_all_lem_example = append_all_lem 3 ((1 ∷ 2 ∷ []) ∷ (3 ∷ 4 ∷ []) ∷ [])

tail_test : append 3 (append 3 [] (1 ∷ 2 ∷ [])) (3 ∷ 4 ∷ []) ≡ 2 ∷ 3 ∷ 4 ∷ []
unfolding append
tail_test = refl

parse_child_event-message_of_example :
    parse_child_event (message_of (phase 3 inference succeeded))
    ≡ some (phase 3 inference succeeded)
parse_child_event-message_of_example =
    parse_child_event-message_of (phase 3 inference succeeded) (omega arith)

abbrev importing : Lifecycle
importing = record fresh { open_phase = some qvac_import; open_phase_started_at = 1000 }

importing_test : advance (phase 0 qvac_import started) 1000 fresh ≡ some importing
unfolding advance fresh
importing_test = refl

advance-At_example : At (running []) importing
unfolding fresh
advance-At_example =
    advance-At (phase 0 qvac_import started) 1000 fresh (running []) fresh-At refl importing_test

-- An SDK that answers with a model and a completion on the GPU.
abbrev working : Surroundings
working = record {
  sdk = true;
  artifact = some (record { engine = "llamacpp-completion"; canonical_path = "/models/m.gguf" });
  is_function = λ f n. true;
  heartbeats = true;
  is_valid = λ n. true;
  loaded = some (str "m1");
  info = λ m. some (
      obj (
        fields (
          ("modelId", str "m1")
          ∷ ("isDelegated", bool false)
          ∷ ("modelType", str "llamacpp-completion")
          ∷ ("path", str "/models/m.gguf")
          ∷ [])));
  completed = λ m. some (
      obj (
        fields (
          ("contentText", str "atlas")
          ∷ ("stats", obj (fields (("backendDevice", str "gpu") ∷ [])))
          ∷ [])));
  unloads = true;
  closes = true;
  is_blank = λ s. s =ₜ "";
  connected = λ n. true;
}

working_test : (run_child working).exit_code ≡ 0
unfolding run_child
working_test = refl

run_child-IsScripted_example : IsScripted working (run_child working)
run_child-IsScripted_example = run_child-IsScripted working (λ n. refl)

run_child-IsJudged_example : IsJudged (run_child working) true (
    steps default_executor_limits new
      (whole_run (λ n. 90) (λ n. 1000 * n) 0 20000 true (run_child working)))
run_child-IsJudged_example =
    run_child-IsJudged (λ n. 90) (λ n. 1000 * n) (λ n. omega arith) 0 20000 true working (λ n. refl)
