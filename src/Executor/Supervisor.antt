-- ===== src/Executor/Supervisor.antt =====
-- packages/qvac-executor/src/supervisor.ts: `ExecutorSupervisor`. A handler takes the state and
-- returns the new state. The runtime's part is an `Input`: the child's messages and exit, the
-- timers that fire, and what the final sweep of the process group finds.
-- The outputs kept in the two `BoundedTail`s are modelled in Tail.antt.
pub mod Runs
pub mod Settled
pub mod Invariant
pub mod Timers
pub mod Once
pub mod Followed
pub mod Delivered
use qvac_atlas.Base.{
  ℕ, ◌+◌, String, Bool, true, false, Option, none, some, List, [], ◌∷◌, ◌&&◌, ◌||◌, ◌==◌, not, ltb,
  if◌then◌else◌, get_elem?,
}
use qvac_atlas.Json.{Value}
use qvac_atlas.Executor.Phase.{
  LifecyclePhase, qvac_import, clean_shutdown, lifecycle_phases, same_phase,
}
use qvac_atlas.Executor.Protocol.{
  ChildEvent, phase, backend, sequence_of, started, parse_child_event,
}
use qvac_atlas.Executor.Lifecycle.{Lifecycle, fresh, advance, current_phase, is_none}
use qvac_atlas.Executor.Events.{ProbeEvent}
use qvac_atlas.Executor.Report.{
  Override, timeout, protocol, Interruption, Exit, ensure_terminal_phase, build_events,
}

pub record Limits : Type 0 where
  pub overall_ms : ℕ
  pub phase_ms : LifecyclePhase → ℕ
  pub max_events : ℕ
  pub max_event_bytes : ℕ
  pub max_aggregate_event_bytes : ℕ

abbrev default_phase_ms : LifecyclePhase → ℕ
default_phase_ms qvac_import = 15000
default_phase_ms LifecyclePhase.worker_start = 10000
default_phase_ms LifecyclePhase.model_load = 120000
default_phase_ms LifecyclePhase.inference = 30000
default_phase_ms clean_shutdown = 30000

abbrev pub default_executor_limits : Limits
default_executor_limits = record {
  overall_ms = 180000;
  phase_ms = default_phase_ms;
  max_events = 16;
  max_event_bytes = 4096;
  max_aggregate_event_bytes = 16384;
}

-- The promise of `wait()`.
pub data Completion : Type 0 where
  pending : Completion
  resolved : List ProbeEvent → Completion
  cleanup_failed : Completion

pub data GroupSignal : Type 0 where
  sigterm sigkill : GroupSignal

pub record Supervisor : Type 0 where
  pub lifecycle : Lifecycle
  pub attached : Bool  -- `#child !== undefined`
  pub attached_at : ℕ
  pub next_sequence : ℕ
  pub event_count : ℕ
  pub aggregate_event_bytes : ℕ
  pub interruption : Interruption
  pub terminating : Bool
  pub abort_requested : Bool
  pub finalized : Bool
  pub disposed : Bool
  pub overall_timer : Bool  -- armed
  pub phase_timer : Option ℕ  -- armed for so many milliseconds
  pub kill_timer : Bool
  pub settle_timer : Bool
  pub sent : List GroupSignal  -- to the process group, the latest first
  pub completion : Completion

unfoldable pub new : Supervisor
unfolding fresh
new = record {
  lifecycle = fresh;
  attached = false;
  attached_at = 0;
  next_sequence = 0;
  event_count = 0;
  aggregate_event_bytes = 0;
  interruption = record {
    override = none;
    timeout_phase = none;
    timeout_after_failure = false;
    protocol_phase = none;
  };
  terminating = false;
  abort_requested = false;
  finalized = false;
  disposed = false;
  overall_timer = false;
  phase_timer = none;
  kill_timer = false;
  settle_timer = false;
  sent = [];
  completion = pending;
}

-- `#terminate`.
terminate : Supervisor → Supervisor
terminate s = if s.terminating then s else record s {
  terminating = true;
  phase_timer = none;
  sent = sigterm ∷ s.sent;
  kill_timer = true;
}

abbrev armed_for : Limits → Option LifecyclePhase → Option ℕ
armed_for limits none = none
armed_for limits (some p) = some (limits.phase_ms p)

-- `#armPhaseTimer`.
arm_phase_timer : Limits → Supervisor → Supervisor
arm_phase_timer limits s = record s {
  phase_timer = armed_for limits (get_elem? lifecycle_phases s.lifecycle.expected_phase_index);
}

-- `#timeout`.
on_timeout : Supervisor → Supervisor
unfolding terminate current_phase
on_timeout s =
    if not (is_none s.interruption.override) || s.finalized
    then s
    else terminate (record s {
      interruption = record (s.interruption) {
        override = some timeout;
        timeout_after_failure = not (is_none s.lifecycle.first_failure);
        timeout_phase = some (current_phase s.lifecycle qvac_import);
      };
    })

-- `#protocolFailure`.
protocol_failure : Supervisor → Supervisor
unfolding terminate current_phase
protocol_failure s =
    if not (is_none s.interruption.override) || s.finalized
    then s
    else terminate (record s {
      interruption = record (s.interruption) {
        override = some protocol;
        protocol_phase = some (current_phase s.lifecycle qvac_import);
      };
    })

-- `attach`, with whether the child has a pid and both streams on a POSIX host; `none` is the throw.
unfoldable pub attach : Limits → Bool → ℕ → Supervisor → Option Supervisor
unfolding arm_phase_timer terminate
attach limits usable now s =
    if s.attached || not usable
    then none
    else (let t =
          arm_phase_timer limits
            (record s { attached = true; attached_at = now; overall_timer = true }) in
        some (if t.abort_requested then terminate t else t))

unfoldable pub abort : Supervisor → Supervisor
unfolding terminate
abort s =
    if s.finalized || s.disposed
    then s
    else if s.attached
    then terminate (record s { abort_requested = true })
    else record s { abort_requested = true }

-- `#clearTimers`.
abbrev clear_timers : Supervisor → Supervisor
clear_timers s = record s {
  overall_timer = false;
  phase_timer = none;
  kill_timer = false;
  settle_timer = false;
}

unfoldable pub dispose_after_launch_failure : Supervisor → Supervisor
dispose_after_launch_failure s = clear_timers (record s { disposed = true })

-- `#onMessage` from `parseChildEvent` on: the sequence, the phases, and then the phase timer.
abbrev rearm : Limits → ChildEvent → Supervisor → Supervisor
rearm limits (backend n b) s = s
rearm limits (phase n p started) s = arm_phase_timer limits s
rearm limits (phase n p _) s =
    if same_phase p clean_shutdown
    then record s { phase_timer = none }
    else arm_phase_timer limits s

abbrev accept : Limits → ChildEvent → Supervisor → Option Lifecycle → Supervisor
accept limits e s none = protocol_failure s
accept limits e s (some l) = rearm limits e (record s { lifecycle = l })

on_event : Limits → ℕ → Option ChildEvent → Supervisor → Supervisor
unfolding protocol_failure arm_phase_timer
on_event limits now none s = protocol_failure s
on_event limits now (some e) s =
    if sequence_of e == s.next_sequence
    then (let t = record s { next_sequence = s.next_sequence + 1 } in
        accept limits e t (advance e now t.lifecycle))
    else protocol_failure s

abbrev over_limits : Limits → ℕ → Supervisor → Bool
over_limits limits bytes t =
    ltb limits.max_events t.event_count
    || ltb limits.max_event_bytes bytes
    || ltb limits.max_aggregate_event_bytes t.aggregate_event_bytes

-- The size of a message; `none` where `JSON.stringify` raises.
on_sized : Limits → ℕ → Option ChildEvent → Option ℕ → Supervisor → Supervisor
unfolding on_event
on_sized limits now message none s = protocol_failure s
on_sized limits now message (some bytes) s =
    let t = record s {
      event_count = s.event_count + 1;
      aggregate_event_bytes = s.aggregate_event_bytes + bytes;
    } in
    if over_limits limits bytes t then protocol_failure t else on_event limits now message t

abbrev ignores : Supervisor → Bool
ignores s = s.finalized || s.disposed || not (is_none s.interruption.override)

on_open : Limits → ℕ → Value → Option ℕ → Bool → Supervisor → Supervisor
unfolding on_sized protocol_failure
on_open limits now v bytes true s = protocol_failure s
on_open limits now v bytes false s = on_sized limits now (parse_child_event v) bytes s

-- `#onMessage`; a message after the lifecycle's end is a protocol failure.
unfoldable pub on_message : Limits → ℕ → Value → Option ℕ → Supervisor → Supervisor
unfolding on_open
on_message limits now message bytes s =
    if ignores s then s else on_open limits now message bytes s.lifecycle.lifecycle_terminal s

-- `#finalize`, up to the settled promise. After `#finalized` is set no handler changes a field that
-- the report reads, so the sweep's wait is one step: `swept` says whether the group was gone.
end_run : Bool → Exit → Supervisor → Supervisor
unfolding ensure_terminal_phase build_events
end_run true x s =
    let l = ensure_terminal_phase s.interruption x s.lifecycle in
    record (clear_timers s) {
      finalized = true;
      sent = sigkill ∷ sigterm ∷ s.sent;
      lifecycle = l;
      completion = resolved (build_events s.interruption x l);
    }
end_run false x s = record (clear_timers s) {
  finalized = true;
  sent = sigkill ∷ sigterm ∷ s.sent;
  completion = cleanup_failed;
}

unfoldable pub finalize : Option ℕ → Option String → Bool → ℕ → Supervisor → Supervisor
unfolding end_run
finalize code signal swept now s =
    if s.finalized || s.disposed
    then s
    else end_run swept
        (record { code = code; signal = signal; attached_at = s.attached_at; now = now }) s

-- One call from the runtime. A timer that is not armed does not fire.
pub data Input : Type 0 where
  attaches : Bool → ℕ → Input
  message : Value → Option ℕ → ℕ → Input
  overall_fires : Input
  phase_fires : Input
  kill_fires : Input
  settle_fires : Bool → ℕ → Input
  exits : Option ℕ → Option String → Bool → ℕ → Input
  child_error : Bool → Bool → ℕ → Input
  aborts : Input
  disposes : Input

abbrev keep_or {ℓ} : {A : Type ℓ} → A → Option A → A
keep_or a none = a
keep_or a (some b) = b

abbrev phase_timeout : Supervisor → Option ℕ → Supervisor
phase_timeout s none = s
phase_timeout s (some ms) = on_timeout (record s { phase_timer = none })

unfoldable pub step : Limits → Supervisor → Input → Supervisor
unfolding on_timeout
step limits s (attaches usable now) = keep_or s (attach limits usable now s)
step limits s (message v bytes now) = if s.attached then on_message limits now v bytes s else s
step limits s overall_fires =
    if s.overall_timer then on_timeout (record s { overall_timer = false }) else s
step limits s phase_fires = phase_timeout s s.phase_timer
step limits s kill_fires =
    if s.kill_timer
    then record s { kill_timer = false; settle_timer = true; sent = sigkill ∷ s.sent }
    else s
step limits s (settle_fires swept now) =
    if s.settle_timer then finalize none none swept now (record s { settle_timer = false }) else s
step limits s (exits code signal swept now) =
    if s.attached then finalize code signal swept now s else s
step limits s (child_error spawned swept now) =
    if s.attached && not spawned then finalize none none swept now s else s
step limits s aborts = abort s
step limits s disposes = dispose_after_launch_failure s

unfoldable pub steps : Limits → Supervisor → List Input → Supervisor
steps limits s [] = s
steps limits s (i ∷ is) = steps limits (step limits s i) is
