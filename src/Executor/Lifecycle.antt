-- ===== src/Executor/Lifecycle.antt =====
-- packages/qvac-executor/src/supervisor.ts: the part of `ExecutorSupervisor` that follows the
-- child's events through the phases, and the events that it reports.
-- Times are microseconds of `performance.now()`; a duration is rounded to milliseconds.
pub mod Track
use qvac_atlas.Base.{
  ℕ, ◌+◌, ◌-◌, Bool, true, false, Option, none, some, List, [], ◌∷◌, ◌++◌, ◌&&◌, ◌||◌, not, min,
  if◌then◌else◌, any, get_elem?,
}
use Prim.Native.Nat.{◌/◌}
use qvac_atlas.Executor.Phase.{
  LifecyclePhase, clean_shutdown, inference, lifecycle_phases, same_phase, is_phase,
}
use qvac_atlas.Executor.Protocol.{Backend, ChildPhaseState, started, succeeded, ChildEvent, phase}
use qvac_atlas.Executor.Protocol

pub data PhaseStatus : Type 0 where
  passed failed unknown skipped : PhaseStatus

pub record PhaseEvent : Type 0 where
  pub name : LifecyclePhase
  pub status : PhaseStatus
  pub duration_ms : Option ℕ

-- The fields that `#onMessage` reads and writes once a message is accepted.
pub record Lifecycle : Type 0 where
  pub phases : List PhaseEvent
  pub expected_phase_index : ℕ
  pub open_phase : Option LifecyclePhase
  pub open_phase_started_at : ℕ
  pub first_failure : Option LifecyclePhase
  pub backend : Option Backend
  pub completion_observed : Bool
  pub lifecycle_terminal : Bool

unfoldable pub fresh : Lifecycle
fresh = record {
  phases = [];
  expected_phase_index = 0;
  open_phase = none;
  open_phase_started_at = 0;
  first_failure = none;
  backend = none;
  completion_observed = false;
  lifecycle_terminal = false;
}

-- `elapsed(startedAt)`: `Math.round` adds a half and rounds down.
unfoldable pub elapsed : ℕ → ℕ → ℕ
elapsed now started_at = min 3600000 ((now - started_at + 500) / 1000)

abbrev pub is_none {ℓ} : {A : Type ℓ} → Option A → Bool
is_none none = true
is_none (some a) = false

-- `LIFECYCLE_PHASES[expectedPhaseIndex] === phase`.
abbrev pub expected_is : Lifecycle → LifecyclePhase → Bool
expected_is l p = is_phase (get_elem? lifecycle_phases l.expected_phase_index) p

abbrev pub status_of : Bool → PhaseStatus
status_of true = passed
status_of false = failed

abbrev pub when {ℓ} : {A : Type ℓ} → Bool → A → Option A
when b a = if b then some a else none

on_backend : Backend → Lifecycle → Option Lifecycle
on_backend b l =
    when (is_phase l.open_phase inference && is_none l.backend) (record l { backend = some b })

on_started : LifecyclePhase → ℕ → Lifecycle → Option Lifecycle
on_started p now l =
    when (is_none l.open_phase && expected_is l p)
      (record l { open_phase = some p; open_phase_started_at = now })

-- The record that a finished phase appends, and the fields that it moves.
on_finished : LifecyclePhase → Bool → ℕ → Lifecycle → Option Lifecycle
unfolding elapsed
on_finished p ok now l =
    let done : PhaseEvent = record {
      name = p;
      status = status_of ok;
      duration_ms = some (elapsed now l.open_phase_started_at);
    } in
    let first = is_none l.first_failure in
    let shutdown = same_phase p clean_shutdown in
    when (is_phase l.open_phase p && expected_is l p) (record l {
      phases = l.phases ++ done ∷ [];
      open_phase = none;
      completion_observed = l.completion_observed || (same_phase p inference && ok);
      first_failure = if not ok && first then some p else l.first_failure;
      expected_phase_index =
          if not ok && first
          then 4
          else if shutdown
          then l.expected_phase_index
          else l.expected_phase_index + 1;
      lifecycle_terminal = l.lifecycle_terminal || shutdown;
    })

-- One accepted event; `none` is `#protocolFailure()`.
unfoldable pub advance : ChildEvent → ℕ → Lifecycle → Option Lifecycle
unfolding on_backend on_started on_finished
advance (Protocol.backend n b) now l = on_backend b l
advance (phase n p started) now l = on_started p now l
advance (phase n p succeeded) now l = on_finished p true now l
advance (phase n p ChildPhaseState.failed) now l = on_finished p false now l

abbrev pub or_else {ℓ} : {A : Type ℓ} → Option A → Option A → Option A
or_else none b = b
or_else (some a) b = some a

abbrev pub or_default {ℓ} : {A : Type ℓ} → Option A → A → A
or_default none d = d
or_default (some a) d = a

-- `openPhase ?? LIFECYCLE_PHASES[expectedPhaseIndex] ?? fallback`.
unfoldable pub current_phase : Lifecycle → LifecyclePhase → LifecyclePhase
current_phase l fallback =
    or_default (or_else l.open_phase (get_elem? lifecycle_phases l.expected_phase_index)) fallback

-- `phases.some(({ name }) => name === phase)`.
abbrev pub recorded : LifecyclePhase → List PhaseEvent → Bool
recorded p es = any (λ e. same_phase e.name p) es
