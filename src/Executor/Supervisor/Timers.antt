-- ===== src/Executor/Supervisor/Timers.antt =====
-- A supervised child is never left without a timer that will end its run.
use qvac_atlas.Base.{
  ℕ, ◌+◌, ◌==◌, ◌&&◌, if◌then◌else◌, ◌≡◌, refl, Bool, true, false, Option, none, some, List, [],
  ◌∷◌, ◌||◌, not, arith, Bool-cases, inl, inr, String,
}
use qvac_atlas.Json.{Value}
use qvac_atlas.Executor.Protocol.{ChildEvent, sequence_of, parse_child_event}
use qvac_atlas.Executor.Lifecycle.{Lifecycle, is_none, advance}
use qvac_atlas.Executor.Supervisor.{
  Supervisor, Limits, Input, attaches, message, overall_fires, phase_fires, kill_fires,
  settle_fires, exits, child_error, aborts, disposes, new, step, steps, finalize, on_message,
  attach, protocol_failure, on_timeout, arm_phase_timer, rearm, accept, on_event, on_sized, on_open,
  over_limits, ignores, keep_or, abort, phase_timeout, dispose_after_launch_failure,
}

-- The run has ended, or a timer of the cleanup is armed.
abbrev pub winding_up : Supervisor → Bool
winding_up s = s.kill_timer || s.settle_timer || s.finalized || s.disposed

pub record IsGuarded (s : Supervisor) : Type 0 where
  pub stopping : s.terminating ≡ true → winding_up s ≡ true
  pub overridden : is_none s.interruption.override ≡ false → s.terminating ≡ true
  pub attended : s.attached ≡ true → (s.overall_timer || winding_up s) ≡ true

new-IsGuarded : IsGuarded new
unfolding new
new-IsGuarded = ground arith

protocol_failure-IsGuarded : (s : Supervisor) → IsGuarded s → IsGuarded (protocol_failure s)
unfolding protocol_failure
protocol_failure-IsGuarded s h = ground arith

on_timeout-IsGuarded : (s : Supervisor) → IsGuarded s → IsGuarded (on_timeout s)
unfolding on_timeout
on_timeout-IsGuarded s h = ground arith

rearm-IsGuarded :
    (limits : Limits) (e : ChildEvent) (s : Supervisor) → IsGuarded s → IsGuarded (rearm limits e s)
unfolding arm_phase_timer
rearm-IsGuarded limits e s h = ground arith

finalize-IsGuarded :
    (code : Option ℕ) (signal : Option String) (swept : Bool) (now : ℕ) (s : Supervisor)
    → IsGuarded s
    → IsGuarded (finalize code signal swept now s)
unfolding finalize
finalize-IsGuarded code signal swept now s h = ground arith

-- Fields that the timers' invariant does not read.
moved :
    (s : Supervisor) (l : Lifecycle) (n c b : ℕ)
    → IsGuarded s
    → IsGuarded
        (record s { lifecycle = l; next_sequence = n; event_count = c; aggregate_event_bytes = b })
moved s l n c b h = record {
  stopping = h.stopping;
  overridden = h.overridden;
  attended = h.attended;
}

module _ (limits : Limits) (now : ℕ) where
  accept-IsGuarded :
      (e : ChildEvent) (s : Supervisor) (o : Option Lifecycle)
      → IsGuarded s
      → IsGuarded (accept limits e s o)
  accept-IsGuarded e s none h = protocol_failure-IsGuarded s h
  accept-IsGuarded e s (some l) h =
      rearm-IsGuarded limits e _ (moved s l s.next_sequence s.event_count s.aggregate_event_bytes h)

  on_event-IsGuarded :
      (o : Option ChildEvent) (s : Supervisor) → IsGuarded s → IsGuarded (on_event limits now o s)
  unfolding on_event
  on_event-IsGuarded none s h = protocol_failure-IsGuarded s h
  on_event-IsGuarded (some e) s h = elim (Bool-cases (sequence_of e == s.next_sequence)) [
    | inl same ↦ rw same (
        accept-IsGuarded e _ (advance e now s.lifecycle)
          (moved s s.lifecycle (s.next_sequence + 1) s.event_count s.aggregate_event_bytes h))
    | inr other ↦ rw other (protocol_failure-IsGuarded s h)
  ]

  on_sized-IsGuarded :
      (o : Option ChildEvent) (bytes : Option ℕ) (s : Supervisor)
      → IsGuarded s
      → IsGuarded (on_sized limits now o bytes s)
  unfolding on_sized
  on_sized-IsGuarded o none s h = protocol_failure-IsGuarded s h
  on_sized-IsGuarded o (some b) s h =
      let t : Supervisor = record s {
        event_count = s.event_count + 1;
        aggregate_event_bytes = s.aggregate_event_bytes + b;
      } in
      let k : IsGuarded t =
        moved s s.lifecycle s.next_sequence (s.event_count + 1) (s.aggregate_event_bytes + b) h in
      elim (Bool-cases (over_limits limits b t)) [
        | inl over ↦ rw over (protocol_failure-IsGuarded t k)
        | inr fits ↦ rw fits (on_event-IsGuarded o t k)
      ]

  on_open-IsGuarded :
      (v : Value) (bytes : Option ℕ) (b : Bool) (s : Supervisor)
      → IsGuarded s
      → IsGuarded (on_open limits now v bytes b s)
  unfolding on_open
  on_open-IsGuarded v bytes true s h = protocol_failure-IsGuarded s h
  on_open-IsGuarded v bytes false s h = on_sized-IsGuarded (parse_child_event v) bytes s h

  on_message-IsGuarded :
      (v : Value) (bytes : Option ℕ) (s : Supervisor)
      → IsGuarded s
      → IsGuarded (on_message limits now v bytes s)
  unfolding on_message
  on_message-IsGuarded v bytes s h = elim (Bool-cases (ignores s)) [
    | inl i ↦ rw i h
    | inr o ↦ rw o (on_open-IsGuarded v bytes s.lifecycle.lifecycle_terminal s h)
  ]

attach-IsGuarded :
    (limits : Limits) (usable : Bool) (now : ℕ) (s : Supervisor)
    → IsGuarded s
    → IsGuarded (keep_or s (attach limits usable now s))
unfolding attach
attach-IsGuarded limits usable now s h = ground arith

abort-IsGuarded : (s : Supervisor) → IsGuarded s → IsGuarded (abort s)
unfolding abort
abort-IsGuarded s h = ground arith

if-IsGuarded :
    (b : Bool) (s t : Supervisor)
    → IsGuarded s
    → (b ≡ true → IsGuarded t)
    → IsGuarded (if b then t else s)
if-IsGuarded true s t h k = k refl
if-IsGuarded false s t h k = h

-- `#timeout` after a timer has fired: it starts a cleanup, or one is under way.
overall_fires-IsGuarded :
    (s : Supervisor) → IsGuarded s → IsGuarded (on_timeout (record s { overall_timer = false }))
unfolding on_timeout
overall_fires-IsGuarded s h = ground arith

phase_fires-IsGuarded :
    (s : Supervisor) (o : Option ℕ) → IsGuarded s → IsGuarded (phase_timeout s o)
unfolding on_timeout
phase_fires-IsGuarded s none h = h
phase_fires-IsGuarded s (some ms) h = ground arith

settle_fires-IsGuarded :
    (swept : Bool) (now : ℕ) (s : Supervisor)
    → IsGuarded s
    → IsGuarded (finalize none none swept now (record s { settle_timer = false }))
unfolding finalize
settle_fires-IsGuarded swept now s h = ground arith

step-IsGuarded :
    (limits : Limits) (s : Supervisor) (i : Input) → IsGuarded s → IsGuarded (step limits s i)
unfolding step dispose_after_launch_failure
step-IsGuarded limits s (attaches usable now) h = attach-IsGuarded limits usable now s h
step-IsGuarded limits s (message v bytes now) h =
    if-IsGuarded s.attached s _ h (λ _. on_message-IsGuarded limits now v bytes s h)
step-IsGuarded limits s overall_fires h =
    if-IsGuarded s.overall_timer s _ h (λ _. overall_fires-IsGuarded s h)
step-IsGuarded limits s phase_fires h = phase_fires-IsGuarded s s.phase_timer h
step-IsGuarded limits s kill_fires h = ground arith
step-IsGuarded limits s (settle_fires swept now) h =
    if-IsGuarded s.settle_timer s _ h (λ _. settle_fires-IsGuarded swept now s h)
step-IsGuarded limits s (exits code signal swept now) h =
    if-IsGuarded s.attached s _ h (λ _. finalize-IsGuarded code signal swept now s h)
step-IsGuarded limits s (child_error spawned swept now) h =
    if-IsGuarded (s.attached && not spawned) s _ h (λ _. finalize-IsGuarded none none swept now s h)
step-IsGuarded limits s aborts h = abort-IsGuarded s h
step-IsGuarded limits s disposes h = ground arith

steps-IsGuarded :
    (limits : Limits) (s : Supervisor) (is : List Input)
    → IsGuarded s
    → IsGuarded (steps limits s is)
unfolding steps
steps-IsGuarded limits s [] h = h
steps-IsGuarded limits s (i ∷ is) h =
    steps-IsGuarded limits (step limits s i) is (step-IsGuarded limits s i h)

-- At any moment of a supervision whose child is attached, the run is finalized, the supervisor was
-- disposed of, or the overall timer, the kill timer or the settle timer is armed.
pub always_attended :
    (limits : Limits) (is : List Input)
    → (steps limits new is).attached ≡ true
    → ((steps limits new is).overall_timer || winding_up (steps limits new is)) ≡ true
always_attended limits is h = (steps-IsGuarded limits new is new-IsGuarded).attended h

-- While a cleanup is under way, the kill timer or the settle timer is armed, until the run is
-- finalized or the supervisor disposed of: no cleanup waits for the child alone.
pub cleanup_attended :
    (limits : Limits) (is : List Input)
    → (steps limits new is).terminating ≡ true
    → winding_up (steps limits new is) ≡ true
cleanup_attended limits is h = (steps-IsGuarded limits new is new-IsGuarded).stopping h
