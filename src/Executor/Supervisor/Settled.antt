-- ===== src/Executor/Supervisor/Settled.antt =====
-- What a supervision resolves to, over every sequence of inputs.
use qvac_atlas.Base.{
  ℕ, ◌+◌, ◌==◌, ◌≡◌, refl, Bool, true, false, Option, none, some, List, [], ◌∷◌, arith, All,
  Bool-cases, ◌&&◌, not, if◌then◌else◌, inl, inr,
}
use qvac_atlas.Json.{Value}
use qvac_atlas.Executor.Protocol.{ChildEvent, sequence_of, parse_child_event}
use qvac_atlas.Executor.Lifecycle.{Lifecycle, advance}
use qvac_atlas.Executor.Events.{ProbeEvent}
use qvac_atlas.Executor.Supervisor.{
  protocol_failure, on_timeout, abort, on_event, on_sized, accept, rearm, arm_phase_timer,
  over_limits, ignores, on_open, keep_or, phase_timeout, dispose_after_launch_failure, Supervisor,
  Limits, resolved, Input, attaches, message, overall_fires, phase_fires, kill_fires, settle_fires,
  exits, child_error, aborts, disposes, new, step, steps, on_message, attach,
}
use qvac_atlas.Executor.Supervisor.Runs.{
  IsPlausible, IsReport, IsSupervised, new-IsSupervised, SameRun, SameRun-IsSupervised, Advanced,
  Advanced-IsSupervised, finalize-IsSupervised,
}

-- The parts of the handlers that leave the run as it is.
protocol_failure-SameRun : (s : Supervisor) → SameRun s (protocol_failure s)
unfolding protocol_failure
protocol_failure-SameRun s = ground arith

on_timeout-SameRun : (s : Supervisor) → SameRun s (on_timeout s)
unfolding on_timeout
on_timeout-SameRun s = ground arith

attach-SameRun :
    (limits : Limits) (usable : Bool) (now : ℕ) (s : Supervisor) {t : Supervisor}
    → attach limits usable now s ≡ some t
    → SameRun s t
unfolding attach
attach-SameRun limits usable now s e = ground arith

dispose-SameRun : (s : Supervisor) → SameRun s (dispose_after_launch_failure s)
unfolding dispose_after_launch_failure
dispose-SameRun s = record { lifecycle = refl; finalized = refl; completion = refl }

abort-SameRun : (s : Supervisor) → SameRun s (abort s)
unfolding abort
abort-SameRun s = ground arith

rearm-SameRun : (limits : Limits) (e : ChildEvent) (s : Supervisor) → SameRun s (rearm limits e s)
unfolding arm_phase_timer
rearm-SameRun limits e s = ground arith

-- A supervision that still takes messages.
record IsLive (s : Supervisor) : Type 0 where
  supervised : IsSupervised s
  open_run : s.finalized ≡ false
  unfinished : s.lifecycle.lifecycle_terminal ≡ false

fails-IsSupervised : (s : Supervisor) → IsSupervised s → IsSupervised (protocol_failure s)
fails-IsSupervised s h = SameRun-IsSupervised s _ (protocol_failure-SameRun s) h

module _ (limits : Limits) (now : ℕ) where
  accept-IsSupervised :
      (e : ChildEvent) (s : Supervisor) (o : Option Lifecycle)
      → IsLive s
      → advance e now s.lifecycle ≡ o
      → IsSupervised (accept limits e s o)
  accept-IsSupervised e s none h p = fails-IsSupervised s h.supervised
  accept-IsSupervised e s (some l) h p =
      let t : Supervisor = record s { lifecycle = l } in
      let moved : Advanced s t = record {
        event = e;
        now = now;
        running = h.open_run;
        unfinished = h.unfinished;
        advanced = p;
        finalized = refl;
        completion = refl;
      } in
      SameRun-IsSupervised t _ (rearm-SameRun limits e t)
        (Advanced-IsSupervised s t moved h.supervised)

  counted : (s t : Supervisor) → SameRun s t → IsLive s → IsLive t
  counted s t r h = record {
    supervised = SameRun-IsSupervised s t r h.supervised;
    open_run = rw (r.finalized) (h.open_run);
    unfinished = rw (r.lifecycle) (h.unfinished);
  }

  on_event-IsSupervised :
      (o : Option ChildEvent) (s : Supervisor) → IsLive s → IsSupervised (on_event limits now o s)
  unfolding on_event
  on_event-IsSupervised none s h = fails-IsSupervised s h.supervised
  on_event-IsSupervised (some e) s h =
      let t : Supervisor = record s { next_sequence = s.next_sequence + 1 } in
      elim (Bool-cases (sequence_of e == s.next_sequence)) [
        | inl same ↦ rw same (
            accept-IsSupervised e t (advance e now t.lifecycle)
              (counted s t (record { lifecycle = refl; finalized = refl; completion = refl }) h)
              refl)
        | inr other ↦ rw other (fails-IsSupervised s h.supervised)
      ]

  on_sized-IsSupervised :
      (o : Option ChildEvent) (bytes : Option ℕ) (s : Supervisor)
      → IsLive s
      → IsSupervised (on_sized limits now o bytes s)
  unfolding on_sized
  on_sized-IsSupervised o none s h = fails-IsSupervised s h.supervised
  on_sized-IsSupervised o (some b) s h =
      let t : Supervisor = record s {
        event_count = s.event_count + 1;
        aggregate_event_bytes = s.aggregate_event_bytes + b;
      } in
      let live : IsLive t =
        counted s t (record { lifecycle = refl; finalized = refl; completion = refl }) h in
      elim (Bool-cases (over_limits limits b t)) [
        | inl over ↦ rw over (fails-IsSupervised t live.supervised)
        | inr fits ↦ rw fits (on_event-IsSupervised o t live)
      ]

  on_open-IsSupervised :
      (v : Value) (bytes : Option ℕ) (b : Bool) (s : Supervisor)
      → IsSupervised s
      → s.finalized ≡ false
      → s.lifecycle.lifecycle_terminal ≡ b
      → IsSupervised (on_open limits now v bytes b s)
  unfolding on_open
  on_open-IsSupervised v bytes true s h f t = fails-IsSupervised s h
  on_open-IsSupervised v bytes false s h f t =
      on_sized-IsSupervised (parse_child_event v) bytes s
        (record { supervised = h; open_run = f; unfinished = t })

  on_message-IsSupervised :
      (v : Value) (bytes : Option ℕ) (s : Supervisor)
      → IsSupervised s
      → IsSupervised (on_message limits now v bytes s)
  unfolding on_message
  on_message-IsSupervised v bytes s h = elim (Bool-cases (ignores s)) [
    | inl i ↦ rw i h
    | inr o ↦
        rw o (on_open-IsSupervised v bytes s.lifecycle.lifecycle_terminal s h (ground arith) refl)
  ]

  keep_or-IsSupervised :
      (usable : Bool) (s : Supervisor) (o : Option Supervisor)
      → attach limits usable now s ≡ o
      → IsSupervised s
      → IsSupervised (keep_or s o)
  keep_or-IsSupervised usable s none e h = h
  keep_or-IsSupervised usable s (some t) e h =
      SameRun-IsSupervised s t (attach-SameRun limits usable now s e) h

if-IsSupervised :
    (b : Bool) (s t : Supervisor)
    → IsSupervised s
    → IsSupervised t
    → IsSupervised (if b then t else s)
if-IsSupervised true s t h k = k
if-IsSupervised false s t h k = h

abbrev untimed : Supervisor → Supervisor
untimed s = record s { overall_timer = false }

phase_fires-SameRun : (s : Supervisor) (o : Option ℕ) → SameRun s (phase_timeout s o)
phase_fires-SameRun s none = record { lifecycle = refl; finalized = refl; completion = refl }
phase_fires-SameRun s (some ms) =
    let r = on_timeout-SameRun (record s { phase_timer = none }) in
    record { lifecycle = r.lifecycle; finalized = r.finalized; completion = r.completion }

step-IsSupervised :
    (limits : Limits) (s : Supervisor) (i : Input)
    → IsPlausible i
    → IsSupervised s
    → IsSupervised (step limits s i)
unfolding step
step-IsSupervised limits s (attaches usable now) p h =
    keep_or-IsSupervised limits now usable s (attach limits usable now s) refl h
step-IsSupervised limits s (message v bytes now) p h =
    if-IsSupervised s.attached s _ h (on_message-IsSupervised limits now v bytes s h)
step-IsSupervised limits s overall_fires p h = if-IsSupervised s.overall_timer s _ h (
    SameRun-IsSupervised (untimed s) _ (on_timeout-SameRun (untimed s)) (
      SameRun-IsSupervised s (untimed s)
        (record { lifecycle = refl; finalized = refl; completion = refl }) h))
step-IsSupervised limits s phase_fires p h =
    SameRun-IsSupervised s _ (phase_fires-SameRun s s.phase_timer) h
step-IsSupervised limits s kill_fires p h =
    if-IsSupervised s.kill_timer s _ h (
      SameRun-IsSupervised s _ (record { lifecycle = refl; finalized = refl; completion = refl }) h)
step-IsSupervised limits s (settle_fires swept now) p h =
    let t : Supervisor = record s { settle_timer = false } in
    if-IsSupervised s.settle_timer s _ h (
      finalize-IsSupervised none none swept now t tt (
        SameRun-IsSupervised s t (record { lifecycle = refl; finalized = refl; completion = refl })
          h))
step-IsSupervised limits s (exits code signal swept now) p h =
    if-IsSupervised s.attached s _ h (finalize-IsSupervised code signal swept now s p h)
step-IsSupervised limits s (child_error spawned swept now) p h =
    if-IsSupervised (s.attached && not spawned) s _ h
      (finalize-IsSupervised none none swept now s tt h)
step-IsSupervised limits s aborts p h = SameRun-IsSupervised s _ (abort-SameRun s) h
step-IsSupervised limits s disposes p h = SameRun-IsSupervised s _ (dispose-SameRun s) h

steps-IsSupervised :
    (limits : Limits) (s : Supervisor) (is : List Input)
    → All IsPlausible is
    → IsSupervised s
    → IsSupervised (steps limits s is)
unfolding steps
steps-IsSupervised limits s [] p h = h
steps-IsSupervised limits s (i ∷ is) (p, ps) h =
    steps-IsSupervised limits (step limits s i) is ps (step-IsSupervised limits s i p h)

-- Whatever inputs reach a supervisor, with exit codes of at most 32 bits, the events that it resolves
-- to are built from a lifecycle whose reported phases are between one and six, each with a duration
-- of at most an hour exactly where it passed or failed.
pub steps-IsReport :
    (limits : Limits) (is : List Input) (es : List ProbeEvent)
    → All IsPlausible is
    → (steps limits new is).completion ≡ resolved es
    → IsReport es
steps-IsReport limits is es p e =
    (steps-IsSupervised limits new is p new-IsSupervised).reported es e
