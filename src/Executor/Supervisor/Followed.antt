-- ===== src/Executor/Supervisor/Followed.antt =====
-- A run of the supervisor under the default limits in which every message is accepted.
use qvac_atlas.Base.{
  ℕ, ◌+◌, ◌*◌, ◌≤◌, ◌≡◌, refl, Bool, true, false, Option, none, some, ◌==◌, arith, if◌then◌else◌,
}
use qvac_atlas.Json.{Value}
use qvac_atlas.Executor.Protocol.{
  ChildEvent, phase, backend, started, succeeded, failed, sequence_of, parse_child_event,
}
use qvac_atlas.Executor.Lifecycle.{Lifecycle, fresh, advance}
use qvac_atlas.Executor.Report.{Interruption}
use qvac_atlas.Executor.Supervisor.{
  Supervisor, Limits, default_executor_limits, attaches, message, new, step, attach, on_message,
  on_open, on_sized, on_event, accept, rearm, arm_phase_timer, over_limits, ignores,
}

-- An interruption that never came.
abbrev pub quiet : Interruption
quiet = record {
  override = none;
  timeout_phase = none;
  timeout_after_failure = false;
  protocol_phase = none;
}

-- A supervised run so far: nothing is wrong after `k` messages of at most 1024 bytes.
pub record IsFollowed (k : ℕ) (l : Lifecycle) (s : Supervisor) : Type 0 where
  pub attached : s.attached ≡ true
  pub finalized : s.finalized ≡ false
  pub disposed : s.disposed ≡ false
  pub interruption : s.interruption ≡ quiet
  pub lifecycle : s.lifecycle ≡ l
  pub next_sequence : s.next_sequence ≡ k
  pub event_count : s.event_count ≡ k
  pub bytes : s.aggregate_event_bytes ≤ 1024 * k

pub attach-IsFollowed :
    (now : ℕ) → IsFollowed 0 fresh (step default_executor_limits new (attaches true now))
unfolding step new attach
attach-IsFollowed now = ground arith

same_but_timer :
    (k : ℕ) (l : Lifecycle) (s : Supervisor) (t : Option ℕ)
    → IsFollowed k l s
    → IsFollowed k l (record s { phase_timer = t })
same_but_timer k l s t h = record {
  attached = h.attached;
  finalized = h.finalized;
  disposed = h.disposed;
  interruption = h.interruption;
  lifecycle = h.lifecycle;
  next_sequence = h.next_sequence;
  event_count = h.event_count;
  bytes = h.bytes;
}

if-IsFollowed :
    (k : ℕ) (l : Lifecycle) (b : Bool) (s t : Supervisor)
    → IsFollowed k l s
    → IsFollowed k l t
    → IsFollowed k l (if b then s else t)
if-IsFollowed k l true s t hs ht = hs
if-IsFollowed k l false s t hs ht = ht

taken :
    (k : ℕ) (l : Lifecycle) (b : Bool) (s t : Supervisor)
    → b ≡ true
    → IsFollowed k l s
    → IsFollowed k l (if b then s else t)
taken k l true s t e h = h
taken k l false s t e h = cc

rearm-IsFollowed :
    (limits : Limits) (e : ChildEvent) (k : ℕ) (l : Lifecycle) (s : Supervisor)
    → IsFollowed k l s
    → IsFollowed k l (rearm limits e s)
unfolding arm_phase_timer
rearm-IsFollowed limits (backend n b) k l s h = h
rearm-IsFollowed limits (phase n p started) k l s h = same_but_timer k l s _ h
rearm-IsFollowed limits (phase n p succeeded) k l s h =
    if-IsFollowed k l _ _ _ (same_but_timer k l s _ h) (same_but_timer k l s _ h)
rearm-IsFollowed limits (phase n p failed) k l s h =
    if-IsFollowed k l _ _ _ (same_but_timer k l s _ h) (same_but_timer k l s _ h)

accept-IsFollowed :
    (limits : Limits) (e : ChildEvent) (k : ℕ) (l : Lifecycle) (s : Supervisor)
    (o : Option Lifecycle)
    → o ≡ some l
    → IsFollowed k s.lifecycle s
    → IsFollowed k l (accept limits e s o)
accept-IsFollowed limits e k l s none a h = cc
accept-IsFollowed limits e k l s (some m) a h = rearm-IsFollowed limits e k l _ (record {
  attached = h.attached;
  finalized = h.finalized;
  disposed = h.disposed;
  interruption = h.interruption;
  lifecycle = cc;
  next_sequence = h.next_sequence;
  event_count = h.event_count;
  bytes = h.bytes;
})

module _ (e : ChildEvent) (v : Value) (now size k : ℕ) (l l' : Lifecycle) (s : Supervisor)
    (h : IsFollowed k l s) (p : parse_child_event v ≡ some e) (q : sequence_of e ≡ k)
    (small : size ≤ 1024) (early : k ≤ 15) (open_still : l.lifecycle_terminal ≡ false)
    (a : advance e now l ≡ some l') where
  abbrev counted : Supervisor
  counted = record s {
    event_count = s.event_count + 1;
    aggregate_event_bytes = s.aggregate_event_bytes + size;
  }

  within : over_limits default_executor_limits size counted ≡ false
  within = ground (arith, h.bytes, h.event_count, small, early)

  in_turn : (sequence_of e == s.next_sequence) ≡ true
  in_turn = ground (arith, h.next_sequence, q)

  heeded : ignores s ≡ false
  heeded = rw (h.finalized, h.disposed, h.interruption) refl

  accepted : IsFollowed (k + 1) l' (
      accept default_executor_limits e
        (record counted { next_sequence = s.next_sequence + 1 })
        (advance e now s.lifecycle))
  accepted =
      accept-IsFollowed default_executor_limits e (k + 1) l'
        (record counted { next_sequence = s.next_sequence + 1 }) (advance e now s.lifecycle)
        (rw (h.lifecycle) a)
        (record {
          attached = h.attached;
          finalized = h.finalized;
          disposed = h.disposed;
          interruption = h.interruption;
          lifecycle = refl;
          next_sequence = omega (arith, h.next_sequence);
          event_count = omega (arith, h.event_count);
          bytes = omega (arith, h.bytes, small);
        })

  running : s.lifecycle.lifecycle_terminal ≡ false
  running = rw (h.lifecycle) open_still

  pub message-IsFollowed :
      IsFollowed (k + 1) l' (step default_executor_limits s (message v (some size) now))
  unfolding step on_message on_open on_sized on_event
  message-IsFollowed =
      taken (k + 1) l' s.attached _ s h.attached
        (simp (heeded, running, p, within, in_turn) accepted)
