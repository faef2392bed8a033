-- ===== src/Probe/Pipeline/Session.antt =====
-- packages/probe/src/real-pipeline.ts: a run of the pipeline as explicit state. The collaborators
-- (interaction, coordinator, output) answer by `reply`, from the calls made so far, and the abort
-- signal by `aborted`, from how often it was read.
use qvac_atlas.Base.{
  ℕ, ◌+◌, String, Bool, true, false, Option, none, some, List, [], ◌∷◌, if◌then◌else◌,
}
use qvac_atlas.Json.{Value, bool}
use qvac_atlas.Probe.Report.{Schema}
use qvac_atlas.Probe.Stages.{Machine, created, stage, advance}

-- The calls whose effects leave the pipeline, with the texts they are given.
pub data Call : Type 0 where
  preflight disclose_privacy decide_fingerprint : Call
  resolve : Call
  disclose_project_code decide_project_code : Call
  run_doctor : Call
  disclose_workload decide_workload : Call
  run_workload : Call
  preview_draft preview_final : String → Call
  choose_publication confirm_local_write : Call
  write_exclusive : String → Call

pub data Reply : Type 0 where
  value : Value → Reply
  throws : Reply

-- A call made, with its reply; the latest first.
abbrev pub Log : Type 0
Log = List (Call × Reply)

pub record Outside : Type 0 where
  pub reply : Log → Call → Reply
  pub aborted : ℕ → Bool
  pub schema : Schema
  pub platform : Option (Value × (Value × Value))  -- platform, node version, redaction counts
  pub now : Option String

pub record Run : Type 0 where
  pub log : Log
  pub reads : ℕ
  pub machine : Machine

unfoldable pub begin : Run
begin = record { log = []; reads = 0; machine = created }

pub data Status : Type 0 where
  refused aborted preflight_failed write_failed cleanup_uncertain : Status

-- `RealProbeRunResult`; `raised` is a rejected promise.
pub data Outcome : Type 0 where
  stopped : Status → String → List String → Outcome
  previewed_not_written : Value → String → List String → Outcome
  written : Value → String → List String → Outcome
  raised : Outcome

-- A part of the pipeline goes on with a value, or the function has returned.
pub data Step (A : Type 0) : Type 0 where
  go : A → Run → Step A
  done : Outcome → Run → Step A

abbrev pub Part : Type 0 → Type 0
Part A = Run → Step A

abbrev pub bind_step : {A B : Type 0} → Step A → (A → Part B) → Step B
bind_step (go a r) f = f a r
bind_step (done o r) f = done o r

infixl 5 ◌>>=◌ ◌>>◌
abbrev pub ◌>>=◌ : {A B : Type 0} → Part A → (A → Part B) → Part B
m >>= f = λ r. bind_step (m r) f

abbrev pub ◌>>◌ : {A B : Type 0} → Part A → Part B → Part B
m >> k = m >>= λ _. k

-- `stopped(status, state)`.
abbrev pub stop : {A : Type 0} → Status → Part A
stop s r = done (stopped s (stage r.machine) r.machine.history) r

abbrev pub succeed : {A : Type 0} → A → Part A
succeed a r = go a r

-- `signal.aborted`.
abbrev pub is_aborted : Outside → Part Bool
is_aborted w r = go (w.aborted r.reads) (record r { reads = r.reads + 1 })

abbrev pub moved : Run → Option Machine → Step (Unit {0})
moved r none = done raised r
moved r (some m) = go tt (record r { machine = m })

-- `state.advance(next)` outside a `try`.
unfoldable pub reach : String → Part (Unit {0})
unfolding advance
reach next r = moved r (advance next r.machine)

abbrev pub ask : Outside → Call → Part Reply
ask w c r = go (w.reply r.log c) (record r { log = (c, w.reply r.log c) ∷ r.log })

-- `guarded`, with `stopped` at its failures: the signal is read before and after the effect.
abbrev pub after_effect : Outside → Reply → Part Value
after_effect w (value v) = is_aborted w >>= λ b. if b then stop aborted else succeed v
after_effect w throws = is_aborted w >>= λ b. if b then stop aborted else stop preflight_failed

unfoldable pub guarded : Outside → Call → Part Value
guarded w c = is_aborted w >>= λ b. if b then stop aborted else (ask w c >>= after_effect w)

-- `coordinatorBoundary`.
abbrev pub or_failed : Reply → Part Value
or_failed (value v) = succeed v
or_failed throws = stop preflight_failed

unfoldable pub coordinator_boundary : Outside → Call → Part Value
coordinator_boundary w c = is_aborted w >>= λ b. if b then stop aborted else (ask w c >>= or_failed)

-- A decision: not a Boolean fails, and `false` is a refusal.
abbrev pub decided : Value → Part (Unit {0})
decided (bool true) = succeed tt
decided (bool false) = stop refused
decided _ = stop preflight_failed

-- `if (signal.aborted) return stopped("aborted", state)`.
abbrev pub check_signal : Outside → Part (Unit {0})
check_signal w = is_aborted w >>= λ b. if b then stop aborted else succeed tt
