-- ===== src/Executor/Child/Watched.antt =====
-- The child's program under the supervisor: every message that it sends is accepted, and the report
-- says what became of the run.
use qvac_atlas.Base.{
  ℕ, ◌||◌, ◌≤◌, ◌≡◌, refl, sym, ◌∙◌, ap, Bool, true, false, Option, none, some, List, [], ◌∷◌, ◌++◌,
  arith, if◌then◌else◌, length,
}
use mathlib.Core.Path.{subst}
use qvac_atlas.Executor.Protocol.{cpu, gpu}
use qvac_atlas.Executor.Events.{ProbeEvent, result}
use qvac_atlas.Executor.Report.{build_events, ensure_terminal_phase, Interruption, Exit}
use qvac_atlas.Executor.Lifecycle.{Lifecycle, fresh, PhaseStatus, passed, failed, or_else}
use qvac_atlas.Executor.Supervisor.Delivered.{follow, deliver, deliver-IsFollowed}
use qvac_atlas.Executor.Supervisor.Followed.{quiet, IsFollowed, attach-IsFollowed}
use qvac_atlas.Executor.Supervisor.{
  Supervisor, Limits, default_executor_limits, new, step, steps, attaches, exits, finalize, Input,
  Completion, resolved, cleanup_failed,
}
use qvac_atlas.Executor.Child.{Surroundings, run_child, Ended, start}
use qvac_atlas.Executor.Child.Fate.{
  Fate, import_raises, worker_raises, load_raises, inference_raises, finishes,
}
use qvac_atlas.Executor.Child.Script.{script, exit_code_of, run_child-IsScripted}

-- The status in the last result event.
abbrev pub verdict : List ProbeEvent → Option PhaseStatus
verdict [] = none
verdict (result s c f ∷ es) = or_else (verdict es) (some s)
verdict (_ ∷ es) = verdict es

abbrev pub status_for : ℕ → PhaseStatus
status_for ℕ.zero = passed
status_for (ℕ.suc n) = failed

abbrev exited : ℕ → ℕ → ℕ → Exit
exited code at now = record { code = some code; signal = none; attached_at = at; now = now }

abbrev report_of : Interruption → Exit → Lifecycle → List ProbeEvent
report_of i x l = build_events i x (ensure_terminal_phase i x l)

-- The lifecycle that a script leads to, and the verdict of the report that it makes.
record Leads (times : ℕ → ℕ) (f : Fate) (bad : Bool) : Type 0 where
  lifecycle : Lifecycle
  followed : follow times 0 (script f bad) fresh ≡ some lifecycle
  count : ℕ
  counted : count ≡ length (script f bad)
  fit : count ≤ 16
  judged :
      (at now : ℕ)
      → verdict (report_of quiet (exited (exit_code_of f bad) at now) lifecycle)
        ≡ some (status_for (exit_code_of f bad))

leads : (times : ℕ → ℕ) (f : Fate) (bad : Bool) → Leads times f bad
unfolding follow fresh start build_events ensure_terminal_phase
leads times import_raises true = record {
  lifecycle = _;
  followed = refl;
  count = _;
  counted = refl;
  fit = omega arith;
  judged = λ at now. refl;
}
leads times import_raises false = record {
  lifecycle = _;
  followed = refl;
  count = _;
  counted = refl;
  fit = omega arith;
  judged = λ at now. refl;
}
leads times worker_raises true = record {
  lifecycle = _;
  followed = refl;
  count = _;
  counted = refl;
  fit = omega arith;
  judged = λ at now. refl;
}
leads times worker_raises false = record {
  lifecycle = _;
  followed = refl;
  count = _;
  counted = refl;
  fit = omega arith;
  judged = λ at now. refl;
}
leads times load_raises true = record {
  lifecycle = _;
  followed = refl;
  count = _;
  counted = refl;
  fit = omega arith;
  judged = λ at now. refl;
}
leads times load_raises false = record {
  lifecycle = _;
  followed = refl;
  count = _;
  counted = refl;
  fit = omega arith;
  judged = λ at now. refl;
}
leads times inference_raises true = record {
  lifecycle = _;
  followed = refl;
  count = _;
  counted = refl;
  fit = omega arith;
  judged = λ at now. refl;
}
leads times inference_raises false = record {
  lifecycle = _;
  followed = refl;
  count = _;
  counted = refl;
  fit = omega arith;
  judged = λ at now. refl;
}
leads times (finishes none) true = record {
  lifecycle = _;
  followed = refl;
  count = _;
  counted = refl;
  fit = omega arith;
  judged = λ at now. refl;
}
leads times (finishes none) false = record {
  lifecycle = _;
  followed = refl;
  count = _;
  counted = refl;
  fit = omega arith;
  judged = λ at now. refl;
}
leads times (finishes (some cpu)) true = record {
  lifecycle = _;
  followed = refl;
  count = _;
  counted = refl;
  fit = omega arith;
  judged = λ at now. refl;
}
leads times (finishes (some cpu)) false = record {
  lifecycle = _;
  followed = refl;
  count = _;
  counted = refl;
  fit = omega arith;
  judged = λ at now. refl;
}
leads times (finishes (some gpu)) true = record {
  lifecycle = _;
  followed = refl;
  count = _;
  counted = refl;
  fit = omega arith;
  judged = λ at now. refl;
}
leads times (finishes (some gpu)) false = record {
  lifecycle = _;
  followed = refl;
  count = _;
  counted = refl;
  fit = omega arith;
  judged = λ at now. refl;
}

taken : (b : Bool) (s t : Supervisor) → b ≡ true → (if b then t else s).completion ≡ t.completion
taken true s t h = refl
taken false s t h = cc

left : (b : Bool) (s t : Supervisor) → b ≡ false → (if b then s else t).completion ≡ t.completion
left false s t h = refl
left true s t h = cc

same_report :
    (x : Exit) {i j : Interruption} {l m : Lifecycle}
    → i ≡ j
    → l ≡ m
    → report_of i x l ≡ report_of j x m
same_report x p q = rw (p, q) refl

-- The promise of a supervisor that is told of the exit of the child: by whether the final sweep of
-- the process group succeeds.
abbrev outcome : Bool → List ProbeEvent → Completion
outcome true es = resolved es
outcome false es = cleanup_failed

finalize-outcome :
    (code k now : ℕ) (swept : Bool) (l : Lifecycle) (s : Supervisor)
    → IsFollowed k l s
    → (step default_executor_limits s (exits (some code) none swept now)).completion
      ≡ outcome swept (report_of quiet (exited code s.attached_at now) l)
unfolding step finalize
finalize-outcome code k now true l s h =
    taken s.attached s _ h.attached
    ∙ left (s.finalized || s.disposed) s _ (rw (h.finalized, h.disposed) refl)
    ∙ ap resolved (same_report (exited code s.attached_at now) h.interruption h.lifecycle)
finalize-outcome code k now false l s h =
    taken s.attached s _ h.attached
    ∙ left (s.finalized || s.disposed) s _ (rw (h.finalized, h.disposed) refl)

-- The inputs of a run: the child is attached, its messages arrive, and it exits; the final sweep
-- succeeds or fails.
abbrev pub whole_run : (sizes times : ℕ → ℕ) (began ended : ℕ) (swept : Bool) → Ended → List Input
whole_run sizes times began ended swept e =
    attaches true began
    ∷ (deliver sizes times 0 e.sent ++ exits (some e.exit_code) none swept ended ∷ [])

-- If the final sweep succeeds, the supervisor resolves to events whose verdict is that of the exit
-- code; if not, it rejects with a failed cleanup.
pub record IsJudged (e : Ended) (swept : Bool) (s : Supervisor) : Type 0 where
  pub events : List ProbeEvent
  pub settles : s.completion ≡ outcome swept events
  pub judged : verdict events ≡ some (status_for e.exit_code)

steps-append :
    (limits : Limits) (s : Supervisor) (is js : List Input)
    → steps limits s (is ++ js) ≡ steps limits (steps limits s is) js
unfolding steps
steps-append limits s [] js = refl
steps-append limits s (i ∷ is) js = steps-append limits (step limits s i) is js

module _ (sizes times : ℕ → ℕ) (small : (n : ℕ) → sizes n ≤ 1024) (began ended : ℕ)
    (swept : Bool) where
  script-IsJudged :
      (f : Fate) (bad : Bool)
      → IsJudged
          (record { sent = script f bad; exit_code = exit_code_of f bad })
          swept
          (steps default_executor_limits new (
            whole_run sizes times began ended swept
              (record { sent = script f bad; exit_code = exit_code_of f bad })))
  unfolding steps
  script-IsJudged f bad =
      let p = leads times f bad in
      let s = step default_executor_limits new (attaches true began) in
      let t = steps default_executor_limits s (deliver sizes times 0 (script f bad)) in
      let h =
        deliver-IsFollowed sizes times small 0 p.count (script f bad) fresh p.lifecycle s
          (attach-IsFollowed began) (omega (arith, p.counted)) p.fit p.followed in
      record {
        events = report_of quiet (exited (exit_code_of f bad) t.attached_at ended) p.lifecycle;
        settles =
            ap (λ u. u.completion)
              (steps-append default_executor_limits s (deliver sizes times 0 (script f bad)) _)
            ∙ finalize-outcome (exit_code_of f bad) p.count ended swept p.lifecycle t h;
        judged = p.judged t.attached_at ended;
      }

  -- Whatever the SDK and the artifact do, if the child's channel stays connected and no message is
  -- longer than 1024 bytes, a supervisor with the default limits that gets all messages and then the
  -- child's exit settles by the final sweep of the process group: if the sweep succeeds, it resolves
  -- to events whose result is passed if the child exits with 0, and failed if it exits with 1; if
  -- the sweep fails, it rejects with a failed cleanup.
  pub run_child-IsJudged :
      (w : Surroundings)
      → ((n : ℕ) → w.connected n ≡ true)
      → IsJudged (run_child w) swept (
          steps default_executor_limits new (whole_run sizes times began ended swept (run_child w)))
  run_child-IsJudged w connected =
      let c = run_child-IsScripted w connected in
      let same : run_child w
          ≡ record { sent = script c.fate c.bad; exit_code = exit_code_of c.fate c.bad } =
        rw⁻¹ (c.sent, c.exit_code) refl in
      subst
        (λ e.
          IsJudged e swept
            (steps default_executor_limits new (whole_run sizes times began ended swept e)))
        (sym same) (script-IsJudged c.fate c.bad)
