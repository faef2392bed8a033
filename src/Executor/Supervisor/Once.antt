-- ===== src/Executor/Supervisor/Once.antt =====
-- The promise of `wait()` is settled once.
use qvac_atlas.Base.{ℕ, ◌≡◌, refl, ◌∙◌, true, Option, none, some, List, [], ◌∷◌, arith}
use qvac_atlas.Executor.Supervisor.{
  Supervisor, Limits, Input, attaches, message, overall_fires, phase_fires, kill_fires,
  settle_fires, exits, child_error, aborts, disposes, step, steps, finalize, on_message, attach,
  abort, dispose_after_launch_failure, terminate, on_timeout, phase_timeout, arm_phase_timer,
}

-- The same settled run, over and done with.
pub record IsOver (s t : Supervisor) : Type 0 where
  pub finalized : t.finalized ≡ true
  pub completion : t.completion ≡ s.completion
  pub lifecycle : t.lifecycle ≡ s.lifecycle

phase_fires-IsOver :
    (s : Supervisor) (o : Option ℕ) → s.finalized ≡ true → IsOver s (phase_timeout s o)
unfolding on_timeout
phase_fires-IsOver s none h = record { finalized = h; completion = refl; lifecycle = refl }
phase_fires-IsOver s (some ms) h = ground arith

step-IsOver :
    (limits : Limits) (s : Supervisor) (i : Input) → s.finalized ≡ true → IsOver s (step limits s i)
unfolding step on_timeout finalize on_message attach abort dispose_after_launch_failure terminate
    arm_phase_timer
step-IsOver limits s (attaches usable now) h = ground arith
step-IsOver limits s (message v bytes now) h = ground arith
step-IsOver limits s overall_fires h = ground arith
step-IsOver limits s phase_fires h = phase_fires-IsOver s s.phase_timer h
step-IsOver limits s kill_fires h = ground arith
step-IsOver limits s (settle_fires swept now) h = ground arith
step-IsOver limits s (exits code signal swept now) h = ground arith
step-IsOver limits s (child_error spawned swept now) h = ground arith
step-IsOver limits s aborts h = ground arith
step-IsOver limits s disposes h = ground arith

-- Once a supervisor is finalized, no further input changes what its promise settled to, nor the
-- lifecycle that the report was built from.
pub steps-IsOver :
    (limits : Limits) (s : Supervisor) (is : List Input)
    → s.finalized ≡ true
    → IsOver s (steps limits s is)
unfolding steps
steps-IsOver limits s [] h = record { finalized = h; completion = refl; lifecycle = refl }
steps-IsOver limits s (i ∷ is) h =
    let a = step-IsOver limits s i h in
    let b = steps-IsOver limits (step limits s i) is a.finalized in
    record {
      finalized = b.finalized;
      completion = b.completion ∙ a.completion;
      lifecycle = b.lifecycle ∙ a.lifecycle;
    }
