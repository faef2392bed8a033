-- ===== src/Executor/Supervisor/Runs.antt =====
-- What is kept of a supervision for its report, and that the end of a run makes a report.
use qvac_atlas.Base.{
  ℕ, ◌≤◌, ◌≡◌, refl, String, Bool, true, false, Option, none, some, List, arith, Bool-cases, ◌||◌,
  inl, inr,
}
use mathlib.Core.Path.{subst}
use qvac_atlas.Executor.Protocol.{ChildEvent}
use qvac_atlas.Executor.Lifecycle.{Lifecycle, advance}
use qvac_atlas.Executor.Events.{ProbeEvent}
use qvac_atlas.Executor.Report.{
  Interruption, Exit, build_events, ensure_terminal_phase, reported_phases,
}
use qvac_atlas.Executor.Report.Shape.{IsPresentable, ensure-IsReady, reported_phases-IsPresentable}
use qvac_atlas.Executor.Supervisor.{
  end_run, Supervisor, pending, resolved, Input, exits, new, finalize,
}
use qvac_atlas.Executor.Supervisor.Invariant.{
  IsTracked, IsTracked-IsSound, fresh-IsTracked, advance-IsTracked,
}

abbrev pub IsExitCode : Option ℕ → Type 0
IsExitCode none = Unit {0}
IsExitCode (some n) = n ≤ 4294967295

-- An exit code that the runtime reports fits 32 bits.
abbrev pub IsPlausible : Input → Type 0
IsPlausible (exits code signal swept now) = IsExitCode code
IsPlausible _ = Unit {0}

-- The report of some end of a run whose phases can be shown.
pub record IsReport (es : List ProbeEvent) : Type 0 where
  pub interruption : Interruption
  pub exit : Exit
  pub lifecycle : Lifecycle
  pub built : es ≡ build_events interruption exit lifecycle
  pub presentable : IsPresentable (reported_phases lifecycle)
  pub code : IsExitCode exit.code

pub record IsSupervised (s : Supervisor) : Type 0 where
  pub tracked : s.finalized ≡ false → IsTracked s.lifecycle
  pub waiting : s.finalized ≡ false → s.completion ≡ pending
  pub reported : (es : List ProbeEvent) → s.completion ≡ resolved es → IsReport es

pub new-IsSupervised : IsSupervised new
unfolding new
new-IsSupervised = record {
  tracked = λ _. fresh-IsTracked;
  waiting = λ _. refl;
  reported = λ es e. cc;
}

-- Two states with the same run: what the report reads is the same.
pub record SameRun (s t : Supervisor) : Type 0 where
  pub lifecycle : t.lifecycle ≡ s.lifecycle
  pub finalized : t.finalized ≡ s.finalized
  pub completion : t.completion ≡ s.completion

pub SameRun-IsSupervised : (s t : Supervisor) → SameRun s t → IsSupervised s → IsSupervised t
SameRun-IsSupervised s t r h = record {
  tracked = λ f. rw (r.lifecycle) (h.tracked (rw (r.finalized) at f));
  waiting = λ f. rw (r.completion) (h.waiting (rw (r.finalized) at f));
  reported = λ es e. h.reported es (rw (r.completion) at e);
}

-- The state after an accepted event.
pub record Advanced (s t : Supervisor) : Type 0 where
  pub event : ChildEvent
  pub now : ℕ
  pub running : s.finalized ≡ false
  pub unfinished : s.lifecycle.lifecycle_terminal ≡ false
  pub advanced : advance event now s.lifecycle ≡ some t.lifecycle
  pub finalized : t.finalized ≡ s.finalized
  pub completion : t.completion ≡ s.completion

pub Advanced-IsSupervised : (s t : Supervisor) → Advanced s t → IsSupervised s → IsSupervised t
Advanced-IsSupervised s t r h = record {
  tracked = λ f.
      advance-IsTracked r.event r.now s.lifecycle (h.tracked r.running) r.unfinished r.advanced;
  waiting = λ f. rw (r.completion) (h.waiting r.running);
  reported = λ es e. h.reported es (rw (r.completion) at e);
}

module _ (x : Exit) (s : Supervisor) (c : IsExitCode x.code) (h : IsSupervised s)
    (live : s.finalized ≡ false) where
  built-IsReport :
      IsReport (build_events s.interruption x (ensure_terminal_phase s.interruption x s.lifecycle))
  built-IsReport = record {
    interruption = s.interruption;
    exit = x;
    lifecycle = ensure_terminal_phase s.interruption x s.lifecycle;
    built = refl;
    presentable = reported_phases-IsPresentable _ (
        ensure-IsReady s.interruption x s.lifecycle
          (IsTracked-IsSound s.lifecycle (h.tracked live)));
    code = c;
  }

  end_run-IsSupervised : (swept : Bool) → IsSupervised (end_run swept x s)
  unfolding end_run
  end_run-IsSupervised true = record {
    tracked = λ e. cc;
    waiting = λ e. cc;
    reported = λ es e.
        let same : build_events s.interruption x
              (ensure_terminal_phase s.interruption x s.lifecycle)
            ≡ es =
          cc in
        subst IsReport same built-IsReport;
  }
  end_run-IsSupervised false = record {
    tracked = λ e. cc;
    waiting = λ e. cc;
    reported = λ es e. cc;
  }

pub finalize-IsSupervised :
    (code : Option ℕ) (signal : Option String) (swept : Bool) (now : ℕ) (s : Supervisor)
    → IsExitCode code
    → IsSupervised s
    → IsSupervised (finalize code signal swept now s)
unfolding finalize
finalize-IsSupervised code signal swept now s c h = elim (Bool-cases (s.finalized || s.disposed)) [
  | inl over ↦ rw over h
  | inr live ↦ rw live (
      end_run-IsSupervised
        (record { code = code; signal = signal; attached_at = s.attached_at; now = now }) s c h
        (ground arith) swept)
]
