-- ===== src/Executor/Supervisor/Invariant.antt =====
-- What every handler of the supervisor keeps: a lifecycle that stands at a position of the
-- protocol until the run is finalized, with a duration for each phase.
use qvac_atlas.Base.{
  ℕ, ◌≤◌, ◌≡◌, ◌⊎◌, true, false, some, [], ◌∷◌, ◌++◌, arith, length, any, leb, All-append, inl, inr,
}
use qvac_atlas.Executor.Phase.{LifecyclePhase, index_of}
use qvac_atlas.Executor.Protocol.{ChildEvent, phase, started, succeeded}
use qvac_atlas.Executor.Protocol
use qvac_atlas.Executor.Lifecycle.{Lifecycle, PhaseEvent, passed, failed, fresh, advance, elapsed}
use qvac_atlas.Executor.Lifecycle.Track.{
  Position, running, done, broken, halted, phases_at, failure_at, Fits, At, fresh-At, next,
  advance-At, record_at,
}
use qvac_atlas.Executor.Report.Shape.{AllTimed, Timed, IsSound}

short_at : (q : Position) → Fits q → length (phases_at q) ≤ 5
short_at (running []) h = omega arith
short_at (running (a ∷ [])) h = omega arith
short_at (running (a ∷ b ∷ [])) h = omega arith
short_at (running (a ∷ b ∷ c ∷ [])) h = omega arith
short_at (running (a ∷ b ∷ c ∷ d ∷ [])) h = omega arith
short_at (running (a ∷ b ∷ c ∷ d ∷ e ∷ ds)) h = absurd (omega (arith, h))
short_at (done a b c d ok e) h = omega arith
short_at (broken [] d) h = omega arith
short_at (broken (a ∷ []) d) h = omega arith
short_at (broken (a ∷ b ∷ []) d) h = omega arith
short_at (broken (a ∷ b ∷ c ∷ []) d) h = omega arith
short_at (broken (a ∷ b ∷ c ∷ f ∷ ds) d) h = absurd (omega (arith, h))
short_at (halted [] d ok e) h = omega arith
short_at (halted (a ∷ []) d ok e) h = omega arith
short_at (halted (a ∷ b ∷ []) d ok e) h = omega arith
short_at (halted (a ∷ b ∷ c ∷ []) d ok e) h = omega arith
short_at (halted (a ∷ b ∷ c ∷ f ∷ ds) d ok e) h = absurd (omega (arith, h))

covered_at :
    (q : Position) (f : LifecyclePhase)
    → Fits q
    → failure_at q ≡ some f
    → any (λ e. leb (index_of e.name) (index_of f)) (phases_at q) ≡ true
covered_at (running ds) f h e = cc
covered_at (done a b c d ok e) f h p = ground arith
covered_at (broken [] d) f h p = ground arith
covered_at (broken (a ∷ []) d) f h p = ground arith
covered_at (broken (a ∷ b ∷ []) d) f h p = ground arith
covered_at (broken (a ∷ b ∷ c ∷ []) d) f h p = ground arith
covered_at (broken (a ∷ b ∷ c ∷ e ∷ ds) d) f h p = absurd (omega (arith, h))
covered_at (halted [] d ok e) f h p = ground arith
covered_at (halted (a ∷ []) d ok e) f h p = ground arith
covered_at (halted (a ∷ b ∷ []) d ok e) f h p = ground arith
covered_at (halted (a ∷ b ∷ c ∷ []) d ok e) f h p = ground arith
covered_at (halted (a ∷ b ∷ c ∷ g ∷ ds) d ok e) f h p = absurd (omega (arith, h))

-- A lifecycle that follows the protocol.
pub record IsTracked (l : Lifecycle) : Type 0 where
  pub position : Position
  pub at : At position l
  pub timed : AllTimed l.phases

pub IsTracked-IsSound : (l : Lifecycle) → IsTracked l → IsSound l
IsTracked-IsSound l h = record {
  timed = h.timed;
  short = rw (h.at.phases) (short_at h.position h.at.fits);
  covered = λ f e. rw (h.at.phases) (covered_at h.position f h.at.fits (rw (h.at.failure) at e));
}

elapsed-le : (now since : ℕ) → elapsed now since ≤ 3600000
unfolding elapsed
elapsed-le now since = omega arith

phases-advance :
    (e : ChildEvent) (now : ℕ) (l : Lifecycle) {l' : Lifecycle}
    → advance e now l ≡ some l'
    → (l'.phases ≡ l.phases)
      ⊎ ((q : PhaseEvent) × Timed q.status q.duration_ms × (l'.phases ≡ l.phases ++ q ∷ []))
unfolding advance
phases-advance (phase n p started) now l h = inl (ground arith)
phases-advance (Protocol.backend n b) now l h = inl (ground arith)
phases-advance (phase n p succeeded) now l h =
    inr (record_at p passed (elapsed now l.open_phase_started_at), elapsed-le now _, ground arith)
phases-advance (phase n p Protocol.failed) now l h =
    inr (record_at p failed (elapsed now l.open_phase_started_at), elapsed-le now _, ground arith)

pub advance-IsTracked :
    (e : ChildEvent) (now : ℕ) (l : Lifecycle) {l' : Lifecycle}
    → IsTracked l
    → l.lifecycle_terminal ≡ false
    → advance e now l ≡ some l'
    → IsTracked l'
advance-IsTracked e now l h t p = record {
  position = next h.position e now l;
  at = advance-At e now l h.position h.at t p;
  timed = elim (phases-advance e now l p) [
    | inl same ↦ rw same (h.timed)
    | inr (q, d, more) ↦
        rw more (All-append (λ r. Timed r.status r.duration_ms) l.phases (q ∷ []) h.timed (d, tt))
  ];
}

pub fresh-IsTracked : IsTracked fresh
unfolding fresh
fresh-IsTracked = record { position = running []; at = fresh-At; timed = tt }
