-- ===== src/Executor/Lifecycle/Track.antt =====
-- Where a child that keeps to the protocol can stand, and that every accepted event leads from one
-- such position to another.
use qvac_atlas.Base.{
  ℕ, ◌≤◌, ◌≡◌, ◌⊎◌, Bool, true, false, Option, none, some, List, [], ◌∷◌, ◌++◌, arith, length,
  get_elem?, if◌then◌else◌,
}
use qvac_atlas.Executor.Phase.{
  LifecyclePhase, qvac_import, worker_start, model_load, inference, clean_shutdown,
  lifecycle_phases,
}
use qvac_atlas.Executor.Protocol.{ChildEvent, started, succeeded, phase}
use qvac_atlas.Executor.Protocol
use qvac_atlas.Executor.Lifecycle.{
  Lifecycle, PhaseEvent, PhaseStatus, passed, failed, fresh, advance, status_of, elapsed,
}

-- The phases passed so far, by their durations; `broken` after a failure before shutdown, `halted`
-- once shutdown was tried after one, and `done` where shutdown ended a run with no failure before.
pub data Position : Type 0 where
  running : List ℕ → Position
  done : ℕ → ℕ → ℕ → ℕ → Bool → ℕ → Position
  broken : List ℕ → ℕ → Position
  halted : List ℕ → ℕ → Bool → ℕ → Position

abbrev pub record_at : LifecyclePhase → PhaseStatus → ℕ → PhaseEvent
record_at p s d = record { name = p; status = s; duration_ms = some d }

-- The phases of a list that have passed, one for each duration, and then the rest.
abbrev pub passes :
    List LifecyclePhase → List ℕ → (List LifecyclePhase → List PhaseEvent) → List PhaseEvent
passes ps [] rest = rest ps
passes [] (d ∷ ds) rest = rest []
passes (p ∷ ps) (d ∷ ds) rest = record_at p passed d ∷ passes ps ds rest

abbrev pub fails : ℕ → List PhaseEvent → List LifecyclePhase → List PhaseEvent
fails d more [] = more
fails d more (p ∷ ps) = record_at p failed d ∷ more

abbrev pub before_shutdown : List LifecyclePhase
before_shutdown = qvac_import ∷ worker_start ∷ model_load ∷ inference ∷ []

abbrev pub phases_at : Position → List PhaseEvent
phases_at (running ds) = passes before_shutdown ds (λ _. [])
phases_at (done a b c d ok e) =
    passes before_shutdown (a ∷ b ∷ c ∷ d ∷ [])
      (λ _. record_at clean_shutdown (status_of ok) e ∷ [])
phases_at (broken ds d) = passes before_shutdown ds (fails d [])
phases_at (halted ds d ok e) =
    passes before_shutdown ds (fails d (record_at clean_shutdown (status_of ok) e ∷ []))

abbrev pub expected_at : Position → ℕ
expected_at (running ds) = length ds
expected_at _ = 4

abbrev pub failure_at : Position → Option LifecyclePhase
failure_at (running ds) = none
failure_at (done a b c d ok e) = if ok then none else some clean_shutdown
failure_at (broken ds d) = get_elem? before_shutdown (length ds)
failure_at (halted ds d ok e) = get_elem? before_shutdown (length ds)

abbrev pub terminal_at : Position → Bool
terminal_at (running ds) = false
terminal_at (done a b c d ok e) = true
terminal_at (broken ds d) = false
terminal_at (halted ds d ok e) = true

abbrev pub Fits : Position → Type 0
Fits (running ds) = length ds ≤ 4
Fits (done a b c d ok e) = Unit {0}
Fits (broken ds d) = length ds ≤ 3
Fits (halted ds d ok e) = length ds ≤ 3

-- An open phase is the expected one, and none is open after shutdown.
pub record At (q : Position) (l : Lifecycle) : Type 0 where
  pub phases : l.phases ≡ phases_at q
  pub expected : l.expected_phase_index ≡ expected_at q
  pub failure : l.first_failure ≡ failure_at q
  pub terminal : l.lifecycle_terminal ≡ terminal_at q
  pub opened : (l.open_phase ≡ none) ⊎ (l.open_phase ≡ get_elem? lifecycle_phases (expected_at q))
  pub fits : Fits q

pub fresh-At : At (running []) fresh
unfolding fresh
fresh-At = ground arith

-- Where an accepted event leads.
abbrev pub finish : Position → Bool → ℕ → Position
finish (running (a ∷ b ∷ c ∷ d ∷ [])) ok e = done a b c d ok e
finish (running ds) true e = running (ds ++ e ∷ [])
finish (running ds) false e = broken ds e
finish (broken ds d) ok e = halted ds d ok e
finish q ok e = q

abbrev pub next : Position → ChildEvent → ℕ → Lifecycle → Position
next q (phase n p succeeded) now l = finish q true (elapsed now l.open_phase_started_at)
next q (phase n p Protocol.failed) now l = finish q false (elapsed now l.open_phase_started_at)
next q _ now l = q

module _ (e : ChildEvent) (now : ℕ) (l : Lifecycle) {l' : Lifecycle} where
  -- Every event that is accepted leads a lifecycle that stands at a position of the protocol, and is
  -- not at its end, to the next such position: phases in order, and nothing but shutdown after the
  -- first failure.
  pub advance-At :
      (q : Position)
      → At q l
      → l.lifecycle_terminal ≡ false
      → advance e now l ≡ some l'
      → At (next q e now l) l'
  unfolding advance
  advance-At (running []) h t p = ground arith
  advance-At (running (a ∷ [])) h t p = ground arith
  advance-At (running (a ∷ b ∷ [])) h t p = ground arith
  advance-At (running (a ∷ b ∷ c ∷ [])) h t p = ground arith
  advance-At (running (a ∷ b ∷ c ∷ d ∷ [])) h t p = ground arith
  advance-At (running (a ∷ b ∷ c ∷ d ∷ f ∷ ds)) h t p = absurd (omega (arith, h.fits))
  advance-At (done a b c d ok f) h t p = ground arith
  advance-At (broken [] d) h t p = ground arith
  advance-At (broken (a ∷ []) d) h t p = ground arith
  advance-At (broken (a ∷ b ∷ []) d) h t p = ground arith
  advance-At (broken (a ∷ b ∷ c ∷ []) d) h t p = ground arith
  advance-At (broken (a ∷ b ∷ c ∷ f ∷ ds) d) h t p = absurd (omega (arith, h.fits))
  advance-At (halted ds d ok f) h t p = ground arith
