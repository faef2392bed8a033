-- ===== src/Executor/Phase.antt =====
-- packages/qvac-executor/src/protocol.ts: the phases of the child's life, and their labels.
use qvac_atlas.Base.{
  ℕ, String, Bool, false, Option, none, some, List, [], ◌∷◌, ◌=ₜ◌, ◌==◌, if◌then◌else◌,
}

pub data LifecyclePhase : Type 0 where
  qvac_import worker_start model_load inference clean_shutdown : LifecyclePhase

abbrev pub lifecycle_phases : List LifecyclePhase
lifecycle_phases = qvac_import ∷ worker_start ∷ model_load ∷ inference ∷ clean_shutdown ∷ []

-- `LIFECYCLE_PHASES.indexOf(phase)`.
abbrev pub index_of : LifecyclePhase → ℕ
index_of qvac_import = 0
index_of worker_start = 1
index_of model_load = 2
index_of inference = 3
index_of clean_shutdown = 4

-- `===` on phases.
abbrev pub same_phase : LifecyclePhase → LifecyclePhase → Bool
same_phase p q = index_of p == index_of q

abbrev pub is_phase : Option LifecyclePhase → LifecyclePhase → Bool
is_phase none q = false
is_phase (some p) q = same_phase p q

abbrev pub label : LifecyclePhase → String
label qvac_import = "qvac-import"
label worker_start = "worker-start"
label model_load = "model-load"
label inference = "inference"
label clean_shutdown = "clean-shutdown"

-- `LIFECYCLE_PHASES.includes(text)`, with the phase found.
unfoldable pub phase_of_label : String → Option LifecyclePhase
phase_of_label s =
    if s =ₜ "qvac-import"
    then some qvac_import
    else if s =ₜ "worker-start"
    then some worker_start
    else if s =ₜ "model-load"
    then some model_load
    else if s =ₜ "inference"
    then some inference
    else if s =ₜ "clean-shutdown"
    then some clean_shutdown
    else none
