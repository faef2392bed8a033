-- ===== src/Executor/Events.antt =====
-- packages/qvac-executor/src/supervisor.ts: the type `ProbeEvent`.
use qvac_atlas.Base.{ℕ, String, Bool, Option}
use qvac_atlas.Executor.Phase.{LifecyclePhase}
use qvac_atlas.Executor.Protocol.{Backend}
use qvac_atlas.Executor.Lifecycle.{PhaseEvent, PhaseStatus}

pub data TerminationKind : Type 0 where
  clean_exit exit_code signal timeout spawn_error not_started unknown : TerminationKind

pub data Category : Type 0 where
  none native_runtime worker_crash timeout workload_failed spawn_error unknown : Category

pub record Failure : Type 0 where
  pub category : Category
  pub phase : Option LifecyclePhase
  pub code : Option String

pub data ProbeEvent : Type 0 where
  phase : PhaseEvent → ProbeEvent
  backend : Backend → ProbeEvent
  termination : TerminationKind → Option ℕ → Option String → Option LifecyclePhase → ProbeEvent
  result : PhaseStatus → Bool → Failure → ProbeEvent
