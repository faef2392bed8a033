-- ===== src/Probe/Pipeline.antt =====
-- packages/probe/src/real-pipeline.ts: `runRealProbePipeline`.
pub mod Snapshots
pub mod Session
pub mod Steps
pub mod Gates
pub mod Consent
pub mod Gated
pub mod Whole
mod Tests
