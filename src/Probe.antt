-- ===== src/Probe.antt =====
-- packages/probe/src: the probe's evidence, its stage machines and its pipelines.
pub mod Runner
pub mod Stages
pub mod Report
pub mod Pipeline
