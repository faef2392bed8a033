-- ===== src/Handover.antt =====
-- Where the executor's report is handed to the probe: the supervisor's events as
-- `StructuredRunnerAdapter` of packages/probe/src/runner.ts reads them.
pub mod Parsing
pub mod Accepted
pub mod Views
pub mod Whole
mod Tests
