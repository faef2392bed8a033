-- ===== src/Executor.antt =====
-- packages/qvac-executor/src: the child protocol, and the supervisor of the child process.
pub mod Phase
pub mod Protocol
pub mod Tail
pub mod Lifecycle
pub mod Events
pub mod Report
pub mod Supervisor
pub mod Child
pub mod Launch
mod LaunchTests
pub mod Tests
