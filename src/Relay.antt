-- ===== src/Relay.antt =====
-- apps/submission-relay: the service that takes submissions and queues them.
pub mod Handler
pub mod Exchange
pub mod Config
pub mod Admission
pub mod Queue
pub mod Credentials
pub mod Service
pub mod Server
pub mod Sample
mod Tests
