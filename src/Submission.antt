-- ===== src/Submission.antt =====
-- packages/submission: the protocol of a submission and its client; what both ends read.
pub mod Stream
pub mod Protocol
pub mod Client
pub mod Sample
mod Tests
