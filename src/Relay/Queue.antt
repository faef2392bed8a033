-- ===== src/Relay/Queue.antt =====
-- apps/submission-relay/src/github-queue.ts: the private queue, a GitHub repository.
pub mod GitHub
pub mod Values
pub mod Reads
pub mod Enqueue
pub mod Facts
pub mod Rules
pub mod Checked
pub mod Whole
pub mod Pushed
pub mod Order
