-- ===== src/Queue.antt =====
-- crates/symbiotic-queue: the queue contract and its in-process backend.
pub mod Types
pub mod State
pub mod Reply
pub mod Ready
pub mod Enqueue
pub mod Claim
pub mod Running
pub mod Backend
pub mod Inv
pub mod Calls
pub mod Safe
pub mod Contract
pub mod Latency
