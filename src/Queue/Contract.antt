-- ===== src/Queue/Contract.antt =====
-- What the operations of the queue promise to their callers.
pub mod Settling
pub mod Claiming
pub mod Enqueueing
pub mod Replacing
pub mod Cooling
pub mod Reclaiming
pub mod Ordering
