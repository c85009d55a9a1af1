-- ===== src/Spend/Contract.antt =====
-- What the calls of a ledger promise.
pub mod Granting
pub mod Reserving
pub mod Repeating
pub mod Handoffs
pub mod Reconciling
pub mod Settling
pub mod Batches
pub mod Expiring
