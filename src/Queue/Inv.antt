-- ===== src/Queue/Inv.antt =====
-- What holds of the state of a `MemoryQueue` between two operations.
pub mod Defs
pub mod Evict
pub mod Index
pub mod Status
pub mod Changes
pub mod Evolves
pub mod Reclaim
pub mod Choose
pub mod Lease
pub mod Count
pub mod Claims
pub mod ClaimItem
pub mod Update
pub mod Insert
pub mod Enqueues
