-- ===== src/Spend.antt =====
-- The spend ledger: crates/symbiotic-model/src/spend.rs and its SQLite implementation in
-- crates/symbiotic-ai-runtime/src/spend.rs.
pub mod Result
pub mod Types
pub mod Store
pub mod Reserve
pub mod Finish
pub mod Recovery
pub mod Calls
pub mod Inv
pub mod Unavailable
pub mod Histories
pub mod Safe
pub mod Contract
