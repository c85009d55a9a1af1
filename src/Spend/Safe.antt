-- ===== src/Spend/Safe.antt =====
-- What holds of a ledger after any history of calls.
pub mod Transactions
pub mod Steps
pub mod Histories
