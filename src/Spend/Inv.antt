-- ===== src/Spend/Inv.antt =====
-- The invariant of the ledger's tables, and what each step of a call does to it.
pub mod Defs
pub mod Rows
pub mod Settling
pub mod Releasing
pub mod Accepting
pub mod Reserving
pub mod Growing
pub mod Answers
