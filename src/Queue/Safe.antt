-- ===== src/Queue/Safe.antt =====
-- Every call on a sound queue returns and leaves a sound queue.
pub mod Rules
pub mod Calls
pub mod Steps
pub mod Histories
