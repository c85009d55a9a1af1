-- ===== src/Jobs.antt =====
-- The job store's vocabulary and the runner of symbiotic-queue.
pub mod Types
pub mod Runner
pub mod Watching
pub mod Completing
pub mod Supervision
pub mod Starting
