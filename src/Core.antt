-- ===== src/Core.antt =====
-- crates/symbiotic-core: the shared vocabulary.
pub mod Diagnostics
pub mod Identity
pub mod RoundTrip
