-- ===== src/Portability/Accepts.antt =====
-- What the loops of `validate_bundle` have checked when they are through.
pub mod Artifacts
pub mod Records
pub mod Bundles
pub mod Plans
pub mod Decoded
