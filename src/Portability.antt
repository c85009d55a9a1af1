-- ===== src/Portability.antt =====
-- crates/symbiotic-portability: checked interchange of records between applications.
pub mod Model
pub mod Checked
pub mod Checks
pub mod Artifacts
pub mod Bundles
pub mod Bytes
pub mod Tables
pub mod Scopes
pub mod Accepts
pub mod Paths
pub mod Streams
pub mod Presentations
pub mod Decode
