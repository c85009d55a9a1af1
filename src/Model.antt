-- ===== src/Model.antt =====
-- crates/symbiotic-model: what a model call answers when it fails.
pub mod Errors
pub mod Attribution
