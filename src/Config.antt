-- ===== src/Config.antt =====
-- crates/wiiland-core/src/config.rs: the configuration, its validation and its text form.
pub mod Types
pub mod Names
pub mod Rules
pub mod Lines
pub mod Validate
