-- ===== src/Mapping.antt =====
-- crates/wiiland-core/src/mapping.rs: integer-only mapping of Wii input to evdev codes and values.
pub mod Constants
pub mod Codes
pub mod Scale
pub mod Motion
pub mod Keys
