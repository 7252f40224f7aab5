-- ===== src/Hid.antt =====
-- crates/wiiland-hid: decoding of the kernel's input events.
pub mod Codes
pub mod Model
pub mod Keys
pub mod Axes
pub mod Normalizer
pub mod Recovery
pub mod Decoder
