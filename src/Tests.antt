-- ===== src/Tests.antt =====
-- Runs at concrete inputs, at which the properties' hypotheses hold.
pub mod Engine
pub mod Sensors
pub mod Options
pub mod Hid
pub mod Ipc
pub mod Daemon
