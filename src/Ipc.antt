-- ===== src/Ipc.antt =====
-- crates/wiiland-ipc: the wire format and the session of a client.
pub mod Frame
pub mod Protocol
pub mod Session
