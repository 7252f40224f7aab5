-- ===== src/Daemon.antt =====
-- crates/wiilandd: the daemon's connections and its bridge from devices to engines.
pub mod Client
pub mod Server
pub mod Bridge
pub mod Report
pub mod Runtime
