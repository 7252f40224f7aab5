-- ===== src/Daemon/Server/History.antt =====
-- Every history of a connection of crates/wiilandd/src/ipc keeps its counts and limits.
use wiiland.Prelude.Text.{Text}
use wiiland.Daemon.Client.{Client}
