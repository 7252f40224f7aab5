-- ===== src/Lib.antt =====
-- wiiland turns a Nintendo Wii Remote into virtual Linux input devices. The kernel's events are
-- decoded by crates/wiiland-hid; the daemon crates/wiilandd forwards the reports to the engine of
-- crates/wiiland-core, which answers each with the key, axis and relative actions that the daemon
-- writes to virtual devices; and clients follow the daemon over the protocol of crates/wiiland-ipc.
--
-- Which file models which part (paths from the repository's root):
--   Input: crates/wiiland-core/src/input.rs, the buttons, their numbers and the input sources.
--   Mapping: crates/wiiland-core/src/mapping.rs, the tables of codes (Mapping/Constants,
--     Mapping/Codes), the scales (Mapping/Scale) and `map_motion` (Mapping/Motion).
--   Config: crates/wiiland-core/src/config.rs, the record and its options (Config/Types), their names
--     (Config/Names), device rules (Config/Rules), `apply_line` (Config/Lines) and `validate`
--     (Config/Validate).
--   Calibration: crates/wiiland-core/src/calibration.rs, `CalibrationStats`.
--   Pointer: crates/wiiland-core/src/pointer.rs, `PointerState`; Pointer/Select has
--     `select_ir_point`.
--   Aim: crates/wiiland-core/src/aim.rs, `AimState`; its data is in Aim/State.
--   Engine: crates/wiiland-core/src/engine.rs, `DeviceEngine`; its data is in Engine/State.
--   Trace: crates/wiiland-core/src/trace.rs, event kinds and filters.
--   Hid: crates/wiiland-hid/src/model.rs (Hid/Codes, Hid/Model) and decode.rs: the keys and axes of
--     each interface (Hid/Keys, Hid/Axes), `MotionPlusNormalizer` (Hid/Normalizer), `RecoveryState`
--     (Hid/Recovery) and `Decoder` (Hid/Decoder).
--   Ipc: crates/wiiland-ipc/src/protocol.rs, frames (Ipc/Frame) and messages (Ipc/Protocol), and
--     session.rs, the event queue, the completion and `select_devices` (Ipc/Session).
--   Daemon: crates/wiilandd/src/ipc/connection.rs (Daemon/Client) and mod.rs (Daemon/Server),
--     crates/wiilandd/src/bridge.rs (Daemon/Bridge), the messages that
--     crates/wiilandd/src/runtime.rs makes of reports (Daemon/Runtime), and the arguments of the
--     hardware report in crates/wiilandd/src/report.rs (Daemon/Report).
--   Prelude: shared lists, Boolean tests, integers, widths, masks and texts; Tests: concrete runs.
--
-- How they interact: a decoder turns raw events into reports of its interface; the bridge forwards the
-- reports of the interfaces that the profile requests, as inputs, and writes the actions that come
-- back. `DeviceEngine::process` takes one input, updates the masks of held buttons, asks Mapping for
-- codes and values, Pointer for a relative motion and Aim for a vector. A connection buffers bytes into
-- frames, decodes them into requests, and queues the encoded answers. Here a handler returns the new
-- state together with what the source appends to a buffer or writes to a device.
--
-- How state corresponds: a struct is a record with the source's field names, an enum is a data type.
-- `[u32; 6]` is a function of the source that is read at `index` and changed by `write`; `[IrPoint; 4]`
-- and `[Abs3; 8]` are records; the arrays of the decoder and of the wire are lists, and so are queues,
-- sets of paths and the map of connections. An `i32`, `u32` or `i64` keeps its wrap-around
-- (Prelude/Width); text is the list of its bytes. A slice whose start is past its end is an outcome of
-- its own, `panicked`. What the kernel, a socket or the JSON library answers is an argument.
--
-- Bounds: a coordinate of an IR point lies within 2 ^ 30, far above a camera's 1023, so that sums of
-- four and squared distances stay exact; a calibration window has fewer than 2 ^ 32 samples, the range
-- of its counter. `push_loop` has the length of its input as fuel, `poll` and the draining of keys have
-- counts that their theorems show to be enough; the daemon's loops have the source's own budgets.
--
-- Not modelled: `Config::apply_bytes` (its split into lines and its UTF-8 test), `dump`, and the
-- formatting of traces and errors; the JSON forms of the messages, which serde derives; the opening of
-- devices, sockets and files, the allocation of tokens, and the slots and loops of the daemon's runtime, the text of its report and its command
-- line; the editor, the monitor and the tools. `Backend` of the configuration has one value and is
-- left out.
pub mod Prelude
pub mod Input
pub mod Mapping
pub mod Config
pub mod Calibration
pub mod Pointer
pub mod Aim
pub mod Engine
pub mod Hid
pub mod Ipc
pub mod Daemon
pub mod Trace
pub mod Tests
