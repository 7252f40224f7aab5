-- ===== src/Daemon/Client.antt =====
-- A connection of the daemon, crates/wiilandd/src/ipc/connection.rs, less its socket.
pub mod Requests
pub mod Reads
pub mod Keeps
pub mod Answers
pub mod Loops
pub mod Writes
pub mod Arrivals
pub mod Greeting
pub mod Greeted
use wiiland.Prelude.{
  ℕ, zero, suc, ◌+◌, ◌-◌, ◌^◌, min, Bool, true, false, not, ◌&&◌, ◌||◌, ◌==◌, ltb, leb, List, [],
  ◌∷◌, ◌++◌, Option, none, some, if◌then◌else◌,
}
use wiiland.Prelude.Lists.{length}
use wiiland.Prelude.Text.{Text, codes, eq_text}
use wiiland.Ipc.Frame.{
  ProtocolErrorCode, unsupported_version, invalid_request, internal, ProtocolError, Result, ok, err,
  Serde, encode_frame, decode_frame,
}
use wiiland.Ipc.Protocol.{
  unknown_command, protocol_major, protocol_minor, max_capture_devices, Status, DeviceInfo,
  Subscription, all, input_events, device_events, Command, hello, ping, diagnostics, config,
  stop_capture, status, devices, start_capture, subscribe, unsubscribe, Request, ResponseResult,
  hello_done, pong, subscribed, unsubscribed, status_report, device_list, Notification,
  device_added, device_removed, input, unsupported, ServerMessage, response, error,
}

abbrev pub max_queued_bytes : ℕ
max_queued_bytes = 262144

abbrev pub frame_budget : ℕ
frame_budget = 8

abbrev pub write_budget : ℕ
write_budget = 65536

pub record Pending : Type 0 where
  pub bytes : List ℕ
  pub offset : ℕ

-- The buffered bytes of the frame buffer are `frames`.
pub record Client : Type 0 where
  pub frames : List ℕ
  pub pending_frames : List (List ℕ)
  pub output : List Pending
  pub queued_bytes : ℕ
  pub negotiated : Bool
  pub immediate_close : Bool
  pub closing : Bool
  pub input : Bool
  pub devices : Bool
  pub commands : List (ℕ × Command)
  pub capture : List Text

pub new : Client
new = record {
  frames = [];
  pending_frames = [];
  output = [];
  queued_bytes = 0;
  negotiated = false;
  immediate_close = false;
  closing = false;
  input = false;
  devices = false;
  commands = [];
  capture = [];
}

unfoldable pub wants : Client → Notification → Bool
wants self (input sequence syspath timestamp payload) = self.input
wants self (device_added sequence device) = self.devices
wants self (device_removed sequence syspath reason) = self.devices
wants self unsupported = false

-- `usize::saturating_add`.
abbrev pub saturating_add : ℕ → ℕ → ℕ
saturating_add a b = min (a + b) (2 ^ 64 - 1)

unfoldable pub queue_encoded : Client → List ℕ → Client × Bool
queue_encoded self bytes =
    if ltb max_queued_bytes (saturating_add self.queued_bytes (length bytes))
    then (record self { immediate_close = true }, false)
    else (
      record self {
        queued_bytes = self.queued_bytes + length bytes;
        output = self.output ++ record { bytes = bytes; offset = 0 } ∷ [];
      },
      true,
    )

unfoldable pub protocol_error : ProtocolErrorCode → Text → ProtocolError
protocol_error code message = record { code = code; message = message }

pub apply_subscriptions : Client → List Subscription → Bool → Client
apply_subscriptions client [] enabled = client
apply_subscriptions client (all ∷ subscriptions) enabled =
    apply_subscriptions (record client { input = enabled; devices = enabled }) subscriptions enabled
apply_subscriptions client (input_events ∷ subscriptions) enabled =
    apply_subscriptions (record client { input = enabled }) subscriptions enabled
apply_subscriptions client (device_events ∷ subscriptions) enabled =
    apply_subscriptions (record client { devices = enabled }) subscriptions enabled

unfoldable pub contains_path : List Text → Text → Bool
contains_path [] path = false
contains_path (p ∷ paths) path = eq_text p path || contains_path paths path

-- A call of `write` on the socket: it takes at most so many of the bytes, or it fails.
pub data Write : Type 0 where
  takes : ℕ → Write
  would_block fails : Write

abbrev pub advance : Client → Pending → List Pending → ℕ → Client
advance self front rest written = record self {
  queued_bytes = self.queued_bytes - written;
  output =
      (if front.offset + written == length front.bytes
        then rest
        else record front { offset = front.offset + written } ∷ rest);
}

-- One write of the loop, with the bytes of the front that fit in the budget.
abbrev pub offered : Pending → ℕ → ℕ
offered front budget = min (length front.bytes - front.offset) budget

abbrev pub write_front :
    (ℕ → Client → Client × Bool) → Client → ℕ → Pending → List Pending → Write → Client × Bool
write_front again self budget front rest would_block = (self, true)
write_front again self budget front rest fails = (record self { closing = true }, false)
write_front again self budget front rest (takes n) =
    let written = min n (offered front budget) in
    let later = again (budget - written) (advance self front rest written) in
    if written == 0 then (record self { closing = true }, false) else later

abbrev pub write_round :
    (ℕ → Client → Client × Bool) → Client → ℕ → Write → List Pending → Client × Bool
write_round again self budget w [] = (self, true)
write_round again self budget w (front ∷ rest) =
    if budget == 0 then (self, true) else write_front again self budget front rest w

-- Until the budget or the output is used up; the socket takes no more after the writes that are given.
pub write_loop : List Write → ℕ → Client → Client × Bool
write_loop [] budget self = (self, true)
write_loop (w ∷ writes) budget self = write_round (write_loop writes) self budget w self.output

pub write_ready : List Write → Client → Client × Bool
write_ready writes self = write_loop writes write_budget self
