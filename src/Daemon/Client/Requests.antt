-- ===== src/Daemon/Client/Requests.antt =====
-- The requests of a connection, `handle_frame` of crates/wiilandd/src/ipc/connection.rs.
use wiiland.Prelude.{
  ℕ, Bool, true, false, not, ◌&&◌, leb, List, [], ◌∷◌, ◌++◌, Option, none, some, if◌then◌else◌,
}
use wiiland.Prelude.Lists.{length}
use wiiland.Prelude.Text.{Text, codes}
use wiiland.Ipc.Frame.{
  ProtocolErrorCode, unsupported_version, invalid_request, internal, Result, ok, err, Serde,
  encode_frame, decode_frame,
}
use wiiland.Ipc.Protocol.{
  unknown_command, protocol_major, protocol_minor, max_capture_devices, Status, DeviceInfo, Command,
  hello, ping, diagnostics, config, stop_capture, status, devices, start_capture, subscribe,
  unsubscribe, Request, ResponseResult, hello_done, pong, subscribed, unsubscribed, status_report,
  device_list, ServerMessage, response, error,
}
use wiiland.Daemon.Client.{
  frame_budget, Client, queue_encoded, protocol_error, apply_subscriptions, contains_path,
}

-- What the connection uses of the rest: JSON, the daemon's version, and the runtime's snapshots.
pub record Services : Type 0 where
  pub to_vec : ServerMessage → Serde (List ℕ)
  pub from_slice : List ℕ → Serde Request
  pub daemon_version : Text
  pub current_status : Status
  pub current_devices : List DeviceInfo

module _ (services : Services) where
  abbrev pub queue_result : Client → Result (List ℕ) → Client × Bool
  queue_result self (ok bytes) = queue_encoded self bytes
  queue_result self (err e) = (record self { immediate_close = true }, false)

  unfoldable pub queue : Client → ServerMessage → Client × Bool
  queue self message = queue_result self (encode_frame services.to_vec message)

  abbrev pub queue_error : Client → Option ℕ → ProtocolErrorCode → Text → Client
  queue_error self id code message = (queue self (error id (protocol_error code message))).0

  abbrev pub response_result : Client → ℕ → Result (List ℕ) → Client × Bool
  response_result self id (ok bytes) = queue_encoded self bytes
  response_result self id (err e) = queue self (
      error (some id)
        (protocol_error internal (codes "response exceeds the maximum IPC frame size")))

  unfoldable pub queue_response : Client → ℕ → ResponseResult → Client × Bool
  queue_response self id result =
      response_result self id (encode_frame services.to_vec (response id result))

  abbrev pub respond : Client → ℕ → ResponseResult → Client
  respond self id result = (queue_response self id result).0

  abbrev pub close_with : Client → ℕ → ProtocolErrorCode → Text → Client
  close_with self id code message = record (queue_error self (some id) code message) {
    closing = true;
  }

  -- The first request of a connection.
  abbrev pub greet : Client → ℕ → Command → Client
  greet client id (hello min_major max_major) =
      if leb min_major protocol_major && leb protocol_major max_major
      then respond (record client { negotiated = true }) id
          (hello_done protocol_major protocol_minor services.daemon_version)
      else close_with client id unsupported_version (codes "unsupported protocol version")
  greet client id _ = close_with client id invalid_request (codes "first request must be hello")

  -- A command for the runtime.
  abbrev pub defer : Client → ℕ → Command → Client
  defer client id command =
      if leb frame_budget (length client.commands)
      then record client { immediate_close = true }
      else record client { commands = client.commands ++ (id, command) ∷ [] }

  abbrev pub limited : Client → Text → Bool
  limited client syspath =
      leb max_capture_devices (length client.capture) && not (contains_path client.capture syspath)

  -- A request after the first.
  abbrev pub serve : Client → ℕ → Command → Client
  serve client id (hello min_major max_major) =
      queue_error client (some id) invalid_request (codes "hello was already completed")
  serve client id ping = respond client id pong
  serve client id status = respond client id (status_report services.current_status)
  serve client id devices = respond client id (device_list services.current_devices)
  serve client id (subscribe subscriptions) =
      respond (apply_subscriptions client subscriptions true) id subscribed
  serve client id (unsubscribe subscriptions) =
      respond (apply_subscriptions client subscriptions false) id unsubscribed
  serve client id (start_capture syspath) =
      if limited client syspath
      then queue_error client (some id) invalid_request
          (codes "capture device limit reached; stop capture before selecting new devices")
      else defer client id (start_capture syspath)
  serve client id diagnostics = defer client id diagnostics
  serve client id config = defer client id config
  serve client id stop_capture = defer client id stop_capture
  serve client id unknown_command =
      queue_error client (some id) ProtocolErrorCode.unknown_command (codes "unknown command")

  abbrev pub handle_request : Client → Result Request → Client
  handle_request client (err e) = (queue client (error none e)).0
  handle_request client (ok request) =
      if not client.negotiated
      then greet client request.id request.command
      else serve client request.id request.command

  unfoldable pub handle_frame : Client → List ℕ → Client
  handle_frame client frame = handle_request client (decode_frame services.from_slice frame)
