-- ===== src/Daemon/Server.antt =====
-- The connections of the daemon's server, crates/wiilandd/src/ipc/mod.rs, less its sockets.
pub mod Acts
pub mod Greeted
pub mod History
use wiiland.Prelude.{
  ℕ, ◌+◌, Bool, true, false, not, ◌&&◌, ◌||◌, ◌==◌, ltb, leb, List, [], ◌∷◌, ◌++◌, Option, none,
  some, map, if◌then◌else◌,
}
use wiiland.Prelude.Lists.{length, any}
use wiiland.Prelude.Text.{Text, codes}
use wiiland.Ipc.Frame.{ProtocolError, invalid_request, Result, ok, err, encode_frame}
use wiiland.Ipc.Protocol.{
  max_capture_devices, Command, ResponseResult, hello_done, pong, capture_stopped, subscribed,
  unsubscribed, diagnostics_report, config_text, capture_started, status_report, device_list,
  Notification, ServerMessage, notification, error,
}
use wiiland.Daemon.Client.{
  max_queued_bytes, Pending, Client, wants, saturating_add, contains_path, protocol_error, Write,
  write_ready,
}
use wiiland.Daemon.Client.Requests.{Services, queue, queue_error, respond}
use wiiland.Daemon.Client.Reads.{Read, read_client}

-- The connections by their tokens, in the order that the map has them.
abbrev Clients : Type 0
Clients = List (ℕ × Client)

abbrev pub is_open : Client → Bool
is_open client = not client.closing && not client.immediate_close

unfoldable has_input_subscribers : Clients → Bool
has_input_subscribers clients =
    any (λ (c : ℕ × Client). c.1.negotiated && c.1.input && is_open c.1) clients

-- The requests of `poll_sources` for one connection: to read and to write.
unfoldable poll_events : Client → Bool × Bool
poll_events client = (
  is_open client,
  not client.immediate_close
      && (not (length client.output == 0) || not (length client.pending_frames == 0)),
)

abbrev tagged : ℕ → List (ℕ × Command) → List (ℕ × ℕ × Command)
tagged token [] = []
tagged token (c ∷ commands) = (token, c.0, c.1) ∷ tagged token commands

abbrev pub drained : Client → Client
drained client = if is_open client then record client { commands = [] } else client

unfoldable take_commands : Clients → Clients × List (ℕ × ℕ × Command)
take_commands [] = ([], [])
take_commands ((token, client) ∷ clients) =
    let later = take_commands clients in
    (
      (token, drained client) ∷ later.0,
      (if is_open client then tagged token client.commands else []) ++ later.1,
    )

unfoldable capture_paths : Clients → List Text
capture_paths [] = []
capture_paths ((token, client) ∷ clients) =
    (if is_open client then client.capture else []) ++ capture_paths clients

module _ (services : Services) where
  abbrev pub over_limit : Client → ResponseResult → Bool
  over_limit client (capture_started info) =
      leb max_capture_devices (length client.capture)
      && not (contains_path client.capture info.syspath)
  over_limit client _ = false

  abbrev pub captured : Client → ResponseResult → Client
  captured client (capture_started info) =
      if contains_path client.capture info.syspath
      then client
      else record client { capture = client.capture ++ info.syspath ∷ [] }
  captured client capture_stopped = record client { capture = [] }
  captured client _ = client

  -- `complete_command` for the connection of its token.
  pub complete : Client → ℕ → Result ResponseResult → Client
  complete client id (ok result) =
      if over_limit client result
      then queue_error services client (some id) invalid_request
          (codes "capture device limit reached")
      else respond services (captured client result) id result
  complete client id (err e) = (queue services client (error (some id) e)).0

  complete_command : Clients → ℕ → ℕ → Result ResponseResult → Clients
  unfolding complete
  complete_command [] token id result = []
  complete_command ((t, client) ∷ clients) token id result =
      if t == token
      then (t, complete client id result) ∷ clients
      else (t, client) ∷ complete_command clients token id result

  -- The connections that a notification is for.
  abbrev pub receives : Notification → Client → Bool
  receives note client = client.negotiated && (is_open client && wants client note)

  abbrev pub deliver : List ℕ → Client → Client
  deliver frame client =
      if ltb max_queued_bytes (saturating_add client.queued_bytes (length frame))
      then record client { immediate_close = true }
      else record client {
        queued_bytes = client.queued_bytes + length frame;
        output = client.output ++ record { bytes = frame; offset = 0 } ∷ [];
      }

  abbrev pub notify : Notification → List ℕ → Client → Client
  notify note frame client = if receives note client then deliver frame client else client

  -- With `retain`: a connection that closes at once is dropped.
  notify_all : Notification → List ℕ → Clients → Clients
  notify_all note frame [] = []
  notify_all note frame ((token, client) ∷ clients) =
      let later = notify_all note frame clients in
      if (notify note frame client).immediate_close
      then later
      else (token, notify note frame client) ∷ later

  abbrev publish_frame : Notification → Clients → Result (List ℕ) → Clients
  publish_frame note clients (err e) = clients
  publish_frame note clients (ok frame) = notify_all note frame clients

  publish : Notification → Clients → Clients
  unfolding notify_all
  publish note clients =
      publish_frame note clients (encode_frame services.to_vec (notification note))

  abbrev pub after_read : Bool → List Read → Client → Client × Bool
  after_read readable reads client =
      if is_open client && (readable || not (length client.pending_frames == 0))
      then read_client services reads client
      else (client, true)

  abbrev pub after_write : Bool → List Write → Client × Bool → Client × Bool
  after_write writable writes (client, kept) =
      let wrote = write_ready writes client in
      if kept && (not client.immediate_close && (writable || not (length client.output == 0)))
      then wrote
      else (client, kept && not client.immediate_close)

  -- `handle_ready` for a connection: whether it stays.
  pub serve_ready : Bool → Bool → List Read → List Write → Client → Client × Bool
  serve_ready readable writable reads writes client =
      let r = after_write writable writes (after_read readable reads client) in
      (r.0, r.1 && not (r.0.immediate_close || (r.0.closing && (length r.0.output == 0))))
