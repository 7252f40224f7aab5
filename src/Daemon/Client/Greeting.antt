-- ===== src/Daemon/Client/Greeting.antt =====
-- When the requests of crates/wiilandd/src/ipc/connection.rs make a connection negotiated.
use wiiland.Prelude.{
  ℕ, ◌≡◌, Bool, true, false, not, ◌&&◌, leb, ltb, List, [], ◌∷◌, if_cases, if_both,
}
use wiiland.Prelude.Lists.{length, All}
use wiiland.Prelude.Text.{Text}
use wiiland.Ipc.Frame.{ProtocolErrorCode, Result, ok, err, encode_frame, decode_frame}
use wiiland.Ipc.Protocol.{
  protocol_major, Subscription, all, input_events, device_events, Command, hello, ping, diagnostics,
  config, stop_capture, status, devices, unknown_command, start_capture, subscribe, unsubscribe,
  Request, ResponseResult, ServerMessage, response,
}
use wiiland.Daemon.Client.{
  max_queued_bytes, saturating_add, frame_budget, Client, new, queue_encoded, apply_subscriptions,
}
use wiiland.Daemon.Client.Requests.{
  Services, queue_result, queue, response_result, queue_response, close_with, greet, defer, limited,
  serve, handle_request, handle_frame,
}
use wiiland.Daemon.Client.Arrivals.{Arrived}

-- The command is a hello for the daemon's version of the protocol.
abbrev pub is_hello : Command → Bool
is_hello (hello min_major max_major) = leb min_major protocol_major && leb protocol_major max_major
is_hello ping = false
is_hello diagnostics = false
is_hello config = false
is_hello stop_capture = false
is_hello status = false
is_hello devices = false
is_hello unknown_command = false
is_hello (start_capture syspath) = false
is_hello (subscribe subscriptions) = false
is_hello (unsubscribe subscriptions) = false

abbrev pub asks_hello : Result Request → Bool
asks_hello (ok request) = is_hello request.command
asks_hello (err e) = false

module _ (services : Services) (texts : List (List ℕ)) where
  -- Among the bytes that arrived there is a frame that reads as such a hello.
  abbrev pub HasHello : Type 0
  HasHello =
      (frame : List ℕ) × Arrived texts frame
      × (asks_hello (decode_frame services.from_slice frame) ≡ true)

  -- What a connection has buffered did arrive, and only a hello makes it negotiated.
  pub record Facts (frames : List ℕ) (pending : List (List ℕ)) (negotiated : Bool) : Type 0 where
    pub buffer : Arrived texts frames
    pub waiting : All (Arrived texts) pending
    pub greeted : negotiated ≡ true → HasHello

  abbrev pub IsGreeted : Client → Type 0
  IsGreeted self = Facts self.frames self.pending_frames self.negotiated

  pub new-IsGreeted : IsGreeted new
  unfolding new
  new-IsGreeted = record { buffer = Arrived.nothing; waiting = tt; greeted = λ e. absurd cc }

  queue_encoded-IsGreeted :
      (self : Client) (bytes : List ℕ) → IsGreeted self → IsGreeted (queue_encoded self bytes).0
  unfolding queue_encoded
  queue_encoded-IsGreeted self bytes g =
      if_both (λ (r : Client × Bool). IsGreeted r.0)
        (ltb max_queued_bytes (saturating_add self.queued_bytes (length bytes))) _ _ g g

  queue_result-IsGreeted :
      (self : Client) (r : Result (List ℕ))
      → IsGreeted self
      → IsGreeted (queue_result services self r).0
  queue_result-IsGreeted self (ok bytes) g = queue_encoded-IsGreeted self bytes g
  queue_result-IsGreeted self (err e) g = g

  pub queue-IsGreeted :
      (self : Client) (message : ServerMessage)
      → IsGreeted self
      → IsGreeted (queue services self message).0
  unfolding queue
  queue-IsGreeted self message g =
      queue_result-IsGreeted self (encode_frame services.to_vec message) g

  pub queue_response-IsGreeted :
      (self : Client) (id : ℕ) (result : ResponseResult)
      → IsGreeted self
      → IsGreeted (queue_response services self id result).0
  unfolding queue_response
  queue_response-IsGreeted self id result g =
      by_result (encode_frame services.to_vec (response id result))
    where
      by_result : (r : Result (List ℕ)) → IsGreeted (response_result services self id r).0
      by_result (ok bytes) = queue_encoded-IsGreeted self bytes g
      by_result (err e) = queue-IsGreeted self _ g

  close_with-IsGreeted :
      (self : Client) (id : ℕ) (code : ProtocolErrorCode) (message : Text)
      → IsGreeted self
      → IsGreeted (close_with services self id code message)
  close_with-IsGreeted self id code message g = queue-IsGreeted self _ g

  apply_subscriptions-IsGreeted :
      (self : Client) (subscriptions : List Subscription) (enabled : Bool)
      → IsGreeted self
      → IsGreeted (apply_subscriptions self subscriptions enabled)
  unfolding apply_subscriptions
  apply_subscriptions-IsGreeted self [] enabled g = g
  apply_subscriptions-IsGreeted self (all ∷ rest) enabled g =
      apply_subscriptions-IsGreeted (record self { input = enabled; devices = enabled }) rest
        enabled g
  apply_subscriptions-IsGreeted self (input_events ∷ rest) enabled g =
      apply_subscriptions-IsGreeted (record self { input = enabled }) rest enabled g
  apply_subscriptions-IsGreeted self (device_events ∷ rest) enabled g =
      apply_subscriptions-IsGreeted (record self { devices = enabled }) rest enabled g

  defer-IsGreeted :
      (self : Client) (id : ℕ) (command : Command)
      → IsGreeted self
      → IsGreeted (defer services self id command)
  defer-IsGreeted self id command g =
      if_both IsGreeted (leb frame_budget (length self.commands)) _ _ g g

  greet-IsGreeted :
      (self : Client) (id : ℕ) (command : Command)
      → IsGreeted self
      → (is_hello command ≡ true → HasHello)
      → IsGreeted (greet services self id command)
  greet-IsGreeted self id (hello min_major max_major) g h =
      if_cases IsGreeted (leb min_major protocol_major && leb protocol_major max_major) _ _
        (λ t.
          queue_response-IsGreeted (record self { negotiated = true }) id _
            (record { buffer = g.buffer; waiting = g.waiting; greeted = λ e. h t }))
        (λ f. close_with-IsGreeted self id _ _ g)
  greet-IsGreeted self id ping g h = close_with-IsGreeted self id _ _ g
  greet-IsGreeted self id diagnostics g h = close_with-IsGreeted self id _ _ g
  greet-IsGreeted self id config g h = close_with-IsGreeted self id _ _ g
  greet-IsGreeted self id stop_capture g h = close_with-IsGreeted self id _ _ g
  greet-IsGreeted self id status g h = close_with-IsGreeted self id _ _ g
  greet-IsGreeted self id devices g h = close_with-IsGreeted self id _ _ g
  greet-IsGreeted self id unknown_command g h = close_with-IsGreeted self id _ _ g
  greet-IsGreeted self id (start_capture syspath) g h = close_with-IsGreeted self id _ _ g
  greet-IsGreeted self id (subscribe subscriptions) g h = close_with-IsGreeted self id _ _ g
  greet-IsGreeted self id (unsubscribe subscriptions) g h = close_with-IsGreeted self id _ _ g

  serve-IsGreeted :
      (self : Client) (id : ℕ) (command : Command)
      → IsGreeted self
      → IsGreeted (serve services self id command)
  serve-IsGreeted self id (hello min_major max_major) g = queue-IsGreeted self _ g
  serve-IsGreeted self id ping g = queue_response-IsGreeted self id _ g
  serve-IsGreeted self id status g = queue_response-IsGreeted self id _ g
  serve-IsGreeted self id devices g = queue_response-IsGreeted self id _ g
  serve-IsGreeted self id (subscribe subscriptions) g =
      queue_response-IsGreeted (apply_subscriptions self subscriptions true) id _
        (apply_subscriptions-IsGreeted self subscriptions true g)
  serve-IsGreeted self id (unsubscribe subscriptions) g =
      queue_response-IsGreeted (apply_subscriptions self subscriptions false) id _
        (apply_subscriptions-IsGreeted self subscriptions false g)
  serve-IsGreeted self id (start_capture syspath) g =
      if_both IsGreeted (limited services self syspath) _ _ (queue-IsGreeted self _ g)
        (defer-IsGreeted self id (start_capture syspath) g)
  serve-IsGreeted self id diagnostics g = defer-IsGreeted self id diagnostics g
  serve-IsGreeted self id config g = defer-IsGreeted self id config g
  serve-IsGreeted self id stop_capture g = defer-IsGreeted self id stop_capture g
  serve-IsGreeted self id unknown_command g = queue-IsGreeted self _ g

  pub handle_frame-IsGreeted :
      (self : Client) (frame : List ℕ)
      → IsGreeted self
      → Arrived texts frame
      → IsGreeted (handle_frame services self frame)
  unfolding handle_frame
  handle_frame-IsGreeted self frame g a =
      by_request (decode_frame services.from_slice frame) (λ e. (frame, a, e))
    where
      by_request :
          (r : Result Request)
          → (asks_hello r ≡ true → HasHello)
          → IsGreeted (handle_request services self r)
      by_request (err e) h = queue-IsGreeted self _ g
      by_request (ok request) h =
          if_both IsGreeted (not self.negotiated) _ _
            (greet-IsGreeted self request.id request.command g h)
            (serve-IsGreeted self request.id request.command g)
