-- ===== src/Daemon/Client/Answers.antt =====
-- The requests of a connection of crates/wiilandd/src/ipc/connection.rs keep what it keeps.
use wiiland.Prelude.{
  ℕ, ◌≡◌, refl, arith, true, false, not, ◌&&◌, leb, List, [], ◌∷◌, ◌++◌, inl, some, if_cases,
  if_both,
}
use wiiland.Prelude.Lists.{length, length-append}
use wiiland.Prelude.Text.{Text}
use wiiland.Ipc.Frame.{ProtocolErrorCode, Result, ok, err, encode_frame, decode_frame}
use wiiland.Ipc.Protocol.{
  protocol_major, Command, hello, ping, diagnostics, config, stop_capture, status, devices,
  unknown_command, start_capture, subscribe, unsubscribe, Request, ResponseResult, ServerMessage,
  response,
}
use wiiland.Daemon.Client.{frame_budget, Client, apply_subscriptions}
use wiiland.Daemon.Client.Requests.{
  Services, queue_result, queue, queue_error, response_result, queue_response, close_with, greet,
  defer, limited, serve, handle_request, handle_frame,
}
use wiiland.Daemon.Client.Keeps.{
  IsClient, with_close-IsClient, queue_encoded-IsClient, apply_subscriptions-IsClient,
}

module _ (services : Services) where
  queue_result-IsClient :
      (self : Client) (r : Result (List ℕ))
      → IsClient self
      → IsClient (queue_result services self r).0
  queue_result-IsClient self (ok bytes) c = queue_encoded-IsClient self bytes c
  queue_result-IsClient self (err e) c = with_close-IsClient self true self.closing c

  pub queue-IsClient :
      (self : Client) (message : ServerMessage)
      → IsClient self
      → IsClient (queue services self message).0
  unfolding queue
  queue-IsClient self message c =
      queue_result-IsClient self (encode_frame services.to_vec message) c

  pub queue_response-IsClient :
      (self : Client) (id : ℕ) (result : ResponseResult)
      → IsClient self
      → IsClient (queue_response services self id result).0
  unfolding queue_response
  queue_response-IsClient self id result c =
      by_result (encode_frame services.to_vec (response id result))
    where
      by_result : (r : Result (List ℕ)) → IsClient (response_result services self id r).0
      by_result (ok bytes) = queue_encoded-IsClient self bytes c
      by_result (err e) = queue-IsClient self _ c

  close_with-IsClient :
      (self : Client) (id : ℕ) (code : ProtocolErrorCode) (message : Text)
      → IsClient self
      → IsClient (close_with services self id code message)
  close_with-IsClient self id code message c =
      with_close-IsClient (queue_error services self (some id) code message)
        (queue_error services self (some id) code message).immediate_close true
        (queue-IsClient self _ c)

  defer-IsClient :
      (self : Client) (id : ℕ) (command : Command)
      → IsClient self
      → self.negotiated ≡ true
      → IsClient (defer services self id command)
  defer-IsClient self id command c n =
      if_cases IsClient (leb frame_budget (length self.commands))
        (record self { immediate_close = true })
        (record self { commands = self.commands ++ (id, command) ∷ [] })
        (λ t. with_close-IsClient self true self.closing c) (λ f. deferred f)
    where
      deferred :
          leb frame_budget (length self.commands) ≡ false
          → IsClient (record self { commands = self.commands ++ (id, command) ∷ [] })
      deferred f = record {
        counted = c.counted;
        bounded = c.bounded;
        offsets = c.offsets;
        few = ground (arith, length-append self.commands ((id, command) ∷ []));
        captures = c.captures;
        idle = inl n;
      }

  greet-IsClient :
      (self : Client) (id : ℕ) (command : Command)
      → IsClient self
      → IsClient (greet services self id command)
  greet-IsClient self id (hello min_major max_major) c =
      if_both IsClient (leb min_major protocol_major && leb protocol_major max_major) _ _
        (queue_response-IsClient (record self { negotiated = true }) id _
          (record {
            counted = c.counted;
            bounded = c.bounded;
            offsets = c.offsets;
            few = c.few;
            captures = c.captures;
            idle = inl refl;
          }))
        (close_with-IsClient self id _ _ c)
  greet-IsClient self id ping c = close_with-IsClient self id _ _ c
  greet-IsClient self id diagnostics c = close_with-IsClient self id _ _ c
  greet-IsClient self id config c = close_with-IsClient self id _ _ c
  greet-IsClient self id stop_capture c = close_with-IsClient self id _ _ c
  greet-IsClient self id status c = close_with-IsClient self id _ _ c
  greet-IsClient self id devices c = close_with-IsClient self id _ _ c
  greet-IsClient self id unknown_command c = close_with-IsClient self id _ _ c
  greet-IsClient self id (start_capture syspath) c = close_with-IsClient self id _ _ c
  greet-IsClient self id (subscribe subscriptions) c = close_with-IsClient self id _ _ c
  greet-IsClient self id (unsubscribe subscriptions) c = close_with-IsClient self id _ _ c

  serve-IsClient :
      (self : Client) (id : ℕ) (command : Command)
      → IsClient self
      → self.negotiated ≡ true
      → IsClient (serve services self id command)
  serve-IsClient self id (hello min_major max_major) c n = queue-IsClient self _ c
  serve-IsClient self id ping c n = queue_response-IsClient self id _ c
  serve-IsClient self id status c n = queue_response-IsClient self id _ c
  serve-IsClient self id devices c n = queue_response-IsClient self id _ c
  serve-IsClient self id (subscribe subscriptions) c n =
      queue_response-IsClient (apply_subscriptions self subscriptions true) id _
        (apply_subscriptions-IsClient self subscriptions true c n)
  serve-IsClient self id (unsubscribe subscriptions) c n =
      queue_response-IsClient (apply_subscriptions self subscriptions false) id _
        (apply_subscriptions-IsClient self subscriptions false c n)
  serve-IsClient self id (start_capture syspath) c n =
      if_both IsClient (limited services self syspath) _ _ (queue-IsClient self _ c)
        (defer-IsClient self id (start_capture syspath) c n)
  serve-IsClient self id diagnostics c n = defer-IsClient self id diagnostics c n
  serve-IsClient self id config c n = defer-IsClient self id config c n
  serve-IsClient self id stop_capture c n = defer-IsClient self id stop_capture c n
  serve-IsClient self id unknown_command c n = queue-IsClient self _ c

  pub handle_frame-IsClient :
      (self : Client) (frame : List ℕ) → IsClient self → IsClient (handle_frame services self frame)
  unfolding handle_frame
  handle_frame-IsClient self frame c = by_request (decode_frame services.from_slice frame)
    where
      by_request : (r : Result Request) → IsClient (handle_request services self r)
      by_request (err e) = queue-IsClient self _ c
      by_request (ok request) =
          if_cases IsClient (not self.negotiated) (greet services self request.id request.command)
            (serve services self request.id request.command)
            (λ t. greet-IsClient self request.id request.command c)
            (λ f. serve-IsClient self request.id request.command c (ground arith))
