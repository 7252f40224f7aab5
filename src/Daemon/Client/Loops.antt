-- ===== src/Daemon/Client/Loops.antt =====
-- The loops of crates/wiilandd/src/ipc/connection.rs keep what a connection keeps.
use wiiland.Prelude.{ℕ, zero, suc, Bool, true, ◌||◌, ltb, List, [], ◌∷◌, ◌++◌, if_both}
use wiiland.Prelude.Lists.{length}
use wiiland.Ipc.Frame.{ok, err, Pushed, push}
use wiiland.Daemon.Client.{frame_budget, Client}
use wiiland.Daemon.Client.Requests.{Services, handle_frame}
use wiiland.Daemon.Client.Reads.{
  Read, chunk, end_of_stream, would_block, fails, process_round, process_pending, pauses, received,
  read_loop, read_client, read_chunk, read_budget,
}
use wiiland.Daemon.Client.Keeps.{IsClient}
use wiiland.Daemon.Client.Answers.{queue-IsClient, handle_frame-IsClient}

with_frames-IsClient :
    (self : Client) (frames : List ℕ) (pending : List (List ℕ)) (closing : Bool)
    → IsClient self
    → IsClient (record self { frames = frames; pending_frames = pending; closing = closing })
with_frames-IsClient self frames pending closing c = record {
  counted = c.counted;
  bounded = c.bounded;
  offsets = c.offsets;
  few = c.few;
  captures = c.captures;
  idle = c.idle;
}

module _ (services : Services) where
  process_pending-IsClient :
      (budget : ℕ) (self : Client)
      → IsClient self
      → IsClient (process_pending services budget self).0
  unfolding process_pending
  process_pending-IsClient zero self c = c
  process_pending-IsClient (suc budget) self c =
      by_frames self.pending_frames (λ next k. process_pending-IsClient budget next k)
    where
      by_frames :
          (frames : List (List ℕ))
          → ((next : Client) → IsClient next → IsClient (process_pending services budget next).0)
          → IsClient (process_round services (process_pending services budget) self budget frames).0
      by_frames [] more = c
      by_frames (frame ∷ frames) more =
          let handled =
            handle_frame-IsClient services (record self { pending_frames = frames }) frame
              (with_frames-IsClient self self.frames frames self.closing c) in
          if_both (λ (r : Client × ℕ). IsClient r.0)
            ((handle_frame services (record self { pending_frames = frames }) frame).closing
              || (handle_frame services (record self { pending_frames = frames })
                  frame).immediate_close)
            (handle_frame services (record self { pending_frames = frames }) frame, budget)
            (process_pending services budget
              (handle_frame services (record self { pending_frames = frames }) frame))
            handled
            (more (handle_frame services (record self { pending_frames = frames }) frame) handled)

  received-IsClient :
      (again : ℕ → Client → Client × Bool) (self : Client) (budget size : ℕ) (p : Pushed)
      → IsClient self
      → ((budget : ℕ) (next : Client) → IsClient next → IsClient (again budget next).0)
      → IsClient (received services again self budget size p).0
  received-IsClient again self budget size (rest, err e) c more =
      queue-IsClient services (record self { frames = rest; closing = true }) _
        (with_frames-IsClient self rest self.pending_frames true c)
  received-IsClient again self budget size (rest, ok frames) c more =
      if_both (λ (r : Client × Bool). IsClient r.0)
        (pauses services (process_pending services budget start) || ltb size read_chunk)
        ((process_pending services budget start).0, true)
        (again (process_pending services budget start).1 (process_pending services budget start).0)
        handled
        (more (process_pending services budget start).1 (process_pending services budget start).0
          handled)
    where
      start : Client
      start = record self { frames = rest; pending_frames = self.pending_frames ++ frames }

      handled : IsClient (process_pending services budget start).0
      handled =
          process_pending-IsClient budget start
            (with_frames-IsClient self rest (self.pending_frames ++ frames) self.closing c)

  read_loop-IsClient :
      (n : ℕ) (reads : List Read) (budget : ℕ) (self : Client)
      → IsClient self
      → IsClient (read_loop services n reads budget self).0
  unfolding read_loop
  read_loop-IsClient zero reads budget self c = c
  read_loop-IsClient (suc n) [] budget self c = c
  read_loop-IsClient (suc n) (chunk text ∷ reads) budget self c =
      received-IsClient (read_loop services n reads) self budget (length text)
        (push self.frames text) c (λ b next k. read_loop-IsClient n reads b next k)
  read_loop-IsClient (suc n) (end_of_stream ∷ reads) budget self c = c
  read_loop-IsClient (suc n) (would_block ∷ reads) budget self c = c
  read_loop-IsClient (suc n) (fails ∷ reads) budget self c = c

  pub read_client-IsClient :
      (reads : List Read) (self : Client)
      → IsClient self
      → IsClient (read_client services reads self).0
  unfolding read_client
  read_client-IsClient reads self c =
      if_both (λ (r : Client × Bool). IsClient r.0)
        (pauses services (process_pending services frame_budget self))
        ((process_pending services frame_budget self).0, true)
        (read_loop services read_budget reads (process_pending services frame_budget self).1
          (process_pending services frame_budget self).0)
        (process_pending-IsClient frame_budget self c)
        (read_loop-IsClient read_budget reads (process_pending services frame_budget self).1
          (process_pending services frame_budget self).0
          (process_pending-IsClient frame_budget self c))
