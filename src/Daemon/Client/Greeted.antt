-- ===== src/Daemon/Client/Greeted.antt =====
-- The loops of crates/wiilandd/src/ipc/connection.rs make no connection negotiated without a hello.
use mathlib.Core.List.{Memᴰ}
use wiiland.Prelude.{
  ℕ, zero, suc, ◌-◌, refl, min, Bool, true, false, ◌||◌, ◌==◌, ltb, List, [], ◌∷◌, ◌++◌, if_both,
}
use wiiland.Prelude.Lists.{length, All, All-append}
use wiiland.Ipc.Frame.{ok, err, Pushed, push}
use wiiland.Daemon.Client.{
  frame_budget, write_budget, Pending, Client, Write, takes, would_block, fails, advance, offered,
  write_front, write_round, write_loop, write_ready,
}
use wiiland.Daemon.Client.Requests.{Services, handle_frame}
use wiiland.Daemon.Client.Reads.{
  Read, chunk, end_of_stream, process_round, process_pending, pauses, received, read_loop,
  read_client, read_chunk, read_budget,
}
use wiiland.Daemon.Client.Arrivals.{Arrived, AllArrived, push-AllArrived}
use wiiland.Daemon.Client.Greeting.{IsGreeted, queue-IsGreeted, handle_frame-IsGreeted}

-- The texts of the reads.
abbrev pub chunks : List Read → List (List ℕ)
chunks [] = []
chunks (chunk text ∷ reads) = text ∷ chunks reads
chunks (end_of_stream ∷ reads) = chunks reads
chunks (Read.would_block ∷ reads) = chunks reads
chunks (Read.fails ∷ reads) = chunks reads

module _ (services : Services) (texts : List (List ℕ)) where
  process_pending-IsGreeted :
      (budget : ℕ) (self : Client)
      → IsGreeted services texts self
      → IsGreeted services texts (process_pending services budget self).0
  unfolding process_pending
  process_pending-IsGreeted zero self g = g
  process_pending-IsGreeted (suc budget) self g =
      by_frames self.pending_frames g.waiting (λ next k. process_pending-IsGreeted budget next k)
    where
      by_frames :
          (frames : List (List ℕ))
          → All (Arrived texts) frames
          → ((next : Client)
              → IsGreeted services texts next
              → IsGreeted services texts (process_pending services budget next).0)
          → IsGreeted services texts
              (process_round services (process_pending services budget) self budget frames).0
      by_frames [] w more = g
      by_frames (frame ∷ frames) w more =
          let next = handle_frame services (record self { pending_frames = frames }) frame in
          let handled =
            handle_frame-IsGreeted services texts (record self { pending_frames = frames }) frame
              (record { buffer = g.buffer; waiting = w.1; greeted = g.greeted }) w.0 in
          if_both (λ (r : Client × ℕ). IsGreeted services texts r.0)
            (next.closing || next.immediate_close) (next, budget)
            (process_pending services budget next) handled (more next handled)

  received-IsGreeted :
      (again : ℕ → Client → Client × Bool) (self : Client) (budget size : ℕ) (p : Pushed)
      → IsGreeted services texts self
      → AllArrived texts p
      → ((budget : ℕ) (next : Client)
          → IsGreeted services texts next
          → IsGreeted services texts (again budget next).0)
      → IsGreeted services texts (received services again self budget size p).0
  received-IsGreeted again self budget size (rest, err e) g a more =
      queue-IsGreeted services texts (record self { frames = rest; closing = true }) _
        (record { buffer = a; waiting = g.waiting; greeted = g.greeted })
  received-IsGreeted again self budget size (rest, ok frames) g a more =
      let start : Client = record self {
        frames = rest;
        pending_frames = self.pending_frames ++ frames;
      } in
      let r = process_pending services budget start in
      let handled = process_pending-IsGreeted budget start (record {
        buffer = a.0;
        waiting = All-append (Arrived texts) self.pending_frames frames g.waiting a.1;
        greeted = g.greeted;
      }) in
      if_both (λ (q : Client × Bool). IsGreeted services texts q.0)
        (pauses services r || ltb size read_chunk) (r.0, true) (again r.1 r.0) handled
        (more r.1 r.0 handled)

  read_loop-IsGreeted :
      (n : ℕ) (reads : List Read) (budget : ℕ) (self : Client)
      → ((text : List ℕ) → Memᴰ text (chunks reads) → Memᴰ text texts)
      → IsGreeted services texts self
      → IsGreeted services texts (read_loop services n reads budget self).0
  unfolding read_loop
  read_loop-IsGreeted zero reads budget self m g = g
  read_loop-IsGreeted (suc n) [] budget self m g = g
  read_loop-IsGreeted (suc n) (chunk text ∷ reads) budget self m g =
      received-IsGreeted (read_loop services n reads) self budget (length text)
        (push self.frames text) g
        (push-AllArrived texts self.frames text g.buffer (m text (Memᴰ.head refl)))
        (λ b next k. read_loop-IsGreeted n reads b next (λ t i. m t (Memᴰ.tail i)) k)
  read_loop-IsGreeted (suc n) (end_of_stream ∷ reads) budget self m g = g
  read_loop-IsGreeted (suc n) (Read.would_block ∷ reads) budget self m g = g
  read_loop-IsGreeted (suc n) (Read.fails ∷ reads) budget self m g = g

  pub read_client-IsGreeted :
      (reads : List Read) (self : Client)
      → ((text : List ℕ) → Memᴰ text (chunks reads) → Memᴰ text texts)
      → IsGreeted services texts self
      → IsGreeted services texts (read_client services reads self).0
  unfolding read_client
  read_client-IsGreeted reads self m g =
      let r = process_pending services frame_budget self in
      let processed = process_pending-IsGreeted frame_budget self g in
      if_both (λ (q : Client × Bool). IsGreeted services texts q.0) (pauses services r) (r.0, true)
        (read_loop services read_budget reads r.1 r.0) processed
        (read_loop-IsGreeted read_budget reads r.1 r.0 m processed)

  write_round-IsGreeted :
      (again : ℕ → Client → Client × Bool) (self : Client) (budget : ℕ) (w : Write)
      (output : List Pending)
      → IsGreeted services texts self
      → ((budget : ℕ) (next : Client)
          → IsGreeted services texts next
          → IsGreeted services texts (again budget next).0)
      → IsGreeted services texts (write_round again self budget w output).0
  write_round-IsGreeted again self budget w [] g more = g
  write_round-IsGreeted again self budget w (front ∷ rest) g more =
      if_both (λ (r : Client × Bool). IsGreeted services texts r.0) (budget == 0) (self, true)
        (write_front again self budget front rest w) g (by_write w)
    where
      by_write :
          (w : Write) → IsGreeted services texts (write_front again self budget front rest w).0
      by_write would_block = g
      by_write fails = g
      by_write (takes n) =
          let written = min n (offered front budget) in
          if_both (λ (r : Client × Bool). IsGreeted services texts r.0) (written == 0)
            (record self { closing = true }, false)
            (again (budget - written) (advance self front rest written)) g
            (more (budget - written) (advance self front rest written) g)

  write_loop-IsGreeted :
      (writes : List Write) (budget : ℕ) (self : Client)
      → IsGreeted services texts self
      → IsGreeted services texts (write_loop writes budget self).0
  unfolding write_loop
  write_loop-IsGreeted [] budget self g = g
  write_loop-IsGreeted (w ∷ writes) budget self g =
      write_round-IsGreeted (write_loop writes) self budget w self.output g
        (λ b next k. write_loop-IsGreeted writes b next k)

  pub write_ready-IsGreeted :
      (writes : List Write) (self : Client)
      → IsGreeted services texts self
      → IsGreeted services texts (write_ready writes self).0
  unfolding write_ready
  write_ready-IsGreeted writes self g = write_loop-IsGreeted writes write_budget self g
