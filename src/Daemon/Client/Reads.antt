-- ===== src/Daemon/Client/Reads.antt =====
-- The reads of a connection, `read_client` of crates/wiilandd/src/ipc/connection.rs.
use wiiland.Prelude.{
  ℕ, zero, suc, Bool, true, false, not, ◌||◌, ◌==◌, ltb, List, [], ◌∷◌, ◌++◌, none, if◌then◌else◌,
}
use wiiland.Prelude.Lists.{length}
use wiiland.Ipc.Frame.{ok, err, Pushed, push}
use wiiland.Ipc.Protocol.{error}
use wiiland.Daemon.Client.{frame_budget, Client}
use wiiland.Daemon.Client.Requests.{Services, queue, handle_frame}

abbrev pub read_budget : ℕ
read_budget = 8

abbrev pub read_chunk : ℕ
read_chunk = 16384

-- A call of `read` on the socket: bytes, the end of the stream, or an error.
pub data Read : Type 0 where
  chunk : List ℕ → Read
  end_of_stream would_block fails : Read

module _ (services : Services) where
  abbrev pub process_round : (Client → Client × ℕ) → Client → ℕ → List (List ℕ) → Client × ℕ
  process_round again client budget [] = (client, suc budget)
  process_round again client budget (frame ∷ frames) =
      let handled = handle_frame services (record client { pending_frames = frames }) frame in
      let later = again handled in
      if handled.closing || handled.immediate_close then (handled, budget) else later

  -- With the budget that is left.
  unfoldable pub process_pending : ℕ → Client → Client × ℕ
  process_pending zero client = (client, 0)
  process_pending (suc budget) client =
      process_round (process_pending budget) client budget client.pending_frames

  abbrev has_frames : Client → Bool
  has_frames client = not (length client.pending_frames == 0)

  abbrev pub pauses : Client × ℕ → Bool
  pauses (client, budget) =
      (budget == 0) || (has_frames client || (client.closing || client.immediate_close))

  abbrev pub received : (ℕ → Client → Client × Bool) → Client → ℕ → ℕ → Pushed → Client × Bool
  received again client budget size (rest, err e) =
      ((queue services (record client { frames = rest; closing = true }) (error none e)).0, true)
  received again client budget size (rest, ok frames) =
      let r =
        process_pending budget
          (record client { frames = rest; pending_frames = client.pending_frames ++ frames }) in
      let later = again r.1 r.0 in if pauses r || ltb size read_chunk then (r.0, true) else later

  -- The loop, with the reads that are left to it.
  unfoldable pub read_loop : ℕ → List Read → ℕ → Client → Client × Bool
  read_loop zero reads budget client = (client, true)
  read_loop (suc n) [] budget client = (client, true)
  read_loop (suc n) (chunk text ∷ reads) budget client =
      received (read_loop n reads) client budget (length text) (push client.frames text)
  read_loop (suc n) (end_of_stream ∷ reads) budget client = (client, false)
  read_loop (suc n) (would_block ∷ reads) budget client = (client, true)
  read_loop (suc n) (fails ∷ reads) budget client = (client, false)

  unfoldable pub read_client : List Read → Client → Client × Bool
  read_client reads client =
      let r = process_pending frame_budget client in
      let later = read_loop read_budget reads r.1 r.0 in if pauses r then (r.0, true) else later
