-- ===== src/Tests/Ipc.antt =====
-- Concrete inputs for the theorems on crates/wiiland-ipc.
use wiiland.Prelude.{
  ℕ, leb, and_parts, subst, ◌&&◌, ◌≤◌, ◌≡◌, refl, sym, ap, arith, Bool, true, false, List, [], ◌∷◌,
  ◌++◌, none, some, map,
}
use wiiland.Prelude.Int.{pos}
use wiiland.Prelude.Lists.{length}
use wiiland.Prelude.Text.{codes, eq_text}
use wiiland.Ipc.Frame.{Serde, done, failed, ok, push, encode_frame, decode_frame}
use wiiland.Ipc.Frame.Stream.{outcome}
use wiiland.Ipc.Frame.Chunks.{push_chunks, join, Within, push_chunks-push}
use wiiland.Ipc.Frame.Wire.{IsText, WritesText, ReadsBack, decode_frame-push_chunks}
use wiiland.Ipc.Protocol.{unsupported, input, accel}
use wiiland.Ipc.Session.{
  SessionEvent, notification, send, try_recv_queue, latest_sensors, EventQueue, new, event_queue,
  Session,
}
use wiiland.Ipc.Session.Runs.{Step, put, take, run, all_sent, preserved, new-run}
use wiiland.Ipc.Session.Finish.{poll, waiting, poll-waiting}

-- A line in three chunks, and the start of another.
abbrev chunks : List (List ℕ)
chunks = codes "{\"id" ∷ codes "\":1}" ∷ (13 ∷ 10 ∷ 123 ∷ []) ∷ []

push_chunks-push_example :
    (push_chunks [] chunks ≡ outcome (push [] (join chunks))) × Within (push_chunks [] chunks)
push_chunks-push_example = push_chunks-push [] chunks refl

-- A JSON library for the two Booleans.
abbrev write_bool : Bool → Serde (List ℕ)
write_bool true = done (codes "true")
write_bool false = done (codes "false")

abbrev read_bool : List ℕ → Serde Bool
read_bool text = done (eq_text text (codes "true"))

abbrev text_of : Serde (List ℕ) → List ℕ
text_of (done text) = text
text_of (failed error) = []

abbrev ascii : List ℕ → Bool
ascii [] = true
ascii (c ∷ s) = leb 32 c && ascii s

ascii-IsText : (text : List ℕ) → ascii text ≡ true → IsText text
ascii-IsText [] h = tt
ascii-IsText (c ∷ s) h = (ground arith, ascii-IsText s (and_parts _ _ h).1)

write_bool_text : WritesText write_bool read_bool
write_bool_text true json h = subst IsText (ap text_of h) (ascii-IsText (codes "true") refl)
write_bool_text false json h = subst IsText (ap text_of h) (ascii-IsText (codes "false") refl)

bool_reads_back : ReadsBack write_bool read_bool
unfolding eq_text
bool_reads_back true json h = ap read_bool (sym (ap text_of h))
bool_reads_back false json h = ap read_bool (sym (ap text_of h))

abbrev line : Bool → List ℕ
line true = codes "true" ++ 10 ∷ []
line false = codes "false" ++ 10 ∷ []

decode_frame-push_chunks_example :
    (payloads : List (List ℕ)) × (push_chunks []
        (codes "tr" ∷ codes "ue" ∷ (10 ∷ []) ∷ line false ∷ [])
      ≡ some (payloads, []))
    × (map (decode_frame read_bool) payloads ≡ map ok (true ∷ false ∷ []))
unfolding encode_frame
decode_frame-push_chunks_example =
    decode_frame-push_chunks write_bool read_bool (true ∷ false ∷ []) (line true ∷ line false ∷ [])
      (codes "tr" ∷ codes "ue" ∷ (10 ∷ []) ∷ line false ∷ []) write_bool_text bool_reads_back
      (refl, (refl, tt)) refl

abbrev removed_note : SessionEvent
removed_note = notification unsupported

abbrev sample : ℕ → SessionEvent
sample n = notification (
    input n (codes "/sys/a") (record { seconds = pos 0; micros = 0 })
      (accel (record { x = pos 0; y = pos 0; z = pos 0 })))

abbrev steps : List Step
steps = put (sample 1) ∷ put removed_note ∷ take ∷ put (sample 2) ∷ []

abbrev left : EventQueue
left = record (new latest_sensors) { events = removed_note ∷ sample 2 ∷ [] }

new-run_example :
    (length left.events ≤ event_queue)
    × (preserved latest_sensors ((sample 1 ∷ []) ++ left.events)
        ≡ preserved latest_sensors (all_sent steps))
unfolding run send try_recv_queue new
new-run_example = new-run latest_sensors steps left (sample 1 ∷ []) refl

abbrev ended : Session Bool
ended = record {
  events = record (new latest_sensors) { events = sample 1 ∷ removed_note ∷ [] };
  finished = record { content = some true; connected = false };
  pending_event = none;
  pending_result = none;
}

poll-waiting_example : poll 3 ended ≡ (waiting ended, some true)
poll-waiting_example = poll-waiting 2 ended true refl (omega arith)
