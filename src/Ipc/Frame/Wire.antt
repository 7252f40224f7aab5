-- ===== src/Ipc/Frame/Wire.antt =====
-- The round trip of crates/wiiland-ipc/src/protocol.rs: encoded values, sent as a stream in chunks.
use wiiland.Prelude.{
  ℕ, ◌≤◌, ◌<◌, ◌≡◌, refl, ap, ◌∙◌, arith, true, false, ltb, List, [], ◌∷◌, ◌++◌, some, map,
  if◌then◌else◌, if_cases,
}
use wiiland.Prelude.Lists.{length, append_assoc, All}
use wiiland.Ipc.Frame.{
  max_frame_bytes, newline, carriage_return, Result, ok, err, Serde, done, failed, ends_with, init,
  strip, delimited, parsed, encode_frame, decode_frame, push,
}
use wiiland.Ipc.Frame.Stream.{payload_len, too_large, with_frame, read, read_part, lacks_newline}
use wiiland.Ipc.Frame.Chunks.{push_chunks, push_chunks-read, join}

-- JSON text has no control characters.
abbrev pub IsText : List ℕ → Type 0
IsText bytes = All (λ c. 32 ≤ c) bytes

IsText-lacks_newline : (bytes : List ℕ) → IsText bytes → lacks_newline bytes ≡ true
unfolding lacks_newline
IsText-lacks_newline [] h = refl
IsText-lacks_newline (c ∷ bytes) h = ground (arith, h.0, IsText-lacks_newline bytes h.1)

text_end : (byte : ℕ) (bytes : List ℕ) → byte < 32 → IsText bytes → ends_with byte bytes ≡ false
text_end byte [] l h = refl
text_end byte (c ∷ []) l h = ground (arith, h.0)
text_end byte (c ∷ d ∷ bytes) l h = text_end byte (d ∷ bytes) l h.1

strip_text : (byte : ℕ) (bytes : List ℕ) → byte < 32 → IsText bytes → strip byte bytes ≡ bytes
strip_text byte bytes l h = rw (text_end byte bytes l h, if◌then◌else◌) refl

ends_with_last : (byte : ℕ) (bytes : List ℕ) → ends_with byte (bytes ++ byte ∷ []) ≡ true
ends_with_last byte [] = ground arith
ends_with_last byte (c ∷ []) = ground arith
ends_with_last byte (c ∷ d ∷ bytes) = ends_with_last byte (d ∷ bytes)

init-append : (byte : ℕ) (bytes : List ℕ) → init (bytes ++ byte ∷ []) ≡ bytes
init-append byte [] = refl
init-append byte (c ∷ []) = refl
init-append byte (c ∷ d ∷ bytes) = ap (λ l. c ∷ l) (init-append byte (d ∷ bytes))

strip_last : (byte : ℕ) (bytes : List ℕ) → strip byte (bytes ++ byte ∷ []) ≡ bytes
strip_last byte bytes = rw (ends_with_last byte bytes, if◌then◌else◌) (init-append byte bytes)

read_frame :
    (json rest : List ℕ)
    → IsText json
    → length json ≤ max_frame_bytes
    → read [] (json ++ newline ∷ rest) ≡ with_frame json (read [] rest)
unfolding read
read_frame json rest h l =
    let size : payload_len json ≡ length json =
      rw (text_end carriage_return json (omega arith) h, wiiland.Ipc.Frame.from) (omega arith) in
    let fits : too_large json ≡ false = ground arith in
    read_part [] json (newline ∷ rest) (IsText-lacks_newline json h) refl
    ∙ rw (fits, if◌then◌else◌)
        (ap (λ f. with_frame f (read [] rest)) (strip_text carriage_return json (omega arith) h))

-- Named hypotheses on `serde_json`: what it writes has no control character, and reads back.
module _ {ℓ} {T : Type ℓ} (to_vec : T → Serde (List ℕ)) (from_slice : List ℕ → Serde T) where
  abbrev pub WritesText : Type ℓ
  WritesText = (v : T) (json : List ℕ) → to_vec v ≡ done json → IsText json

  abbrev pub ReadsBack : Type ℓ
  ReadsBack = (v : T) (json : List ℕ) → to_vec v ≡ done json → from_slice json ≡ done v

  -- Each frame is the encoding of its value.
  abbrev Encoded : List T → List (List ℕ) → Type 0
  Encoded [] [] = Unit
  Encoded [] (frame ∷ frames) = ⊥
  Encoded (v ∷ values) [] = ⊥
  Encoded (v ∷ values) (frame ∷ frames) = (encode_frame to_vec v ≡ ok frame) × Encoded values frames

  delimited_ok :
      (o : Serde (List ℕ)) (frame : List ℕ)
      → delimited o ≡ ok frame
      → (json : List ℕ) × (o ≡ done json)
        × (length json ≤ max_frame_bytes)
        × (frame ≡ json ++ newline ∷ [])
  delimited_ok (failed error) frame e = absurd cc
  delimited_ok (done json) frame e =
      if_cases
        (λ (r : Result (List ℕ)).
          r ≡ ok frame
          → (text : List ℕ) × (done json ≡ done text)
            × (length text ≤ max_frame_bytes)
            × (frame ≡ text ++ newline ∷ []))
        (ltb max_frame_bytes (length json)) _ (ok (json ++ newline ∷ [])) (λ t p. absurd cc)
        (λ f p. (json, refl, ground arith, cc)) e

  decoded :
      (v : T) (json : List ℕ)
      → ReadsBack
      → to_vec v ≡ done json
      → length json ≤ max_frame_bytes
      → IsText json
      → decode_frame from_slice json ≡ ok v
  unfolding decode_frame
  decoded v json back e l h =
      let fits : ltb max_frame_bytes (length json) ≡ false = ground arith in
      rw (strip_text newline json (omega arith) h) (
        rw (strip_text carriage_return json (omega arith) h)
          (rw (fits, if◌then◌else◌) (ap parsed (back v json e))))

  read_all :
      (values : List T) (frames : List (List ℕ))
      → WritesText
      → ReadsBack
      → Encoded values frames
      → (payloads : List (List ℕ)) × (read [] (join frames) ≡ some (payloads, []))
        × (map (decode_frame from_slice) payloads ≡ map ok values)
  unfolding read encode_frame
  read_all [] [] text back h = ([], refl, refl)
  read_all [] (frame ∷ frames) text back h = absurd h
  read_all (v ∷ values) [] text back h = absurd h
  read_all (v ∷ values) (frame ∷ frames) text back h =
      let (json, e, l, f) = delimited_ok (to_vec v) frame h.0 in
      let (payloads, r, d) = read_all values frames text back h.1 in
      let whole : frame ++ join frames ≡ json ++ newline ∷ join frames =
        rw f (append_assoc json (newline ∷ []) (join frames)) in
      (
        json ∷ payloads,
        ap (read []) whole
            ∙ read_frame json (join frames) (text v json e) l
            ∙ ap (with_frame json) r,
        ap (λ r. r ∷ map (decode_frame from_slice) payloads)
              (decoded v json back e l (text v json e))
            ∙ ap (λ l. ok v ∷ l) d,
      )

  -- Values that `encode_frame` accepts, sent as one stream of bytes that arrives in any chunks, come
  -- out of the frame buffer and `decode_frame` as the same values in the same order, with nothing
  -- left over: for a JSON library that writes no control character and reads back what it wrote.
  pub decode_frame-push_chunks :
      (values : List T) (frames chunks : List (List ℕ))
      → WritesText
      → ReadsBack
      → Encoded values frames
      → join chunks ≡ join frames
      → (payloads : List (List ℕ)) × (push_chunks [] chunks ≡ some (payloads, []))
        × (map (decode_frame from_slice) payloads ≡ map ok values)
  decode_frame-push_chunks values frames chunks text back h e =
      let (payloads, r, d) = read_all values frames text back h in
      (payloads, push_chunks-read [] chunks refl ∙ ap (read []) e ∙ r, d)
