-- ===== src/Ipc/Frame.antt =====
-- The bounded newline-delimited frames of crates/wiiland-ipc/src/protocol.rs, over bytes.
pub mod Stream
pub mod Chunks
pub mod Wire
use wiiland.Prelude.{
  ℕ, zero, suc, ◌+◌, ◌-◌, ◌/◌, ◌%◌, Bool, true, false, not, ◌&&◌, ◌||◌, ◌==◌, ltb, List, [], ◌∷◌,
  ◌++◌, Option, none, some, if◌then◌else◌,
}
use wiiland.Prelude.Text.{Text, codes}
use wiiland.Prelude.Lists.{length}

abbrev pub max_frame_bytes : ℕ
max_frame_bytes = 65536

abbrev pub newline : ℕ
newline = 10

abbrev pub carriage_return : ℕ
carriage_return = 13

pub data ProtocolErrorCode : Type 0 where
  unsupported_version invalid_request unknown_command not_subscribed too_large invalid_json internal
        unknown :
      ProtocolErrorCode

pub record ProtocolError : Type 0 where
  pub code : ProtocolErrorCode
  pub message : Text

-- The digits of a number below 10^n.
abbrev decimal : ℕ → ℕ → Text
decimal zero size = []
decimal (suc n) size =
    let higher = decimal n (size / 10) in
    if ltb size 10 then (size + 48) ∷ [] else higher ++ (size % 10 + 48) ∷ []

unfoldable pub frame_too_large : ℕ → ProtocolError
frame_too_large size = record {
  code = too_large;
  message = codes "JSON frame is " ++ decimal 20 size ++ codes " bytes, maximum is 65536";
}

pub json : Text → ProtocolError
json error = record { code = invalid_json; message = error }

pub data Result {ℓ} (A : Type ℓ) : Type ℓ where
  ok : A → Result A
  err : ProtocolError → Result A

-- What a call of `serde_json` gives: a value, or the text of its error.
pub data Serde {ℓ} (A : Type ℓ) : Type ℓ where
  done : A → Serde A
  failed : Text → Serde A

abbrev pub is_empty : List ℕ → Bool
is_empty [] = true
is_empty (c ∷ bytes) = false

-- `bytes.last() == Some(&byte)`.
abbrev pub ends_with : ℕ → List ℕ → Bool
ends_with byte [] = false
ends_with byte (c ∷ []) = c == byte
ends_with byte (c ∷ d ∷ bytes) = ends_with byte (d ∷ bytes)

-- All bytes but the last.
abbrev pub init : List ℕ → List ℕ
init [] = []
init (c ∷ []) = []
init (c ∷ d ∷ bytes) = c ∷ init (d ∷ bytes)

abbrev pub strip : ℕ → List ℕ → List ℕ
strip byte bytes = if ends_with byte bytes then init bytes else bytes

abbrev pub from : Bool → ℕ
from true = 1
from false = 0

-- The bytes before the first newline, and those after it when there is one.
pub split_newline : List ℕ → List ℕ × Option (List ℕ)
split_newline [] = ([], none)
split_newline (c ∷ bytes) =
    let later = split_newline bytes in
    if c == newline then ([], some bytes) else (c ∷ later.0, later.1)

abbrev pub Pushed : Type 0
Pushed = List ℕ × Result (List (List ℕ))

-- A frame before the frames of the rest; an error drops the frames.
abbrev pub before : List ℕ → Pushed → Pushed
before frame (bytes, ok frames) = (bytes, ok (frame ∷ frames))
before frame (bytes, err e) = (bytes, err e)

-- One round of the loop of `FrameBuffer::push`; `again` is the loop on the rest.
abbrev pub round : (List ℕ → List ℕ → Pushed) → List ℕ → List ℕ → List ℕ × Option (List ℕ) → Pushed
round again bytes input (part, some rest) =
    let frame_len = length bytes + length part in
    let payload_len =
      frame_len
      - from
          (ends_with carriage_return part || (is_empty part && ends_with carriage_return bytes)) in
    let whole = bytes ++ part in
    let later = again [] rest in
    if ltb max_frame_bytes payload_len
    then (bytes, err (frame_too_large payload_len))
    else before (strip carriage_return whole) later
round again bytes input (part, none) =
    let payload_len = length bytes + length input - from (ends_with carriage_return input) in
    if ltb max_frame_bytes payload_len
    then (bytes, err (frame_too_large payload_len))
    else (bytes ++ input, ok [])

-- The loop, with fuel for its rounds.
unfoldable pub push_loop : ℕ → List ℕ → List ℕ → Pushed
push_loop zero bytes input = (bytes, ok [])
push_loop (suc n) bytes [] = (bytes, ok [])
push_loop (suc n) bytes (c ∷ input) =
    round (push_loop n) bytes (c ∷ input) (split_newline (c ∷ input))

-- `FrameBuffer::push` on the buffered bytes.
unfoldable pub push : List ℕ → List ℕ → Pushed
push bytes input = push_loop (length input) bytes input

abbrev pub delimited : Serde (List ℕ) → Result (List ℕ)
delimited (failed error) = err (json error)
delimited (done text) =
    if ltb max_frame_bytes (length text)
    then err (frame_too_large (length text))
    else ok (text ++ newline ∷ [])

abbrev pub parsed {ℓ} : {T : Type ℓ} → Serde T → Result T
parsed (failed error) = err (json error)
parsed (done value) = ok value

module _ {ℓ} {T : Type ℓ} where
  -- `serde_json::to_vec` is a parameter.
  unfoldable pub encode_frame : (T → Serde (List ℕ)) → T → Result (List ℕ)
  encode_frame to_vec value = delimited (to_vec value)

  -- `serde_json::from_slice` is a parameter.
  pub decode_frame : (List ℕ → Serde T) → List ℕ → Result T
  decode_frame from_slice frame =
      let payload = strip carriage_return (strip newline frame) in
      if ltb max_frame_bytes (length payload)
      then err (frame_too_large (length payload))
      else parsed (from_slice payload)
