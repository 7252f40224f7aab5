-- ===== src/Ipc/Frame/Stream.antt =====
-- `FrameBuffer::push` of crates/wiiland-ipc/src/protocol.rs against a reader of single bytes.
use wiiland.Prelude.{
  ℕ, zero, suc, ◌+◌, ◌-◌, ◌≤◌, ◌<◌, ◌≡◌, refl, sym, ap, ◌∙◌, arith, Bool, true, false, not, ◌&&◌,
  ◌||◌, ◌==◌, ltb, List, [], ◌∷◌, ◌++◌, Option, none, some, if◌then◌else◌, if_cases, and_parts,
  lt→ltb, ltb→lt,
}
use wiiland.Prelude.Lists.{length, length-append, append-nil, append_assoc}
use wiiland.Ipc.Frame.{
  max_frame_bytes, newline, carriage_return, ok, err, is_empty, ends_with, strip, from,
  split_newline, Pushed, before, round, push_loop, push,
}

-- The size of a payload, and whether it is above the maximum.
abbrev pub payload_len : List ℕ → ℕ
payload_len bytes = length bytes - from (ends_with carriage_return bytes)

abbrev pub too_large : List ℕ → Bool
too_large bytes = ltb max_frame_bytes (payload_len bytes)

-- The reader of single bytes: the frames and what is left, or nothing when a payload is too large.
abbrev pub with_frame : List ℕ → Option (List (List ℕ) × List ℕ) → Option (List (List ℕ) × List ℕ)
with_frame frame none = none
with_frame frame (some (frames, bytes)) = some (frame ∷ frames, bytes)

unfoldable pub read : List ℕ → List ℕ → Option (List (List ℕ) × List ℕ)
read bytes [] = some ([], bytes)
read bytes (c ∷ input) =
    let frame = with_frame (strip carriage_return bytes) (read [] input) in
    let longer = read (bytes ++ c ∷ []) input in
    if c == newline then frame else (if too_large (bytes ++ c ∷ []) then none else longer)

-- What the caller of `push` sees.
abbrev pub outcome : Pushed → Option (List (List ℕ) × List ℕ)
outcome (bytes, ok frames) = some (frames, bytes)
outcome (bytes, err e) = none

ends_with-append :
    (byte : ℕ) (a b : List ℕ)
    → ends_with byte (a ++ b) ≡ ends_with byte b || (is_empty b && ends_with byte a)
ends_with-append byte [] [] = refl
ends_with-append byte [] (c ∷ b) = ground arith
ends_with-append byte (x ∷ []) [] = refl
ends_with-append byte (x ∷ []) (c ∷ b) = ground arith
ends_with-append byte (x ∷ y ∷ a) b = ends_with-append byte (y ∷ a) b

from-le-one : (b : Bool) → from b ≤ 1
from-le-one true = omega arith
from-le-one false = omega arith

-- A longer payload is no smaller: a return at the end of the first part counts for at most one.
too_large-append : (bytes part : List ℕ) → too_large bytes ≡ true → too_large (bytes ++ part) ≡ true
too_large-append bytes [] h = rw (append-nil bytes) h
too_large-append bytes (c ∷ part) h = lt→ltb max_frame_bytes (payload_len (bytes ++ c ∷ part)) (
    omega (
      arith,
      ltb→lt max_frame_bytes (payload_len bytes) h,
      length-append bytes (c ∷ part),
      from-le-one (ends_with carriage_return (bytes ++ c ∷ part)),
    ))

unfoldable pub lacks_newline : List ℕ → Bool
lacks_newline [] = true
lacks_newline (c ∷ bytes) = not (c == newline) && lacks_newline bytes

read_byte :
    (bytes : List ℕ) (c : ℕ) (input : List ℕ)
    → (c == newline) ≡ false
    → read bytes (c ∷ input)
      ≡ (if too_large (bytes ++ c ∷ []) then none else read (bytes ++ c ∷ []) input)
unfolding read
read_byte bytes c input e = rw (e, if◌then◌else◌) refl

pub read_part :
    (bytes part rest : List ℕ)
    → lacks_newline part ≡ true
    → too_large bytes ≡ false
    → read bytes (part ++ rest)
      ≡ (if too_large (bytes ++ part) then none else read (bytes ++ part) rest)
unfolding lacks_newline
read_part bytes [] rest l h = rw (append-nil bytes) (rw (h, if◌then◌else◌) refl)
read_part bytes (c ∷ part) rest l h =
    let l' = and_parts (not (c == newline)) (lacks_newline part) l in
    read_byte bytes c (part ++ rest) (ground (arith, l'.0))
    ∙ rw (← append_assoc bytes (c ∷ []) part) (
        if_cases
          (λ r. r ≡ (
            if too_large ((bytes ++ c ∷ []) ++ part)
            then none
            else read ((bytes ++ c ∷ []) ++ part) rest))
          (too_large (bytes ++ c ∷ [])) none (read (bytes ++ c ∷ []) (part ++ rest))
          (λ t. rw (too_large-append (bytes ++ c ∷ []) part t, if◌then◌else◌) refl)
          (λ f. read_part (bytes ++ c ∷ []) part rest l'.1 f))

-- What `split_newline` finds.
abbrev pub Splits : List ℕ → List ℕ × Option (List ℕ) → Type 0
Splits input (part, none) = (part ≡ input) × (lacks_newline part ≡ true)
Splits input (part, some rest) =
    (input ≡ part ++ newline ∷ rest) × (lacks_newline part ≡ true) × (length rest < length input)

pub split_newline-Splits : (input : List ℕ) → Splits input (split_newline input)
unfolding split_newline lacks_newline
split_newline-Splits [] = (refl, refl)
split_newline-Splits (c ∷ input) =
    if_cases (Splits (c ∷ input)) (c == newline) ([], some input) _
      (λ e. (ap (λ d. d ∷ input) (ground arith), refl, omega arith))
      (λ e. longer e (split_newline input).0 (split_newline input).1 (split_newline-Splits input))
  where
    longer :
        (c == newline) ≡ false
        → (part : List ℕ) (o : Option (List ℕ)) → Splits input (part, o)
        → Splits (c ∷ input) (c ∷ part, o)
    longer e part none h = (ap (λ l. c ∷ l) h.0, rw (e) h.1)
    longer e part (some rest) h = (ap (λ l. c ∷ l) h.0, rw (e) h.1, omega (arith, h.2))

outcome-before :
    (frame : List ℕ) (p : Pushed) → outcome (before frame p) ≡ with_frame frame (outcome p)
outcome-before frame (bytes, ok frames) = refl
outcome-before frame (bytes, err e) = refl

read-newline :
    (bytes rest : List ℕ)
    → read bytes (newline ∷ rest) ≡ with_frame (strip carriage_return bytes) (read [] rest)
unfolding read
read-newline bytes rest = refl

payload_len-append :
    (bytes part : List ℕ)
    → length bytes
        + length part
        - from
            (ends_with carriage_return part || (is_empty part && ends_with carriage_return bytes))
      ≡ payload_len (bytes ++ part)
payload_len-append bytes part =
    rw (ends_with-append carriage_return bytes part) (rw (length-append bytes part) refl)

or_false : (b : Bool) → b || false ≡ b
or_false true = refl
or_false false = refl

read_last :
    (bytes input : List ℕ)
    → lacks_newline input ≡ true
    → too_large bytes ≡ false
    → read bytes input ≡ (if too_large (bytes ++ input) then none else some ([], bytes ++ input))
unfolding read
read_last bytes input l h = sym (ap (read bytes) (append-nil input)) ∙ read_part bytes input [] l h

push_loop-read :
    (n : ℕ) (bytes input : List ℕ)
    → length input ≤ n
    → too_large bytes ≡ false
    → outcome (push_loop n bytes input) ≡ read bytes input
unfolding push_loop read
push_loop-read zero bytes [] l h = refl
push_loop-read zero bytes (c ∷ input) l h = absurd (omega arith)
push_loop-read (suc n) bytes [] l h = refl
push_loop-read (suc n) bytes (c ∷ input) l h =
    by_split (split_newline (c ∷ input)).0 (split_newline (c ∷ input)).1
      (split_newline-Splits (c ∷ input)) (λ rest k. push_loop-read n [] rest k refl)
  where
    last_len :
        length bytes + length (c ∷ input) - from (ends_with carriage_return (c ∷ input))
        ≡ payload_len (bytes ++ c ∷ input)
    last_len =
        ap (λ b. length bytes + length (c ∷ input) - from b)
          (sym (or_false (ends_with carriage_return (c ∷ input))))
        ∙ payload_len-append bytes (c ∷ input)

    by_split :
        (part : List ℕ) (o : Option (List ℕ))
        → Splits (c ∷ input) (part, o)
        → ((rest : List ℕ) → length rest ≤ n → outcome (push_loop n [] rest) ≡ read [] rest)
        → outcome (round (push_loop n) bytes (c ∷ input) (part, o)) ≡ read bytes (c ∷ input)
    by_split part none s more = rw last_len (
        if_cases (λ r. outcome r ≡ read bytes (c ∷ input)) (too_large (bytes ++ c ∷ input)) _ _
          (λ t. sym (whole ∙ rw (t, if◌then◌else◌) refl))
          (λ f. sym (whole ∙ rw (f, if◌then◌else◌) refl)))
      where
        whole :
            read bytes (c ∷ input)
            ≡ (if too_large (bytes ++ c ∷ input) then none else some ([], bytes ++ c ∷ input))
        whole = read_last bytes (c ∷ input) (ap lacks_newline (sym s.0) ∙ s.1) h
    by_split part (some rest) s more = rw (payload_len-append bytes part) (
        if_cases (λ r. outcome r ≡ read bytes (c ∷ input)) (too_large (bytes ++ part)) _ _
          (λ t. sym (whole ∙ rw (t, if◌then◌else◌) refl))
          (λ f.
            outcome-before (strip carriage_return (bytes ++ part)) (push_loop n [] rest)
            ∙ ap (with_frame (strip carriage_return (bytes ++ part)))
                (more rest (omega (arith, s.2)))
            ∙ sym (whole ∙ rw (f, if◌then◌else◌) (read-newline (bytes ++ part) rest))))
      where
        whole :
            read bytes (c ∷ input)
            ≡ (if too_large (bytes ++ part) then none else read (bytes ++ part) (newline ∷ rest))
        whole = ap (read bytes) s.0 ∙ read_part bytes part (newline ∷ rest) s.1 h

-- One call of `push` agrees with the reader of single bytes, in its error too, and its loop needs
-- no more rounds than it is given.
pub push-read :
    (bytes input : List ℕ) → too_large bytes ≡ false → outcome (push bytes input) ≡ read bytes input
unfolding push
push-read bytes input h = push_loop-read (length input) bytes input (omega arith) h
