-- ===== src/Ipc/Frame/Chunks.antt =====
-- `FrameBuffer::push` of crates/wiiland-ipc/src/protocol.rs over a stream that arrives in chunks.
use wiiland.Prelude.{
  ℕ, suc, ◌≤◌, ◌≡◌, refl, sym, ap, subst, ◌∙◌, arith, true, false, ◌==◌, List, [], ◌∷◌, ◌++◌,
  Option, none, some, ◌>>=◌, if◌then◌else◌, if_cases,
}
use wiiland.Prelude.Lists.{length, All}
use wiiland.Ipc.Frame.{max_frame_bytes, newline, carriage_return, ends_with, init, strip, push}
use wiiland.Ipc.Frame.Stream.{payload_len, too_large, with_frame, read, outcome, push-read}

-- The frames of later input, after those of earlier input.
abbrev collect : List (List ℕ) → Option (List (List ℕ) × List ℕ) → Option (List (List ℕ) × List ℕ)
collect earlier none = none
collect earlier (some (frames, bytes)) = some (earlier ++ frames, bytes)

-- Calls of `push` on chunk after chunk, until an error.
pub push_chunks : List ℕ → List (List ℕ) → Option (List (List ℕ) × List ℕ)
push_chunks bytes [] = some ([], bytes)
push_chunks bytes (chunk ∷ chunks) =
    outcome (push bytes chunk) >>= λ r. collect r.0 (push_chunks r.1 chunks)

abbrev pub join : List (List ℕ) → List ℕ
join [] = []
join (chunk ∷ chunks) = chunk ++ join chunks

-- A buffer and frames within the limit, where there are any.
abbrev pub Within : Option (List (List ℕ) × List ℕ) → Type 0
Within none = Unit
Within (some (frames, bytes)) =
    All (λ f. length f ≤ max_frame_bytes) frames × (too_large bytes ≡ false)

collect-with_frame :
    (frame : List ℕ) (o : Option (List (List ℕ) × List ℕ)) (input : List ℕ)
    → (with_frame frame o >>= λ r. collect r.0 (read r.1 input))
      ≡ with_frame frame (o >>= λ r. collect r.0 (read r.1 input))
collect-with_frame frame none input = refl
collect-with_frame frame (some (frames, bytes)) input = by_later (read bytes input)
  where
    by_later :
        (o : Option (List (List ℕ) × List ℕ))
        → collect (frame ∷ frames) o ≡ with_frame frame (collect frames o)
    by_later none = refl
    by_later (some (later, rest)) = refl

collect_none : (o : Option (List (List ℕ) × List ℕ)) → collect [] o ≡ o
collect_none none = refl
collect_none (some (frames, bytes)) = refl

read-append :
    (bytes a b : List ℕ) → (read bytes a >>= λ r. collect r.0 (read r.1 b)) ≡ read bytes (a ++ b)
unfolding read
read-append bytes [] b = collect_none (read bytes b)
read-append bytes (c ∷ a) b =
    if_cases
      (λ (r : Option (List (List ℕ) × List ℕ)).
        (r >>= λ s. collect s.0 (read s.1 b)) ≡ read bytes (c ∷ a ++ b))
      (c == newline) _ _
      (λ e.
        collect-with_frame frame (read [] a) b
        ∙ ap (with_frame frame) (read-append [] a b)
        ∙ rw (e, if◌then◌else◌) refl)
      (λ e.
        rw (e, if◌then◌else◌)
          (if_cases
            (λ (r : Option (List (List ℕ) × List ℕ)).
              (r >>= λ s. collect s.0 (read s.1 b))
              ≡ (if too_large (bytes ++ c ∷ []) then none else read (bytes ++ c ∷ []) (a ++ b)))
            (too_large (bytes ++ c ∷ [])) none _ (λ t. rw (t, if◌then◌else◌) refl)
            (λ f. rw (f, if◌then◌else◌) (read-append (bytes ++ c ∷ []) a b))))
  where
    frame : List ℕ
    frame = strip carriage_return bytes

length-init :
    (byte : ℕ) (bytes : List ℕ)
    → ends_with byte bytes ≡ true
    → suc (length (init bytes)) ≡ length bytes
length-init byte [] h = absurd cc
length-init byte (c ∷ []) h = refl
length-init byte (c ∷ d ∷ bytes) h = omega (arith, length-init byte (d ∷ bytes) h)

length-strip : (bytes : List ℕ) → length (strip carriage_return bytes) ≡ payload_len bytes
length-strip bytes =
    if_cases (λ l. length l ≡ payload_len bytes) (ends_with carriage_return bytes) (init bytes)
      bytes (λ e. rw (e) (omega (arith, length-init carriage_return bytes e)))
      (λ e. rw (e) (omega arith))

strip_within :
    (bytes : List ℕ)
    → too_large bytes ≡ false
    → length (strip carriage_return bytes) ≤ max_frame_bytes
strip_within bytes h = ground (arith, length-strip bytes)

read-Within : (bytes input : List ℕ) → too_large bytes ≡ false → Within (read bytes input)
unfolding read
read-Within bytes [] h = (tt, h)
read-Within bytes (c ∷ input) h =
    if_cases Within (c == newline) _ _ (λ e. framed (read [] input) (read-Within [] input refl))
      (λ e.
        if_cases Within (too_large (bytes ++ c ∷ [])) none (read (bytes ++ c ∷ []) input) (λ t. tt)
          (λ f. read-Within (bytes ++ c ∷ []) input f))
  where
    framed :
        (o : Option (List (List ℕ) × List ℕ))
        → Within o
        → Within (with_frame (strip carriage_return bytes) o)
    framed none w = tt
    framed (some (frames, rest)) w = ((strip_within bytes h, w.0), w.1)

pub push_chunks-read :
    (bytes : List ℕ) (chunks : List (List ℕ))
    → too_large bytes ≡ false
    → push_chunks bytes chunks ≡ read bytes (join chunks)
unfolding push_chunks read
push_chunks-read bytes [] h = refl
push_chunks-read bytes (chunk ∷ chunks) h = rw (push-read bytes chunk h) (
    later (read bytes chunk) (read-Within bytes chunk h) (λ rest k. push_chunks-read rest chunks k)
    ∙ read-append bytes chunk (join chunks))
  where
    later :
        (o : Option (List (List ℕ) × List ℕ))
        → Within o
        → ((rest : List ℕ)
            → too_large rest ≡ false
            → push_chunks rest chunks ≡ read rest (join chunks))
        → (o >>= λ r. collect r.0 (push_chunks r.1 chunks))
          ≡ (o >>= λ r. collect r.0 (read r.1 (join chunks)))
    later none w more = refl
    later (some (frames, rest)) w more = ap (collect frames) (more rest w.1)

-- However a stream of bytes is cut into chunks, pushing them one after the other gives the same
-- frames, the same rest and an error in the same cases as pushing all of it at once, from a buffer
-- within the limit; every frame then has at most 65536 bytes and the buffer stays within the limit.
pub push_chunks-push :
    (bytes : List ℕ) (chunks : List (List ℕ))
    → too_large bytes ≡ false
    → (push_chunks bytes chunks ≡ outcome (push bytes (join chunks)))
      × Within (push_chunks bytes chunks)
push_chunks-push bytes chunks h = (
  push_chunks-read bytes chunks h ∙ sym (push-read bytes (join chunks) h),
  subst Within (sym (push_chunks-read bytes chunks h)) (read-Within bytes (join chunks) h),
)
