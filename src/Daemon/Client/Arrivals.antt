-- ===== src/Daemon/Client/Arrivals.antt =====
-- The bytes that a connection of crates/wiilandd/src/ipc/connection.rs has from its socket.
use mathlib.Core.List.{Memᴰ}
use wiiland.Prelude.{
  ℕ, zero, suc, ◌≡◌, refl, sym, ap, subst, ◌∙◌, List, [], ◌∷◌, ◌++◌, Option, none, some, if_both,
}
use wiiland.Prelude.Lists.{All, append-nil, append_assoc}
use wiiland.Ipc.Frame.{
  newline, carriage_return, ok, err, ends_with, init, strip, split_newline, Pushed, before, round,
  push_loop, push,
}
use wiiland.Ipc.Frame.Stream.{Splits, split_newline-Splits}

-- The bytes stand together in what some of the texts make when they are put one after the other.
pub data Arrived (texts : List (List ℕ)) : List ℕ → Type 0 where
  nothing : Arrived texts []
  more :
      (bytes text : List ℕ) → Arrived texts bytes → Memᴰ text texts → Arrived texts (bytes ++ text)
  cut : (a b c bytes : List ℕ) → Arrived texts bytes → bytes ≡ a ++ (b ++ c) → Arrived texts b

module _ (texts : List (List ℕ)) where
  start_of : (a b : List ℕ) → Arrived texts (a ++ b) → Arrived texts a
  start_of a b h = Arrived.cut [] a b (a ++ b) h refl

  end_of : (a b : List ℕ) → Arrived texts (a ++ b) → Arrived texts b
  end_of a b h = Arrived.cut a b [] (a ++ b) h (ap (λ l. a ++ l) (sym (append-nil b)))

  init-Arrived : (bytes : List ℕ) → Arrived texts bytes → Arrived texts (init bytes)
  init-Arrived bytes h =
      let r = rest bytes in start_of (init bytes) r.0 (subst (Arrived texts) r.1 h)
    where
      rest : (bytes : List ℕ) → (last : List ℕ) × (bytes ≡ init bytes ++ last)
      rest [] = ([], refl)
      rest (c ∷ []) = (c ∷ [], refl)
      rest (c ∷ d ∷ bytes) = let r = rest (d ∷ bytes) in (r.0, ap (λ l. c ∷ l) r.1)

  strip-Arrived :
      (byte : ℕ) (bytes : List ℕ) → Arrived texts bytes → Arrived texts (strip byte bytes)
  strip-Arrived byte bytes h =
      if_both (Arrived texts) (ends_with byte bytes) (init bytes) bytes (init-Arrived bytes h) h

  -- What a push leaves and the frames that it gives.
  abbrev pub AllArrived : Pushed → Type 0
  AllArrived (bytes, ok frames) = Arrived texts bytes × All (Arrived texts) frames
  AllArrived (bytes, err e) = Arrived texts bytes

  before-AllArrived :
      (frame : List ℕ) (p : Pushed)
      → Arrived texts frame
      → AllArrived p
      → AllArrived (before frame p)
  before-AllArrived frame (bytes, ok frames) h k = (k.0, (h, k.1))
  before-AllArrived frame (bytes, err e) h k = k

  round-AllArrived :
      (again : List ℕ → List ℕ → Pushed) (bytes input part : List ℕ) (o : Option (List ℕ))
      → Splits input (part, o)
      → Arrived texts (bytes ++ input)
      → ((rest : List ℕ) → Arrived texts rest → AllArrived (again [] rest))
      → AllArrived (round again bytes input (part, o))
  round-AllArrived again bytes input part none s h later =
      if_both AllArrived _ (bytes, err _) (bytes ++ input, ok []) (start_of bytes input h) (h, tt)
  round-AllArrived again bytes input part (some rest) s h later =
      let whole : bytes ++ input ≡ (bytes ++ part) ++ newline ∷ rest =
        ap (λ l. bytes ++ l) s.0 ∙ sym (append_assoc bytes part (newline ∷ rest)) in
      let h' = subst (Arrived texts) whole h in
      let after = end_of (newline ∷ []) rest (end_of (bytes ++ part) (newline ∷ rest) h') in
      if_both AllArrived _ (bytes, err _)
        (before (strip carriage_return (bytes ++ part)) (again [] rest)) (start_of bytes input h)
        (before-AllArrived (strip carriage_return (bytes ++ part)) (again [] rest)
          (strip-Arrived carriage_return (bytes ++ part)
            (start_of (bytes ++ part) (newline ∷ rest) h'))
          (later rest after))

  push_loop-AllArrived :
      (n : ℕ) (bytes input : List ℕ)
      → Arrived texts (bytes ++ input)
      → AllArrived (push_loop n bytes input)
  unfolding push_loop
  push_loop-AllArrived zero bytes input h = (start_of bytes input h, tt)
  push_loop-AllArrived (suc n) bytes [] h = (start_of bytes [] h, tt)
  push_loop-AllArrived (suc n) bytes (c ∷ input) h =
      round-AllArrived (push_loop n) bytes (c ∷ input) (split_newline (c ∷ input)).0
        (split_newline (c ∷ input)).1 (split_newline-Splits (c ∷ input)) h
        (λ rest k. push_loop-AllArrived n [] rest k)

  pub push-AllArrived :
      (bytes text : List ℕ) → Arrived texts bytes → Memᴰ text texts → AllArrived (push bytes text)
  unfolding push
  push-AllArrived bytes text h m = push_loop-AllArrived _ bytes text (Arrived.more bytes text h m)
