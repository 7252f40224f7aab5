-- ===== src/Hid/Recovery/Drain.antt =====
-- Draining the recovery state of crates/wiiland-hid/src/decode.rs: which keys it replays.
use wiiland.Prelude.{
  ℕ, zero, suc, ◌+◌, ◌-◌, ◌*◌, ◌/◌, ◌%◌, ◌^◌, ◌<◌, ◌≤◌, ◌≡◌, refl, sym, ap, ◌∙◌, subst, arith, Bool,
  true, false, not, same, ◌&&◌, ◌==◌, List, [], ◌∷◌, Option, none, some, bit_and, if◌then◌else◌,
  if_cases, Bool-cases, inl, inr,
}
use wiiland.Prelude.Int.{pos, eqb_ℤ}
use wiiland.Prelude.Lists.{length, any, All}
use wiiland.Prelude.Mask.{digit, has_bit, has_bit-digit, complement, bit_and-le}
use wiiland.Hid.Model.{TimeVal, InputEvent}
use wiiland.Hid.Recovery.{
  RecoveryState, word_at, words_of, differences, nonzero, trailing_zeros, first_word, clear_bit,
  seed, key_input, take_key, next_key, bit_value,
}
use wiiland.Hid.Recovery.Count.{
  count_below, count_below_le, count_below_zero, count_remove, count_same,
}
use wiiland.Hid.Recovery.Keeps.{
  All-set, length-set, word_small, length-differences, All-differences,
}
use wiiland.Hid.Recovery.Bits.{
  holds, holds-clear_bit, holds-zero, holds-differences, trailing_zeros-digit, Found,
  first_word-Found,
}

-- The events that are taken by calls of `next_key`, until it has none, and what it leaves.
abbrev noted : Option InputEvent → List InputEvent → List InputEvent
noted none events = events
noted (some e) events = e ∷ events

unfoldable pub drain : ℕ → RecoveryState → RecoveryState × List InputEvent
drain zero self = (self, [])
drain (suc n) self =
    let r = next_key self in let later = drain n r.0 in (later.0, noted r.1 later.1)

-- The keys that a reader of events takes to be held.
abbrev heard : (ℕ → Bool) → InputEvent → ℕ → Bool
heard view e code = if code == e.code then eqb_ℤ e.value (pos 1) else view code

abbrev pub replay : (ℕ → Bool) → List InputEvent → ℕ → Bool
replay view [] = view
replay view (e ∷ events) = replay (heard view e) events

-- The pending words stand for what the reader does not know yet.
record Tracks (view : ℕ → Bool) (self : RecoveryState) : Type 0 where
  pub size : length self.key_pending ≡ 12
  pub small : All (λ w. w < 2 ^ 64) self.key_pending
  pub idle : self.key_resync_pending ≡ false → any nonzero self.key_pending ≡ false
  pub known :
      (code : ℕ)
      → code < 768
      → view code ≡ (
          if holds self.key_pending code
          then not (holds self.key_state code)
          else holds self.key_state code)

left : RecoveryState → ℕ
left self = count_below (holds self.key_pending) 768

-- What one call of `next_key` promises: with nothing to replay it has no event, and otherwise its
-- event brings the reader closer by one key.
abbrev Advances : (ℕ → Bool) → RecoveryState → RecoveryState → Option InputEvent → Type 0
Advances view self next none =
    Tracks view next × (left self ≡ 0) × (left next ≡ 0) × (next.key_state ≡ self.key_state)
Advances view self next (some e) =
    Tracks (heard view e) next × (left self ≡ suc (left next)) × (next.key_state ≡ self.key_state)

holds_at :
    (words : List ℕ) (i bit : ℕ)
    → bit < 64
    → holds words (i * 64 + bit) ≡ has_bit (word_at words i) bit
holds_at words i bit h =
    let word : (i * 64 + bit) / 64 ≡ i = omega arith in
    let place : (i * 64 + bit) % 64 ≡ bit = omega arith in rw word (rw place refl)

bit_value_one : (b : Bool) → eqb_ℤ (bit_value b) (pos 1) ≡ b
bit_value_one true = refl
bit_value_one false = refl

heard_here :
    (view : ℕ → Bool) (self : RecoveryState) (i bit code : ℕ)
    → i < 12
    → bit < 64
    → heard view (key_input self i bit) code
      ≡ (if code == i * 64 + bit then holds self.key_state code else view code)
heard_here view self i bit code l h =
    let same_code : (i * 64 + bit) % 65536 ≡ i * 64 + bit = omega arith in
    rw same_code (elim (Bool-cases (code == i * 64 + bit)) [
      | inl e ↦
          let here : code ≡ i * 64 + bit = ground arith in
          rw (e, if◌then◌else◌)
            (bit_value_one (has_bit (word_at self.key_state i) bit)
              ∙ sym (holds_at self.key_state i bit h)
              ∙ ap (holds self.key_state) (sym here))
      | inr e ↦ rw (e, if◌then◌else◌) refl
    ])

take_some :
    (view : ℕ → Bool) (self : RecoveryState) (i : ℕ)
    → Tracks view self
    → i < 12
    → 0 < word_at self.key_pending i
    → (self.key_resync_pending ≡ true)
    → Advances view self (take_key self (some i)).0 (take_key self (some i)).1
unfolding left
take_some view self i t l p on = (
  record {
    size = length-set self.key_pending i cleared ∙ t.size;
    small =
        All-set self.key_pending i cleared t.small
          (omega (arith, small_word, bit_and-le word (complement 64 (2 ^ bit))));
    idle = λ off. absurd cc;
    known = λ code h. learned code h;
  },
  count_remove (holds self.key_pending) (holds (clear_bit self.key_pending i bit)) 768
      (i * 64 + bit) (omega (arith, found.0))
      (holds_at self.key_pending i bit found.0 ∙ has_bit-digit word bit ∙ rw found.1 refl)
      (λ k m. cleared_at k),
  refl,
)
  where
    word : ℕ
    word = word_at self.key_pending i

    bit : ℕ
    bit = trailing_zeros 64 word

    cleared : ℕ
    cleared = bit_and word (complement 64 (2 ^ bit))

    small_word : word < 2 ^ 64
    small_word = word_small self.key_pending i t.small

    found : (bit < 64) × (digit word bit ≡ 1)
    found = trailing_zeros-digit 64 word p small_word

    cleared_at :
        (code : ℕ)
        → holds (clear_bit self.key_pending i bit) code
          ≡ holds self.key_pending code && not (code == i * 64 + bit)
    cleared_at code = holds-clear_bit self.key_pending i bit code (omega (arith, t.size)) found.0

    learned :
        (code : ℕ)
        → code < 768
        → heard view (key_input self i bit) code ≡ (
            if holds (clear_bit self.key_pending i bit) code
            then not (holds self.key_state code)
            else holds self.key_state code)
    learned code h =
        ground (arith, heard_here view self i bit code l found.0, cleared_at code, t.known code h)

take_none :
    (view : ℕ → Bool) (self : RecoveryState)
    → Tracks view self
    → any nonzero self.key_pending ≡ false
    → left self ≡ 0
unfolding left count_below
take_none view self t h = none_below 768
  where
    none_below : (n : ℕ) → count_below (holds self.key_pending) n ≡ 0
    none_below zero = refl
    none_below (suc n) = ground (arith, none_below n, holds-zero self.key_pending n h)

minus_zero : (i : ℕ) → i ≡ i - 0
minus_zero i = omega arith

next_key-Advances :
    (view : ℕ → Bool) (self : RecoveryState)
    → Tracks view self
    → Advances view self (next_key self).0 (next_key self).1
unfolding next_key left
next_key-Advances view self t =
    if_cases (λ r. Advances view self r.0 r.1) (not self.key_resync_pending) (self, none)
      (take_key self (first_word 0 self.key_pending))
      (λ off. (
        t,
        take_none view self t (t.idle (ground arith)),
        take_none view self t (t.idle (ground arith)),
        refl,
      ))
      (λ on.
        by_word (first_word 0 self.key_pending) (first_word-Found 0 self.key_pending)
          (ground arith))
  where
    by_word :
        (o : Option ℕ)
        → Found 0 self.key_pending o
        → self.key_resync_pending ≡ true
        → Advances view self (take_key self o).0 (take_key self o).1
    by_word none f on = (
      record { size = t.size; small = t.small; idle = λ off. f; known = t.known },
      take_none view self t f,
      take_none view self t f,
      refl,
    )
    by_word (some i) f on =
        take_some view self i t (omega (arith, f.1, t.size))
          (subst (λ k. 0 < word_at self.key_pending k) (sym (minus_zero i)) f.2) on

drain-Tracks :
    (n : ℕ) (view : ℕ → Bool) (self : RecoveryState)
    → Tracks view self
    → left self ≤ n
    → Tracks (replay view (drain n self).1) (drain n self).0
      × (left (drain n self).0 ≡ 0)
      × ((drain n self).0.key_state ≡ self.key_state)
      × (length (drain n self).1 ≡ left self)
unfolding drain
drain-Tracks zero view self t h = (t, omega arith, refl, omega arith)
drain-Tracks (suc n) view self t h =
    by_event (next_key self).0 (next_key self).1 (next_key-Advances view self t)
      (λ view next t h. drain-Tracks n view next t h)
  where
    by_event :
        (next : RecoveryState) (o : Option InputEvent)
        → Advances view self next o
        → ((view : ℕ → Bool) (next : RecoveryState)
            → Tracks view next
            → left next ≤ n
            → Tracks (replay view (drain n next).1) (drain n next).0
              × (left (drain n next).0 ≡ 0)
              × ((drain n next).0.key_state ≡ next.key_state)
              × (length (drain n next).1 ≡ left next))
        → Tracks (replay view (noted o (drain n next).1)) (drain n next).0
          × (left (drain n next).0 ≡ 0)
          × ((drain n next).0.key_state ≡ self.key_state)
          × (length (noted o (drain n next).1) ≡ left self)
    by_event next none a more =
        let later = more view next a.0 (omega (arith, a.2)) in
        (later.0, later.1, later.2 ∙ a.3, omega (arith, later.3, a.1, a.2))
    by_event next (some e) a more =
        let later = more (heard view e) next a.0 (omega (arith, a.1)) in
        (later.0, later.1, later.2 ∙ a.2, omega (arith, later.3, a.1))

seed-Tracks :
    (self : RecoveryState) (keys : List ℕ) (time : TimeVal) (has_abs : Bool)
    → length self.key_state ≡ 12
    → All (λ w. w < 2 ^ 64) self.key_state
    → All (λ w. w < 2 ^ 64) keys
    → Tracks (holds self.key_state) (seed self keys time has_abs)
unfolding seed
seed-Tracks self keys time has_abs n h k = record {
  size = length-differences self.key_state keys ∙ n;
  small = All-differences self.key_state keys h k;
  idle = λ off. off;
  known = λ code l. ground (arith, holds-differences self.key_state keys code n l);
}

stops :
    (view : ℕ → Bool) (self : RecoveryState)
    → Tracks view self
    → left self ≡ 0
    → (next_key self).1 ≡ none
stops view self t h = by_event (next_key self).1 (next_key-Advances view self t)
  where
    by_event : (o : Option InputEvent) → Advances view self (next_key self).0 o → o ≡ none
    by_event none a = refl
    by_event (some e) a = absurd (omega (arith, h, a.1))

-- When a report was dropped, `seed` takes the keys that the kernel says are held now: then 768 calls
-- of `next_key` bring a reader that knew the old keys to the new ones, for every key code, with
-- exactly one event for each key that changed, and a further call has no event. The state has twelve
-- words, its words and the kernel's are below 2^64, and the code is below 768.
pub drain-seed :
    (self : RecoveryState) (keys : List ℕ) (time : TimeVal) (has_abs : Bool) (code : ℕ)
    → length self.key_state ≡ 12
    → All (λ w. w < 2 ^ 64) self.key_state
    → All (λ w. w < 2 ^ 64) keys
    → code < 768
    → (replay (holds self.key_state) (drain 768 (seed self keys time has_abs)).1 code
        ≡ holds (words_of 12 keys) code)
      × (length (drain 768 (seed self keys time has_abs)).1
          ≡ count_below (λ k. not (same (holds self.key_state k) (holds (words_of 12 keys) k))) 768)
      × ((next_key (drain 768 (seed self keys time has_abs)).0).1 ≡ none)
unfolding left seed
drain-seed self keys time has_abs code n h k l = (
  agrees code l,
  end.3
      ∙ count_same (λ k. not (same (holds self.key_state k) (holds (words_of 12 keys) k)))
          (holds (differences self.key_state keys)) 768
          (λ k m. holds-differences self.key_state keys k n m),
  stops (replay (holds self.key_state) (drain 768 start).1) (drain 768 start).0 end.0 end.1,
)
  where
    start : RecoveryState
    start = seed self keys time has_abs

    end :
        Tracks (replay (holds self.key_state) (drain 768 start).1) (drain 768 start).0
        × (left (drain 768 start).0 ≡ 0)
        × ((drain 768 start).0.key_state ≡ words_of 12 keys)
        × (length (drain 768 start).1 ≡ left start)
    end =
        drain-Tracks 768 (holds self.key_state) start (seed-Tracks self keys time has_abs n h k)
          (count_below_le (holds start.key_pending) 768)

    agrees :
        (code : ℕ)
        → code < 768
        → replay (holds self.key_state) (drain 768 start).1 code ≡ holds (words_of 12 keys) code
    agrees code l =
        end.0.known code l
        ∙ rw
            (
              count_below_zero (holds (drain 768 start).0.key_pending) 768 code end.1 l,
              if◌then◌else◌,
            )
            (ap (λ words. holds words code) end.2)
