-- ===== src/Hid/Recovery/Keeps.antt =====
-- The arrays of the recovery state keep their size of twelve words of 64 bits.
use wiiland.Prelude.{
  ℕ, zero, suc, ◌/◌, ◌%◌, ◌^◌, ◌<◌, ◌≡◌, refl, ◌∙◌, arith, Bool, not, List, [], ◌∷◌, Option, none,
  some, bit_and, bit_or, if_both,
}
use wiiland.Prelude.Int.{pos, eqb_ℤ}
use wiiland.Prelude.Lists.{length, set, All, replicate}
use wiiland.Prelude.Mask.{complement, bit_and-le, bit_or-lt, bit_xor-lt, pow_below}
use wiiland.Hid.Model.{TimeVal, InputEvent}
use wiiland.Hid.Recovery.{
  RecoveryState, default, dropped, word_at, words_of, initialize, differences, seed, first_word,
  trailing_zeros, clear_bit, set_bit, take_key, next_key, take_report, remember,
}

pub All-set :
    (words : List ℕ) (i v : ℕ)
    → All (λ w. w < 2 ^ 64) words
    → v < 2 ^ 64
    → All (λ w. w < 2 ^ 64) (set words i v)
All-set [] i v h l = tt
All-set (w ∷ words) zero v h l = (l, h.1)
All-set (w ∷ words) (suc i) v h l = (h.0, All-set words i v h.1 l)

pub length-set : (words : List ℕ) (i v : ℕ) → length (set words i v) ≡ length words
length-set [] i v = refl
length-set (w ∷ words) zero v = refl
length-set (w ∷ words) (suc i) v = omega (arith, length-set words i v)

pub word_small : (words : List ℕ) (i : ℕ) → All (λ w. w < 2 ^ 64) words → word_at words i < 2 ^ 64
word_small [] i h = omega arith
word_small (w ∷ words) zero h = h.0
word_small (w ∷ words) (suc i) h = word_small words i h.1

pub length-differences : (words keys : List ℕ) → length (differences words keys) ≡ length words
length-differences [] keys = refl
length-differences (w ∷ words) [] = omega (arith, length-differences words [])
length-differences (w ∷ words) (k ∷ keys) = omega (arith, length-differences words keys)

pub All-differences :
    (words keys : List ℕ)
    → All (λ w. w < 2 ^ 64) words
    → All (λ w. w < 2 ^ 64) keys
    → All (λ w. w < 2 ^ 64) (differences words keys)
All-differences [] keys h k = tt
All-differences (w ∷ words) [] h k =
    (bit_xor-lt 64 w 0 h.0 (omega arith), All-differences words [] h.1 k)
All-differences (w ∷ words) (c ∷ keys) h k =
    (bit_xor-lt 64 w c h.0 k.0, All-differences words keys h.1 k.1)

abbrev IsWords : List ℕ → Type 0
IsWords words = (length words ≡ 12) × All (λ w. w < 2 ^ 64) words

abbrev pub IsRecovery : RecoveryState → Type 0
IsRecovery self = IsWords self.key_state × IsWords self.key_pending

clear_bit-IsWords : (words : List ℕ) (i bit : ℕ) → IsWords words → IsWords (clear_bit words i bit)
clear_bit-IsWords words i bit h = (
  omega (arith, length-set words i (bit_and (word_at words i) (complement 64 (2 ^ bit))), h.0),
  All-set words i (bit_and (word_at words i) (complement 64 (2 ^ bit))) h.1 (
      omega
        (arith, word_small words i h.1, bit_and-le (word_at words i) (complement 64 (2 ^ bit)))),
)

set_bit-IsWords :
    (words : List ℕ) (i bit : ℕ) → bit < 64 → IsWords words → IsWords (set_bit words i bit)
set_bit-IsWords words i bit l h = (
  omega (arith, length-set words i (bit_or (word_at words i) (2 ^ bit)), h.0),
  All-set words i (bit_or (word_at words i) (2 ^ bit)) h.1
      (bit_or-lt 64 (word_at words i) (2 ^ bit) (word_small words i h.1) (pow_below 64 bit l)),
)

words_of-IsWords :
    (n : ℕ) (keys : List ℕ)
    → All (λ w. w < 2 ^ 64) keys
    → (length (words_of n keys) ≡ n) × All (λ w. w < 2 ^ 64) (words_of n keys)
words_of-IsWords zero keys h = (refl, tt)
words_of-IsWords (suc n) [] h =
    let rest = words_of-IsWords n [] tt in (omega (arith, rest.0), (omega arith, rest.1))
words_of-IsWords (suc n) (k ∷ keys) h =
    let rest = words_of-IsWords n keys h.1 in (omega (arith, rest.0), (h.0, rest.1))

zeros-IsWords : IsWords (replicate 12 0)
zeros-IsWords = words_of-IsWords 12 [] tt

pub default-IsRecovery : IsRecovery default
unfolding default
default-IsRecovery = (zeros-IsWords, zeros-IsWords)

pub dropped-IsRecovery : (self : RecoveryState) → IsRecovery self → IsRecovery (dropped self)
unfolding dropped
dropped-IsRecovery self r = r

pub initialize-IsRecovery :
    (self : RecoveryState) (keys : List ℕ)
    → All (λ w. w < 2 ^ 64) keys
    → IsRecovery (initialize self keys)
unfolding initialize
initialize-IsRecovery self keys h = (words_of-IsWords 12 keys h, zeros-IsWords)

pub seed-IsRecovery :
    (self : RecoveryState) (keys : List ℕ) (time : TimeVal) (has_abs : Bool)
    → IsRecovery self
    → All (λ w. w < 2 ^ 64) keys
    → IsRecovery (seed self keys time has_abs)
unfolding seed
seed-IsRecovery self keys time has_abs r h = (
  words_of-IsWords 12 keys h,
  (length-differences self.key_state keys ∙ r.0.0, All-differences self.key_state keys r.0.1 h),
)

pub next_key-IsRecovery : (self : RecoveryState) → IsRecovery self → IsRecovery (next_key self).0
unfolding next_key
next_key-IsRecovery self r =
    if_both (λ (n : RecoveryState × Option InputEvent). IsRecovery n.0)
      (not self.key_resync_pending) (self, none) (take_key self (first_word 0 self.key_pending)) r
      (taken (first_word 0 self.key_pending))
  where
    taken : (o : Option ℕ) → IsRecovery (take_key self o).0
    taken none = r
    taken (some i) = (
      r.0,
      clear_bit-IsWords self.key_pending i (trailing_zeros 64 (word_at self.key_pending i)) r.1,
    )

pub take_report-IsRecovery :
    (self : RecoveryState) → IsRecovery self → IsRecovery (take_report self).0
unfolding take_report
take_report-IsRecovery self r =
    if_both (λ (n : RecoveryState × Option InputEvent). IsRecovery n.0)
      (not self.report_resync_pending) _ _ r r

pub remember-IsRecovery :
    (self : RecoveryState) (input : InputEvent) → IsRecovery self → IsRecovery (remember self input)
unfolding remember
remember-IsRecovery self input r = if_both IsRecovery _ _ _ r (
    if_both IsRecovery (eqb_ℤ input.value (pos 0)) _ _
      (clear_bit-IsWords self.key_state (input.code / 64) (input.code % 64) r.0, r.1)
      (set_bit-IsWords self.key_state (input.code / 64) (input.code % 64) (omega arith) r.0, r.1))
