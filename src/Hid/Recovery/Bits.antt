-- ===== src/Hid/Recovery/Bits.antt =====
-- The bits of an array of words, for crates/wiiland-hid/src/decode.rs.
use wiiland.Prelude.{
  ℕ, zero, suc, ◌+◌, ◌-◌, ◌*◌, ◌/◌, ◌%◌, ◌^◌, ◌<◌, ◌≤◌, ◌≡◌, refl, ap, ◌∙◌, arith, Bool, true,
  false, not, same, ◌&&◌, ◌||◌, ◌==◌, List, [], ◌∷◌, Option, none, some, bit_and, bit_or,
  if◌then◌else◌, if_cases,
}
use native.Mathlib.Nat.{pow-suc}
use wiiland.Prelude.Lists.{length, set, any}
use wiiland.Prelude.Mask.{
  digit, has_bit, complement, has_bit-clear_in, has_bit-set, has_bit-xor, has_bit-zero,
}
use wiiland.Hid.Recovery.{
  word_at, words_of, differences, nonzero, trailing_zeros, first_word, clear_bit, set_bit,
}

-- Whether the key with a code is held in an array of words.
abbrev pub holds : List ℕ → ℕ → Bool
holds words code = has_bit (word_at words (code / 64)) (code % 64)

word_at-set :
    (words : List ℕ) (i j v : ℕ)
    → i < length words
    → word_at (set words i v) j ≡ (if i == j then v else word_at words j)
word_at-set [] i j v h = absurd (omega arith)
word_at-set (w ∷ words) zero zero v h = refl
word_at-set (w ∷ words) zero (suc j) v h = ground arith
word_at-set (w ∷ words) (suc i) zero v h = ground arith
word_at-set (w ∷ words) (suc i) (suc j) v h = ground (arith, word_at-set words i j v)

pub holds-clear_bit :
    (words : List ℕ) (i bit code : ℕ)
    → i < length words
    → bit < 64
    → holds (clear_bit words i bit) code ≡ holds words code && not (code == i * 64 + bit)
holds-clear_bit words i bit code h l =
    ap (λ w. has_bit w (code % 64))
      (word_at-set words i (code / 64) (bit_and (word_at words i) (complement 64 (2 ^ bit))) h)
    ∙ if_cases (λ w. has_bit w (code % 64) ≡ holds words code && not (code == i * 64 + bit))
        (i == code / 64) _ _
        (λ e.
          let here : i ≡ code / 64 = ground arith in
          let word : word_at words i ≡ word_at words (code / 64) = ap (word_at words) here in
          ground (
            arith,
            has_bit-clear_in 64 (word_at words i) bit (code % 64) l (omega arith),
            ap (λ w. has_bit w (code % 64)) word,
          ))
        (λ e. ground arith)

pub holds-set_bit :
    (words : List ℕ) (i bit code : ℕ)
    → i < length words
    → bit < 64
    → holds (set_bit words i bit) code ≡ holds words code || (code == i * 64 + bit)
holds-set_bit words i bit code h l =
    ap (λ w. has_bit w (code % 64))
      (word_at-set words i (code / 64) (bit_or (word_at words i) (2 ^ bit)) h)
    ∙ if_cases (λ w. has_bit w (code % 64) ≡ holds words code || (code == i * 64 + bit))
        (i == code / 64) _ _
        (λ e.
          let here : i ≡ code / 64 = ground arith in
          let word : word_at words i ≡ word_at words (code / 64) = ap (word_at words) here in
          ground (
            arith,
            has_bit-set (word_at words i) bit (code % 64),
            ap (λ w. has_bit w (code % 64)) word,
          ))
        (λ e. ground arith)

pub holds-zero : (words : List ℕ) (code : ℕ) → any nonzero words ≡ false → holds words code ≡ false
holds-zero words code h = rw (zero_word words (code / 64) h) (has_bit-zero (code % 64))
  where
    zero_word : (words : List ℕ) (i : ℕ) → any nonzero words ≡ false → word_at words i ≡ 0
    zero_word [] i h = refl
    zero_word (w ∷ words) zero h = ground arith
    zero_word (w ∷ words) (suc i) h = zero_word words i (ground arith)

pub holds-differences :
    (words keys : List ℕ) (code : ℕ)
    → length words ≡ 12
    → code < 768
    → holds (differences words keys) code
      ≡ not (same (holds words code) (holds (words_of 12 keys) code))
holds-differences words keys code h l =
    at_word 12 words keys (code / 64) (code % 64) h (omega arith)
  where
    at_word :
        (n : ℕ) (words keys : List ℕ) (i k : ℕ)
        → length words ≡ n
        → i < n
        → has_bit (word_at (differences words keys) i) k
          ≡ not (same (has_bit (word_at words i) k) (has_bit (word_at (words_of n keys) i) k))
    at_word zero words keys i k h l = absurd (omega arith)
    at_word (suc n) [] keys i k h l = absurd (omega arith)
    at_word (suc n) (w ∷ words) [] zero k h l = has_bit-xor w 0 k
    at_word (suc n) (w ∷ words) (x ∷ keys) zero k h l = has_bit-xor w x k
    at_word (suc n) (w ∷ words) [] (suc i) k h l =
        at_word n words [] i k (omega arith) (omega arith)
    at_word (suc n) (w ∷ words) (x ∷ keys) (suc i) k h l =
        at_word n words keys i k (omega arith) (omega arith)

-- The number of trailing zeros is the place of a bit.
pub trailing_zeros-digit :
    (n w : ℕ) → 0 < w → w < 2 ^ n → (trailing_zeros n w < n) × (digit w (trailing_zeros n w) ≡ 1)
unfolding trailing_zeros digit
trailing_zeros-digit zero w p h = absurd (omega arith)
trailing_zeros-digit (suc n) w p h =
    if_cases (λ t. (t < suc n) × (digit w t ≡ 1)) (w % 2 == 1) 0 (suc (trailing_zeros n (w / 2)))
      (λ e. (omega arith, ground arith))
      (λ e.
        let even : w % 2 ≡ 0 = ground arith in
        let later = trailing_zeros-digit n (w / 2) (omega arith) (omega (arith, pow-suc 2 n)) in
        (omega (arith, later.0), later.1))

-- The word that is found holds a bit, and none is found when all are zero.
abbrev pub Found : ℕ → List ℕ → Option ℕ → Type 0
Found i words none = any nonzero words ≡ false
Found i words (some j) = (i ≤ j) × (j < i + length words) × (0 < word_at words (j - i))

pub first_word-Found : (i : ℕ) (words : List ℕ) → Found i words (first_word i words)
unfolding first_word
first_word-Found i [] = refl
first_word-Found i (w ∷ words) =
    if_cases (Found i (w ∷ words)) (w == 0) (first_word (suc i) words) (some i)
      (λ e. skip (first_word (suc i) words) e (first_word-Found (suc i) words))
      (λ e. (omega arith, omega arith, rw (sub_self i) (ground arith)))
  where
    sub_self : (i : ℕ) → i - i ≡ 0
    sub_self i = omega arith

    skip : (o : Option ℕ) → (w == 0) ≡ true → Found (suc i) words o → Found i (w ∷ words) o
    skip none e f = ground arith
    skip (some j) e f =
        let gap : j - i ≡ suc (j - suc i) = omega (arith, f.0) in
        (omega (arith, f.0), omega (arith, f.1), rw gap f.2)
