-- ===== src/Prelude/Mask.antt =====
-- Bit masks: single bits of `&`, `|` and the complement of a mask, at every position.
use Prim.Native.Nat.{
  ℕ, zero, suc, ◌+◌, ◌-◌, ◌*◌, ◌/◌, ◌%◌, ◌^◌, ◌≤◌, ◌<◌, min, max, bit_and, bit_or, digits, bitwise,
  bit_and-bitwise, bit_or-bitwise, bit_xor, bit_xor-bitwise, differ,
}
use mathlib.Core.Path.{◌≡◌, refl, ◌∙◌}
use mathlib.Core.Bool.{Bool, false, not, ◌&&◌, ◌||◌}
use native.Mathlib.Omega.{arith}
use native.Mathlib.Nat.{pow-suc, one-le-pow, pow-le-pow_right}
use wiiland.Prelude.Tests.{same, ◌==◌, if◌then◌else◌}

-- The digit of weight 2 ^ k.
unfoldable pub digit : ℕ → ℕ → ℕ
digit m zero = m % 2
digit m (suc k) = digit (m / 2) k

module _ (z : ℕ → ℕ) (f : ℕ → ℕ → ℕ) where
  -- The recursion that the native operations stand for, on any two amounts of fuel that suffice.
  enough_fuel : (a b k n : ℕ) → a ≤ k × a ≤ n → digits z f k a b ≡ digits z f n a b
  enough_fuel zero b zero zero h = refl
  enough_fuel zero b (suc k) zero h = refl
  enough_fuel zero b zero (suc n) h = refl
  enough_fuel zero b (suc k) (suc n) h = refl
  enough_fuel (suc a) b zero n h = absurd (omega (arith, h.0))
  enough_fuel (suc a) b (suc k) zero h = absurd (omega (arith, h.1))
  enough_fuel (suc a) b (suc k) (suc n) h =
      rw (enough_fuel (suc a / 2) (b / 2) k n (omega (arith, h.0), omega (arith, h.1)))

  lowest_digit :
      (a b : ℕ)
      → bitwise z f (suc a) b ≡ bitwise z f (suc a / 2) (b / 2) * 2 + f (suc a % 2) (b % 2)
  lowest_digit a b =
      omega (arith, enough_fuel (suc a / 2) (b / 2) a (suc a / 2) (omega arith, omega arith))

or_lowest : (a b : ℕ) → bit_or a b ≡ bit_or (a / 2) (b / 2) * 2 + max (a % 2) (b % 2)
or_lowest zero b = simp bit_or-bitwise (omega arith)
or_lowest (suc a) b = simp bit_or-bitwise (lowest_digit (λ y. y) max a b)

and_lowest : (a b : ℕ) → bit_and a b ≡ bit_and (a / 2) (b / 2) * 2 + min (a % 2) (b % 2)
and_lowest zero b = simp bit_and-bitwise (omega arith)
and_lowest (suc a) b = simp bit_and-bitwise (lowest_digit (λ y. 0) min a b)

xor_lowest : (a b : ℕ) → bit_xor a b ≡ bit_xor (a / 2) (b / 2) * 2 + differ (a % 2) (b % 2)
xor_lowest zero b = simp bit_xor-bitwise (ground arith)
xor_lowest (suc a) b = simp bit_xor-bitwise (lowest_digit (λ y. y) differ a b)

pub digit-le-one : (m k : ℕ) → digit m k ≤ 1
unfolding digit
digit-le-one m zero = omega arith
digit-le-one m (suc k) = digit-le-one (m / 2) k

digit-half : (m q r k : ℕ) → m ≡ q * 2 + r → r ≤ 1 → digit m (suc k) ≡ digit q k
unfolding digit
digit-half m q r k e h = let half : m / 2 ≡ q = omega arith in rw half

pub digit-or : (a b k : ℕ) → digit (bit_or a b) k ≡ max (digit a k) (digit b k)
unfolding digit
digit-or a b zero = omega (arith, or_lowest a b)
digit-or a b (suc k) =
    digit-half (bit_or a b) (bit_or (a / 2) (b / 2)) (max (a % 2) (b % 2)) k (or_lowest a b)
      (omega arith)
    ∙ digit-or (a / 2) (b / 2) k

pub digit-and : (a b k : ℕ) → digit (bit_and a b) k ≡ min (digit a k) (digit b k)
unfolding digit
digit-and a b zero = omega (arith, and_lowest a b)
digit-and a b (suc k) =
    digit-half (bit_and a b) (bit_and (a / 2) (b / 2)) (min (a % 2) (b % 2)) k (and_lowest a b)
      (omega arith)
    ∙ digit-and (a / 2) (b / 2) k

differ-le-one : (x y : ℕ) → x ≤ 1 → y ≤ 1 → differ x y ≤ 1
differ-le-one zero y h k = k
differ-le-one (suc x) zero h k = h
differ-le-one (suc x) (suc y) h k = differ-le-one x y (omega arith) (omega arith)

pub digit-xor : (a b k : ℕ) → digit (bit_xor a b) k ≡ differ (digit a k) (digit b k)
unfolding digit
digit-xor a b zero =
    omega (arith, xor_lowest a b, differ-le-one (a % 2) (b % 2) (omega arith) (omega arith))
digit-xor a b (suc k) =
    digit-half (bit_xor a b) (bit_xor (a / 2) (b / 2)) (differ (a % 2) (b % 2)) k (xor_lowest a b)
      (differ-le-one (a % 2) (b % 2) (omega arith) (omega arith))
    ∙ digit-xor (a / 2) (b / 2) k

-- `~m` in a word of `w` bits.
abbrev pub complement : ℕ → ℕ → ℕ
complement w m = 2 ^ w - 1 - m

half_lt : (m w : ℕ) → m < 2 ^ suc w → m / 2 < 2 ^ w
half_lt m w h = omega (arith, pow-suc 2 w)

pub digit-complement : (w m k : ℕ) → m < 2 ^ w → k < w → digit (complement w m) k ≡ 1 - digit m k
unfolding digit
digit-complement zero m k h l = absurd (omega arith)
digit-complement (suc w) m zero h l = omega (arith, pow-suc 2 w)
digit-complement (suc w) m (suc k) h l =
    let half : complement (suc w) m / 2 ≡ complement w (m / 2) = omega (arith, pow-suc 2 w) in
    rw half (digit-complement w (m / 2) k (half_lt m w h) (omega arith))

digit-zero : (k : ℕ) → digit 0 k ≡ 0
unfolding digit
digit-zero zero = refl
digit-zero (suc k) = digit-zero k

pub digit-pow : (j k : ℕ) → digit (2 ^ j) k ≡ (if j == k then 1 else 0)
unfolding digit
digit-pow zero zero = refl
digit-pow zero (suc k) = ground (arith, digit-zero k)
digit-pow (suc j) zero = ground (arith, pow-suc 2 j)
digit-pow (suc j) (suc k) =
    let half : 2 ^ suc j / 2 ≡ 2 ^ j = omega (arith, pow-suc 2 j) in
    rw half (ground (arith, digit-pow j k))

and_zero : (n m : ℕ) → m ≤ n → bit_and m 0 ≡ 0
and_zero n zero h = refl
and_zero zero (suc m) h = absurd (omega arith)
and_zero (suc n) (suc m) h =
    omega (arith, and_lowest (suc m) 0, and_zero n (suc m / 2) (omega arith))

-- The test `m & (1 << k)` reads one digit.
pub and_bit : (m k : ℕ) → bit_and m (2 ^ k) ≡ digit m k * 2 ^ k
unfolding digit
and_bit m zero = omega (arith, and_lowest m 1, and_zero (m / 2) (m / 2))
and_bit m (suc k) =
    let half : 2 ^ suc k / 2 ≡ 2 ^ k = omega (arith, pow-suc 2 k) in
    and_lowest m (2 ^ suc k) ∙ rw half (rw (and_bit (m / 2) k) (grind (arith, pow-suc 2 k)))

-- `m & (1 << k) != 0`.
abbrev pub has_bit : ℕ → ℕ → Bool
has_bit m k = not (bit_and m (2 ^ k) == 0)

nonzero_digit : (d p : ℕ) → d ≤ 1 → 1 ≤ p → not (d * p == 0) ≡ (d == 1)
nonzero_digit zero p h k = ground arith
nonzero_digit (suc zero) p h k = ground arith
nonzero_digit (suc (suc d)) p h k = absurd (omega arith)

pub has_bit-digit : (m k : ℕ) → has_bit m k ≡ (digit m k == 1)
has_bit-digit m k =
    rw (and_bit m k)
      (nonzero_digit (digit m k) (2 ^ k) (digit-le-one m k) (one-le-pow k 2 (omega arith)))

pub pow_below : (w j : ℕ) → j < w → 2 ^ j < 2 ^ w
pow_below zero j h = absurd (omega arith)
pow_below (suc w) j h =
    let most : 2 ^ j ≤ 2 ^ w = pow-le-pow_right (omega arith) {i = j} {j = w} (omega arith) in
    omega (arith, pow-suc 2 w, one-le-pow w 2 (omega arith))

pub has_bit-or : (a b k : ℕ) → has_bit (bit_or a b) k ≡ has_bit a k || has_bit b k
has_bit-or a b k = rw (has_bit-digit (bit_or a b) k) (
    rw (has_bit-digit a k)
      (rw (has_bit-digit b k) (ground (arith, digit-or a b k, digit-le-one a k, digit-le-one b k))))

pub has_bit-set : (m j k : ℕ) → has_bit (bit_or m (2 ^ j)) k ≡ has_bit m k || (j == k)
has_bit-set m j k =
    rw (has_bit-or m (2 ^ j) k) (rw (has_bit-digit (2 ^ j) k) (ground (arith, digit-pow j k)))

pub has_bit-clear_in :
    (w m j k : ℕ)
    → j < w
    → k < w
    → has_bit (bit_and m (complement w (2 ^ j))) k ≡ has_bit m k && not (j == k)
has_bit-clear_in w m j k h l = rw (has_bit-digit (bit_and m (complement w (2 ^ j))) k) (
    rw (has_bit-digit m k) (
      ground (
        arith,
        digit-and m (complement w (2 ^ j)) k,
        digit-complement w (2 ^ j) k (pow_below w j h) l,
        digit-pow j k,
        digit-le-one m k,
      )))

pub has_bit-clear :
    (m j k : ℕ)
    → j < 32
    → k < 32
    → has_bit (bit_and m (complement 32 (2 ^ j))) k ≡ has_bit m k && not (j == k)
has_bit-clear m j k h l = has_bit-clear_in 32 m j k h l

pub has_bit-zero : (k : ℕ) → has_bit 0 k ≡ false
has_bit-zero k = rw (has_bit-digit 0 k) (ground (arith, digit-zero k))

unequal_digits : (x y : ℕ) → x ≤ 1 → y ≤ 1 → (differ x y == 1) ≡ not (same (x == 1) (y == 1))
unequal_digits zero zero h k = refl
unequal_digits zero (suc zero) h k = refl
unequal_digits (suc zero) zero h k = refl
unequal_digits (suc zero) (suc zero) h k = refl
unequal_digits (suc (suc x)) y h k = absurd (omega arith)
unequal_digits x (suc (suc y)) h k = absurd (omega arith)

pub has_bit-xor : (a b k : ℕ) → has_bit (bit_xor a b) k ≡ not (same (has_bit a k) (has_bit b k))
has_bit-xor a b k = rw (has_bit-digit (bit_xor a b) k) (
    rw (has_bit-digit a k) (
      rw (has_bit-digit b k) (
        rw (digit-xor a b k)
          (unequal_digits (digit a k) (digit b k) (digit-le-one a k) (digit-le-one b k)))))

and_le_within : (n a b : ℕ) → a ≤ n → bit_and a b ≤ a
and_le_within n zero b h = simp bit_and-bitwise (omega arith)
and_le_within zero (suc a) b h = absurd (omega arith)
and_le_within (suc n) (suc a) b h =
    omega (arith, and_lowest (suc a) b, and_le_within n (suc a / 2) (b / 2) (omega arith))

pub bit_and-le : (a b : ℕ) → bit_and a b ≤ a
bit_and-le a b = and_le_within a a b (omega arith)

pub bit_xor-lt : (w a b : ℕ) → a < 2 ^ w → b < 2 ^ w → bit_xor a b < 2 ^ w
bit_xor-lt zero zero zero h k = omega arith
bit_xor-lt zero (suc a) b h k = absurd (omega arith)
bit_xor-lt zero a (suc b) h k = absurd (omega arith)
bit_xor-lt (suc w) a b h k = omega (
  arith,
  xor_lowest a b,
  pow-suc 2 w,
  differ-le-one (a % 2) (b % 2) (omega arith) (omega arith),
  bit_xor-lt w (a / 2) (b / 2) (half_lt a w h) (half_lt b w k),
)

pub bit_or-lt : (w a b : ℕ) → a < 2 ^ w → b < 2 ^ w → bit_or a b < 2 ^ w
bit_or-lt zero zero zero h k = omega arith
bit_or-lt zero (suc a) b h k = absurd (omega arith)
bit_or-lt zero a (suc b) h k = absurd (omega arith)
bit_or-lt (suc w) a b h k = omega (
  arith,
  or_lowest a b,
  pow-suc 2 w,
  differ-le-one (a % 2) (b % 2) (omega arith) (omega arith),
  bit_or-lt w (a / 2) (b / 2) (half_lt a w h) (half_lt b w k),
)
