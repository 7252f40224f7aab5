-- ===== src/Prelude/Mean.antt =====
-- Sums of machine integers and their means, rounded toward zero.
use native.Mathlib.Nat.{le-div_iff_mul-le, div-le_of_le-mul}
use Prim.Native.Nat.{ℕ, zero, suc, ◌+◌, ◌*◌, ◌/◌, ◌≤◌, ◌<◌}
use native.Mathlib.Omega.{arith}
use wiiland.Prelude.Int.{ℤ, pos, negsuc, pos_part, neg_part, ◌+ℤ◌, +ℤ_parts, tdiv, ◌≤ℤ◌, Within}
use wiiland.Prelude.Width.{
  IsI32, IsI64, wrap_i32, wrap_i32-eq, add_i64, wrap_i64-eq, magnitude, IsI64-of_magnitude,
}

-- `n` times `lo` is at most the sum, and the other way round.
abbrev pub AtLeast : ℕ → ℤ → ℤ → Type 0
AtLeast n lo sum = n * pos_part lo + neg_part sum ≤ pos_part sum + n * neg_part lo

abbrev pub AtMost : ℕ → ℤ → ℤ → Type 0
AtMost n hi sum = pos_part sum + n * neg_part hi ≤ n * pos_part hi + neg_part sum

magnitude-sum :
    (sum v : ℤ) (m : ℕ) → magnitude sum ≤ m → IsI32 v → magnitude (sum +ℤ v) ≤ m + 2147483648
unfolding ◌+ℤ◌
magnitude-sum sum v m h i = ground arith

pub AtLeast-add :
    (n : ℕ) (lo sum v : ℤ) → AtLeast n lo sum → lo ≤ℤ v → AtLeast (suc n) lo (sum +ℤ v)
AtLeast-add n lo sum v h k = omega (arith, +ℤ_parts sum v)

pub AtMost-add : (n : ℕ) (hi sum v : ℤ) → AtMost n hi sum → v ≤ℤ hi → AtMost (suc n) hi (sum +ℤ v)
AtMost-add n hi sum v h k = omega (arith, +ℤ_parts sum v)

le-quotient : (n l s : ℕ) → 0 < n → l * n ≤ s → l ≤ s / n
le-quotient n l s p h = (le-div_iff_mul-le p).1 h

quotient-le : (n l s : ℕ) → s ≤ n * l → s / n ≤ l
quotient-le n l s h = div-le_of_le-mul n h

pub mean_at_least : (n : ℕ) (lo sum : ℤ) → 0 < n → AtLeast n lo sum → lo ≤ℤ tdiv sum (pos n)
unfolding tdiv
mean_at_least n (pos l) (pos s) p h = omega (arith, le-quotient n l s p (omega arith))
mean_at_least n (pos zero) (negsuc s) p h = absurd (omega arith)
mean_at_least n (pos (suc l)) (negsuc s) p h = absurd (omega arith)
mean_at_least n (negsuc l) (pos s) p h = omega arith
mean_at_least n (negsuc l) (negsuc s) p h = ground (arith, quotient-le n (suc l) (suc s))

pub mean_at_most : (n : ℕ) (hi sum : ℤ) → 0 < n → AtMost n hi sum → tdiv sum (pos n) ≤ℤ hi
unfolding tdiv
mean_at_most n (pos l) (pos s) p h = omega (arith, quotient-le n l s (omega arith))
mean_at_most n (pos l) (negsuc s) p h = ground arith
mean_at_most n (negsuc l) (pos s) p h = absurd (omega arith)
mean_at_most n (negsuc l) (negsuc s) p h =
    ground (arith, le-quotient n (suc l) (suc s) p (omega arith))

-- An `i64` sum of `n` values that are `i32` and lie between `lo` and `hi`.
pub record Sums (n : ℕ) (lo hi sum : ℤ) : Type 0 where
  pub low : AtLeast n lo sum
  pub high : AtMost n hi sum
  pub small : magnitude sum ≤ n * 2147483648

pub Sums-add :
    (n : ℕ) (lo hi sum v : ℤ)
    → n < 4294967295
    → IsI32 v
    → Within lo hi v
    → Sums n lo hi sum
    → Sums (suc n) lo hi (add_i64 sum v)
Sums-add n lo hi sum v room i h k = rw (wrap_i64-eq (sum +ℤ v) fits) (record {
  low = AtLeast-add n lo sum v k.low h.0;
  high = AtMost-add n hi sum v k.high h.1;
  small = grows;
})
  where
    grows : magnitude (sum +ℤ v) ≤ suc n * 2147483648
    grows = omega (arith, magnitude-sum sum v (n * 2147483648) k.small i)

    fits : IsI64 (sum +ℤ v)
    fits = IsI64-of_magnitude _ (omega (arith, grows))

pub Sums-mean :
    (n : ℕ) (lo hi sum : ℤ)
    → 0 < n
    → IsI32 lo
    → IsI32 hi
    → Sums n lo hi sum
    → Within lo hi (wrap_i32 (tdiv sum (pos n)))
Sums-mean n lo hi sum p a b k =
    let l = mean_at_least n lo sum p k.low in
    let h = mean_at_most n hi sum p k.high in
    rw (wrap_i32-eq (tdiv sum (pos n)) (omega arith)) (l, h)
