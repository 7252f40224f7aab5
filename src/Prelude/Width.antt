-- ===== src/Prelude/Width.antt =====
-- The machine widths of the source: `i32` and `i64` as integers, with their wrap-around.
use Prim.Native.Nat.{ℕ, suc, ◌-◌, ◌*◌, ◌/◌, ◌%◌, ◌^◌, ◌≤◌, ◌<◌}
use mathlib.Core.Path.{◌≡◌, refl}
use native.Mathlib.Omega.{arith}
use wiiland.Prelude.Tests.{ltb, if◌then◌else◌}
use wiiland.Prelude.Int.{
  ℤ, pos, negsuc, ◌+ℤ◌, ◌-ℤ◌, ◌*ℤ◌, neg, tdiv, ltb_ℤ, Within, +ℤ_parts, -ℤ_parts, parts_apart,
}

-- The value of the low 32 bits, read as two's complement: `as i32`, and `i32` arithmetic that wraps.
unfoldable pub wrap_i32 : ℤ → ℤ
wrap_i32 (pos n) = let r = n % 2 ^ 32 in if ltb r (2 ^ 31) then pos r else negsuc (2 ^ 32 - 1 - r)
wrap_i32 (negsuc n) =
    let r = n % 2 ^ 32 in if ltb r (2 ^ 31) then negsuc r else pos (2 ^ 32 - 1 - r)

unfoldable pub wrap_i64 : ℤ → ℤ
wrap_i64 (pos n) = let r = n % 2 ^ 64 in if ltb r (2 ^ 63) then pos r else negsuc (2 ^ 64 - 1 - r)
wrap_i64 (negsuc n) =
    let r = n % 2 ^ 64 in if ltb r (2 ^ 63) then negsuc r else pos (2 ^ 64 - 1 - r)

abbrev pub i32_min : ℤ
i32_min = negsuc 2147483647

abbrev pub i32_max : ℤ
i32_max = pos 2147483647

abbrev pub IsI32 : ℤ → Type 0
IsI32 = Within i32_min i32_max

abbrev pub IsI64 : ℤ → Type 0
IsI64 = Within (negsuc 9223372036854775807) (pos 9223372036854775807)

-- Arithmetic of the two widths.
abbrev pub add_i32 : ℤ → ℤ → ℤ
add_i32 a b = wrap_i32 (a +ℤ b)

abbrev pub sub_i32 : ℤ → ℤ → ℤ
sub_i32 a b = wrap_i32 (a -ℤ b)

abbrev pub neg_i32 : ℤ → ℤ
neg_i32 a = wrap_i32 (neg a)

abbrev pub add_i64 : ℤ → ℤ → ℤ
add_i64 a b = wrap_i64 (a +ℤ b)

abbrev pub sub_i64 : ℤ → ℤ → ℤ
sub_i64 a b = wrap_i64 (a -ℤ b)

abbrev pub mul_i64 : ℤ → ℤ → ℤ
mul_i64 a b = wrap_i64 (a *ℤ b)

-- `abs` on an `i32` leaves the least value as it is.
abbrev pub abs_i32 : ℤ → ℤ
abs_i32 a = if ltb_ℤ a (pos 0) then neg_i32 a else a

-- Division of an `i32` by a divisor that is neither 0 nor -1 does not overflow.
abbrev pub div_i32 : ℤ → ℤ → ℤ
div_i32 a b = tdiv a b

pub wrap_i32-eq : (a : ℤ) → IsI32 a → wrap_i32 a ≡ a
unfolding wrap_i32
wrap_i32-eq a h = ground arith

pub wrap_i64-eq : (a : ℤ) → IsI64 a → wrap_i64 a ≡ a
unfolding wrap_i64
wrap_i64-eq a h = ground arith

pub wrap_i32-IsI32 : (a : ℤ) → IsI32 (wrap_i32 a)
unfolding wrap_i32
wrap_i32-IsI32 a = ground arith

pub wrap_i64-IsI64 : (a : ℤ) → IsI64 (wrap_i64 a)
unfolding wrap_i64
wrap_i64-IsI64 a = ground arith

-- The absolute value, as a number.
abbrev pub magnitude : ℤ → ℕ
magnitude (pos n) = n
magnitude (negsuc n) = suc n

pub magnitude-*ℤ : (a b : ℤ) → magnitude (a *ℤ b) ≡ magnitude a * magnitude b
unfolding ◌*ℤ◌
magnitude-*ℤ (pos a) (pos b) = ground arith
magnitude-*ℤ (pos a) (negsuc b) = ground arith
magnitude-*ℤ (negsuc a) (pos b) = ground arith
magnitude-*ℤ (negsuc a) (negsuc b) = ground arith

pub magnitude-tdiv : (a b : ℤ) → magnitude (tdiv a b) ≡ magnitude a / magnitude b
unfolding tdiv
magnitude-tdiv (pos a) (pos b) = refl
magnitude-tdiv (pos a) (negsuc b) = ground arith
magnitude-tdiv (negsuc a) (pos b) = ground arith
magnitude-tdiv (negsuc a) (negsuc b) = refl

pub magnitude-le_of_IsI32 : (a : ℤ) → IsI32 a → magnitude a ≤ 2147483648
magnitude-le_of_IsI32 a h = ground arith

pub IsI64-of_magnitude : (a : ℤ) → magnitude a < 9223372036854775808 → IsI64 a
IsI64-of_magnitude a h = ground arith

pub IsI32-of_magnitude : (a : ℤ) → magnitude a < 2147483648 → IsI32 a
IsI32-of_magnitude a h = ground arith

mul-le-mul : (a b m n : ℕ) → a ≤ m → b ≤ n → a * b ≤ m * n
mul-le-mul a b m n h k = grind arith

-- A product of two values of at most 2 ^ 31 in magnitude never overflows an `i64`.
pub mul_i64_small :
    (a b : ℤ) → magnitude a ≤ 2147483648 → magnitude b ≤ 2147483648 → mul_i64 a b ≡ a *ℤ b
mul_i64_small a b h k = wrap_i64-eq (a *ℤ b) (
    IsI64-of_magnitude _ (
      omega (
        arith,
        magnitude-*ℤ a b,
        mul-le-mul (magnitude a) (magnitude b) 2147483648 2147483648 h k,
      )))

pub mul_i64-eq : (a b : ℤ) → IsI32 a → IsI32 b → mul_i64 a b ≡ a *ℤ b
mul_i64-eq a b h k = mul_i64_small a b (magnitude-le_of_IsI32 a h) (magnitude-le_of_IsI32 b k)

pub add_i64-eq : (a b : ℤ) → IsI32 a → IsI32 b → add_i64 a b ≡ a +ℤ b
add_i64-eq a b h k = wrap_i64-eq (a +ℤ b) (omega (arith, +ℤ_parts a b, parts_apart (a +ℤ b)))

pub sub_i64-eq : (a b : ℤ) → IsI32 a → IsI32 b → sub_i64 a b ≡ a -ℤ b
sub_i64-eq a b h k = wrap_i64-eq (a -ℤ b) (omega (arith, -ℤ_parts a b, parts_apart (a -ℤ b)))
