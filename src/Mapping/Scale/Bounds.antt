-- ===== src/Mapping/Scale/Bounds.antt =====
-- The scaled value lies in the range of its axis (crates/wiiland-core/src/mapping.rs).
use native.Mathlib.Nat.{div-le_of_le-mul}
use wiiland.Prelude.{ℕ, zero, suc, ◌*◌, ◌/◌, ◌≤◌, ◌<◌, ◌≡◌, arith, ◌∙◌, leb, if◌then◌else◌}
use wiiland.Prelude.Int.{
  ℤ, pos, negsuc, ◌*ℤ◌, ◌≤ℤ◌, tdiv, neg, sub_ℕ, pos-*ℤ-pos, negsuc-*ℤ-pos, tdiv-pos, tdiv-sub_ℕ,
  Within,
}
use wiiland.Prelude.Width.{
  IsI32, wrap_i32, wrap_i32-eq, mul_i64-eq, magnitude, magnitude-*ℤ, magnitude-tdiv,
  IsI32-of_magnitude,
}
use wiiland.Mapping.Constants.{virtual_axis_min, virtual_axis_max}
use wiiland.Mapping.Scale.{ratio, scale_signed_axis, scale_unsigned_axis}

share-le : (v t e : ℕ) → v ≤ e → v * t / e ≤ t
share-le v t e h = div-le_of_le-mul e (grind arith)

ratio_magnitude :
    (a t e : ℤ) → magnitude a ≤ magnitude e → magnitude (tdiv (a *ℤ t) e) ≤ magnitude t
ratio_magnitude a t e h =
    rw (magnitude-tdiv (a *ℤ t) e)
      (rw (magnitude-*ℤ a t) (share-le (magnitude a) (magnitude t) (magnitude e) h))

-- A reading within its extent scales by exact arithmetic: no step overflows.
ratio-eq :
    (a t e : ℤ)
    → IsI32 a
    → IsI32 t
    → magnitude a ≤ magnitude e
    → magnitude t < 2147483648
    → ratio a t e ≡ tdiv (a *ℤ t) e
unfolding ratio
ratio-eq a t e ha ht h k =
    rw (mul_i64-eq a t ha ht)
      (wrap_i32-eq _ (IsI32-of_magnitude _ (omega (arith, ratio_magnitude a t e h))))

-- The result for a positive target and a positive extent.
ratio_positive :
    (v t e : ℕ)
    → v ≤ e
    → e < 2147483648
    → t < 2147483648
    → ratio (pos v) (pos t) (pos e) ≡ pos (v * t / e)
ratio_positive v t e h k l =
    ratio-eq (pos v) (pos t) (pos e) (omega arith) (omega arith) h l
    ∙ rw (pos-*ℤ-pos v t) (tdiv-pos (v * t) e)

ratio_negative :
    (v t e : ℕ)
    → suc v ≤ e
    → e < 2147483648
    → t < 2147483648
    → ratio (negsuc v) (pos t) (pos e) ≡ sub_ℕ 0 (suc v * t / e)
ratio_negative v t e h k l =
    ratio-eq (negsuc v) (pos t) (pos e) (omega arith) (omega arith) h l
    ∙ rw (negsuc-*ℤ-pos v t) (tdiv-sub_ℕ (suc v * t) e)

-- The signed scale as the source reads it, in exact arithmetic over the magnitude of the reading.
unfoldable pub scaled : ℤ → ℕ → ℕ → ℤ
scaled (pos v) n p = if leb p v then virtual_axis_max else pos (v * 32767 / p)
scaled (negsuc v) n p = if leb n (suc v) then virtual_axis_min else sub_ℕ 0 (suc v * 32768 / n)

pub scale_signed-scaled :
    (value : ℤ) (n p : ℕ)
    → IsI32 value
    → 0 < n
    → n < 2147483648
    → 0 < p
    → p < 2147483648
    → scale_signed_axis value (pos n) (pos p) ≡ scaled value n p
unfolding scale_signed_axis scaled wrap_i32 neg
scale_signed-scaled (pos v) n p h a b c d = ground (arith, ratio_positive v 32767 p)
scale_signed-scaled (negsuc v) n p h a b c d = ground (arith, ratio_negative v 32768 n)

pub scaled-Within :
    (value : ℤ) (n p : ℕ) → Within virtual_axis_min virtual_axis_max (scaled value n p)
unfolding scaled
scaled-Within (pos v) n p = ground (arith, share-le v 32767 p)
scaled-Within (negsuc v) n p = ground (arith, share-le (suc v) 32768 n)

-- Whatever the reading and the extents, a signed axis value lies between -32768 and 32767.
pub scale_signed_axis-Within :
    (value negative_extent positive_extent : ℤ)
    → IsI32 value
    → IsI32 negative_extent
    → IsI32 positive_extent
    → Within virtual_axis_min virtual_axis_max
        (scale_signed_axis value negative_extent positive_extent)
unfolding scale_signed_axis
scale_signed_axis-Within value (negsuc n) p h a b = ground arith
scale_signed_axis-Within value (pos zero) p h a b = ground arith
scale_signed_axis-Within value (pos (suc n)) (negsuc p) h a b = ground arith
scale_signed_axis-Within value (pos (suc n)) (pos zero) h a b = ground arith
scale_signed_axis-Within value (pos (suc n)) (pos (suc p)) h a b =
    rw
      (scale_signed-scaled value (suc n) (suc p) h (omega arith) (omega arith) (omega arith)
        (omega arith))
      (scaled-Within value (suc n) (suc p))

-- The unsigned scale in exact arithmetic.
unsigned_scaled : ℤ → ℕ → ℕ → ℤ
unsigned_scaled (negsuc v) s t = pos 0
unsigned_scaled (pos v) s t = if leb s v then pos t else pos (v * t / s)

scale_unsigned-scaled :
    (value : ℤ) (s t : ℕ)
    → 0 < s
    → s < 2147483648
    → t < 2147483648
    → scale_unsigned_axis value (pos s) (pos t) ≡ unsigned_scaled value s t
unfolding scale_unsigned_axis unsigned_scaled
scale_unsigned-scaled (negsuc v) s t h a b = ground arith
scale_unsigned-scaled (pos zero) s t h a b = ground arith
scale_unsigned-scaled (pos (suc v)) s t h a b = ground (arith, ratio_positive (suc v) t s)

unsigned_scaled-Within : (value : ℤ) (s t : ℕ) → Within (pos 0) (pos t) (unsigned_scaled value s t)
unfolding unsigned_scaled
unsigned_scaled-Within (negsuc v) s t = ground arith
unsigned_scaled-Within (pos v) s t = ground (arith, share-le v t s)

-- An unsigned axis value lies between 0 and the target's maximum, if that is not negative; whatever
-- the reading and the source's maximum.
pub scale_unsigned_axis-Within :
    (value source_max target_max : ℤ)
    → IsI32 source_max
    → IsI32 target_max
    → pos 0 ≤ℤ target_max
    → Within (pos 0) target_max (scale_unsigned_axis value source_max target_max)
unfolding scale_unsigned_axis
scale_unsigned_axis-Within value s (negsuc t) a b h = absurd (omega arith)
scale_unsigned_axis-Within value (negsuc s) (pos t) a b h = ground arith
scale_unsigned_axis-Within value (pos zero) (pos t) a b h = ground arith
scale_unsigned_axis-Within value (pos (suc s)) (pos t) a b h =
    rw (scale_unsigned-scaled value (suc s) t (omega arith) (omega arith) (omega arith))
      (unsigned_scaled-Within value (suc s) t)
