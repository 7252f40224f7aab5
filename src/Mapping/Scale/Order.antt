-- ===== src/Mapping/Scale/Order.antt =====
-- Scaling keeps the order of readings and meets the ends of the range (crates/wiiland-core/src/mapping.rs).
use native.Mathlib.Nat.{le-div_iff_mul-le, div-mul-le_self}
use wiiland.Prelude.{ℕ, suc, ◌*◌, ◌/◌, ◌≤◌, ◌<◌, arith}
use wiiland.Prelude.Int.{ℤ, pos, negsuc, ◌≤ℤ◌}
use wiiland.Prelude.Width.{IsI32}
use wiiland.Mapping.Scale.{scale_signed_axis}
use wiiland.Mapping.Scale.Bounds.{scaled, scale_signed-scaled, scaled-Within}

share_mono : (v w t e : ℕ) → 0 < e → v ≤ w → v * t / e ≤ w * t / e
share_mono v w t e p h =
    (le-div_iff_mul-le p).1 (le_chain (div-mul-le_self (v * t) e) (grind arith))
  where
    le_chain : {x y z : ℕ} → x ≤ y → y ≤ z → x ≤ z
    le_chain h k = omega arith

scaled_mono : (a b : ℤ) (n p : ℕ) → 0 < n → 0 < p → a ≤ℤ b → scaled a n p ≤ℤ scaled b n p
unfolding scaled
scaled_mono (pos v) (pos w) n p h k e =
    ground (arith, share_mono v w 32767 p k, scaled-Within (pos v) n p)
scaled_mono (pos v) (negsuc w) n p h k e = absurd (omega arith)
scaled_mono (negsuc v) (pos w) n p h k e = ground arith
scaled_mono (negsuc v) (negsuc w) n p h k e =
    ground (arith, share_mono (suc w) (suc v) 32768 n h, scaled-Within (negsuc w) n p)

-- A greater reading never gives a smaller axis value, for positive extents below 2 ^ 31.
pub scale_signed_axis_mono :
    (a b : ℤ) (n p : ℕ)
    → IsI32 a
    → IsI32 b
    → 0 < n
    → n < 2147483648
    → 0 < p
    → p < 2147483648
    → a ≤ℤ b
    → scale_signed_axis a (pos n) (pos p) ≤ℤ scale_signed_axis b (pos n) (pos p)
scale_signed_axis_mono a b n p ha hb n0 n1 p0 p1 h =
    rw (scale_signed-scaled a n p ha n0 n1 p0 p1)
      (rw (scale_signed-scaled b n p hb n0 n1 p0 p1) (scaled_mono a b n p n0 p0 h))
