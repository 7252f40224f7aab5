-- ===== src/Hid/Normalizer.antt =====
-- `MotionPlusNormalizer` of crates/wiiland-hid/src/decode.rs.
use wiiland.Prelude.{if◌then◌else◌}
use wiiland.Prelude.Int.{ℤ, pos, tdiv, eqb_ℤ, ltb_ℤ, neg, clamp}
use wiiland.Prelude.Width.{i32_min, i32_max, add_i64, sub_i64, mul_i64, div_i32}
use wiiland.Hid.Model.{Axis3, origin}

pub record MotionPlusNormalizer : Type 0 where
  pub offsets : Axis3
  pub factor : ℤ

unfoldable pub new : MotionPlusNormalizer
new = record { offsets = origin; factor = pos 0 }

abbrev to_i32 : ℤ → ℤ
to_i32 v = clamp i32_min i32_max v

scale_offset : ℤ → ℤ
scale_offset value = to_i32 (mul_i64 value (pos 100))

unfoldable pub set : ℤ → ℤ → ℤ → ℤ → MotionPlusNormalizer
unfolding scale_offset
set x y z factor = record {
  offsets = record { x = scale_offset x; y = scale_offset y; z = scale_offset z };
  factor = factor;
}

values : MotionPlusNormalizer → ℤ × ℤ × ℤ × ℤ
values self = (
  div_i32 self.offsets.x (pos 100),
  div_i32 self.offsets.y (pos 100),
  div_i32 self.offsets.z (pos 100),
  self.factor,
)

normalized : ℤ → ℤ → ℤ
normalized value offset = to_i32 (sub_i64 value (tdiv offset (pos 100)))

-- The offset after one reading: it follows the sign of what is left, by `factor`.
follow : ℤ → ℤ → ℤ → ℤ
follow left offset factor =
    if eqb_ℤ left (pos 0)
    then offset
    else to_i32 (add_i64 offset (if ltb_ℤ (pos 0) left then factor else neg factor))

-- The reading and the new offset.
normalize_axis : ℤ → ℤ → ℤ → ℤ × ℤ
unfolding normalized follow
normalize_axis value offset factor =
    let left = normalized value offset in (left, follow left offset factor)

unfoldable pub normalize : MotionPlusNormalizer → Axis3 → MotionPlusNormalizer × Axis3
unfolding normalize_axis
normalize self value =
    let x = normalize_axis value.x self.offsets.x self.factor in
    let y = normalize_axis value.y self.offsets.y self.factor in
    let z = normalize_axis value.z self.offsets.z self.factor in
    (
      record self { offsets = record { x = x.1; y = y.1; z = z.1 } },
      record { x = x.0; y = y.0; z = z.0 },
    )
