-- ===== src/Mapping/Scale.antt =====
-- crates/wiiland-core/src/mapping.rs: the scaling of a reading to the range of a virtual axis.
pub mod Bounds
pub mod Order
use wiiland.Prelude.{ℕ, Bool, ◌||◌, ◌==◌, if◌then◌else◌}
use wiiland.Prelude.Int.{ℤ, pos, tdiv, ltb_ℤ, leb_ℤ, clamp}
use wiiland.Prelude.Width.{wrap_i32, neg_i32, mul_i64}
use wiiland.Mapping.Constants.{
  virtual_axis_min, virtual_axis_max, virtual_trigger_max, drum_pressure_max,
}

unfoldable clamp_axis_value : ℤ → ℤ
clamp_axis_value value = clamp virtual_axis_min virtual_axis_max value

-- `value * target / extent` through an `i64`, cast back to an `i32`.
pub ratio : ℤ → ℤ → ℤ → ℤ
ratio value target extent = wrap_i32 (tdiv (mul_i64 value target) extent)

pub scale_signed_axis : ℤ → ℤ → ℤ → ℤ
scale_signed_axis value negative_extent positive_extent =
    if leb_ℤ negative_extent (pos 0) || leb_ℤ positive_extent (pos 0)
    then pos 0
    else if leb_ℤ value (neg_i32 negative_extent)
    then virtual_axis_min
    else if leb_ℤ positive_extent value
    then virtual_axis_max
    else if ltb_ℤ value (pos 0)
    then ratio value (neg_i32 virtual_axis_min) negative_extent
    else ratio value virtual_axis_max positive_extent

pub scale_unsigned_axis : ℤ → ℤ → ℤ → ℤ
scale_unsigned_axis value source_max target_max =
    if leb_ℤ source_max (pos 0) || (ltb_ℤ target_max (pos 0) || leb_ℤ value (pos 0))
    then pos 0
    else if leb_ℤ source_max value
    then target_max
    else ratio value target_max source_max

unfoldable pub scale_drums_pressure : ℕ → ℤ → ℤ
scale_drums_pressure index value = scale_unsigned_axis value drum_pressure_max (
    if (index == 1) || ((index == 2) || (index == 5))
    then virtual_axis_max
    else virtual_trigger_max)
