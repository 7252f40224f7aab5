-- ===== src/Calibration.antt =====
-- crates/wiiland-core/src/calibration.rs: integer calibration windows for motion sensors.
pub mod Window
pub mod Steady
use wiiland.Prelude.{
  ℕ, suc, ◌+◌, ◌-◌, ◌^◌, Bool, ◌||◌, ◌==◌, List, [], ◌∷◌, Option, none, some, ltb, min,
  if◌then◌else◌,
}
use wiiland.Prelude.Int.{ℤ, pos, ltb_ℤ, min_ℤ, max_ℤ, tdiv, clamp}
use wiiland.Prelude.Width.{wrap_i32, i32_min, i32_max, add_i64, sub_i64}
use wiiland.Config.Types.{SensorCalibration, all_axes}

abbrev min_samples : ℕ
min_samples = 16

abbrev pub max_jitter : ℤ
max_jitter = pos 512

-- `[i32; 3]`.
pub record Sample : Type 0 where
  pub x : ℤ
  pub y : ℤ
  pub z : ℤ

pub record CalibrationStats : Type 0 where
  pub samples : ℕ  -- u32
  pub sum_x : ℤ  -- i64
  pub sum_y : ℤ
  pub sum_z : ℤ
  pub min_x : ℤ  -- i32
  pub min_y : ℤ
  pub min_z : ℤ
  pub max_x : ℤ
  pub max_y : ℤ
  pub max_z : ℤ

unfoldable pub new : CalibrationStats
new = record {
  samples = 0;
  sum_x = pos 0;
  sum_y = pos 0;
  sum_z = pos 0;
  min_x = i32_max;
  min_y = i32_max;
  min_z = i32_max;
  max_x = i32_min;
  max_y = i32_min;
  max_z = i32_min;
}

unfoldable clear : CalibrationStats → CalibrationStats
unfolding new
clear self = new

-- `saturating_add(1)` on a `u32`; the sums are `i64`.
unfoldable pub add : CalibrationStats → Sample → CalibrationStats
add self sample = record {
  samples = min (self.samples + 1) (2 ^ 32 - 1);
  sum_x = add_i64 self.sum_x sample.x;
  sum_y = add_i64 self.sum_y sample.y;
  sum_z = add_i64 self.sum_z sample.z;
  min_x = min_ℤ self.min_x sample.x;
  min_y = min_ℤ self.min_y sample.y;
  min_z = min_ℤ self.min_z sample.z;
  max_x = max_ℤ self.max_x sample.x;
  max_y = max_ℤ self.max_y sample.y;
  max_z = max_ℤ self.max_z sample.z;
}

-- The widest spread of the three axes, at most the greatest `i32`.
spread : CalibrationStats → ℤ
spread self =
    min_ℤ
      (max_ℤ (max_ℤ (sub_i64 self.max_x self.min_x) (sub_i64 self.max_y self.min_y))
        (sub_i64 self.max_z self.min_z))
      i32_max

unfoldable pub jitter : CalibrationStats → ℤ
unfolding spread
jitter self = if self.samples == 0 then pos 0 else wrap_i32 (spread self)

-- The division is behind the test on the number of samples, which is at least 16 there.
unfoldable pub finish : CalibrationStats → Option SensorCalibration
finish self =
    if ltb self.samples min_samples || ltb_ℤ max_jitter (jitter self)
    then none
    else some (record {
      x = wrap_i32 (tdiv self.sum_x (pos self.samples));
      y = wrap_i32 (tdiv self.sum_y (pos self.samples));
      z = wrap_i32 (tdiv self.sum_z (pos self.samples));
      axes = all_axes;
    })

unfoldable pub sensor_calibration_ready : SensorCalibration → Bool
sensor_calibration_ready calibration = calibration.axes == all_axes
