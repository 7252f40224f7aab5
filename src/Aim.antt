-- ===== src/Aim.antt =====
-- crates/wiiland-core/src/aim.rs: the sticky aim source, its activation, calibration and smoothing.
-- An operation returns the new state and its result.
pub mod State
pub mod Scale
pub mod Bounds
pub mod Process
pub mod Runs
pub mod Keeps
pub mod Sources
use wiiland.Prelude.{
  ℕ, suc, Bool, true, false, not, ◌&&◌, ◌||◌, ◌==◌, Option, none, some, if◌then◌else◌,
}
use wiiland.Prelude.Int.{ℤ, pos, negsuc, eqb_ℤ, ltb_ℤ, leb_ℤ, min_ℤ, clamp, tdiv}
use wiiland.Prelude.Width.{wrap_i32, neg_i32, sub_i32, add_i64, sub_i64, mul_i64, magnitude}
use wiiland.Prelude.Blend.{blend}
use wiiland.Input.{code}
use wiiland.Input
use wiiland.Config.Types.{
  AimSource, auto, ir, motion_plus, accelerometer, AimActivation, always, b, z, c, IrAimMapping,
  relative, absolute, IrRectangle, SensorCalibration,
}
use wiiland.Calibration.{Sample, sensor_calibration_ready}
use wiiland.Pointer.Select.{IrPoint}
use State.{
  AimVector, zero_vector, AimResult, no_result, reset_result, AimConfig, AimState, source_eq,
  is_some_source, is_always, enabled, is_active, reset,
}

-- The number of the button that activates the aim; `u32::MAX` is no button's.
unfoldable pub expected_key : AimActivation → ℕ
unfolding code
expected_key b = code Input.b
expected_key z = code Input.z
expected_key c = code Input.c
expected_key always = 4294967295

-- The state of the activation key is taken over; its release resets the aim.
pub take_key : AimState → Bool → AimState × AimResult
take_key self pressed =
    let s = record self { held = pressed } in
    if self.held && not pressed then (reset s, reset_result) else (s, no_result)

pub activation_key : AimState → ℕ → Bool → AimState × AimResult
activation_key self key pressed =
    if not (enabled self)
    then (self, no_result)
    else if is_always self.config.activation
    then (record self { held = true }, no_result)
    else if not (key == expected_key self.config.activation)
    then (self, no_result)
    else take_key self pressed

pub accepts : AimState → AimSource → Bool
accepts self source =
    if not (source_eq self.config.source auto)
    then source_eq self.config.source source
    else if source_eq source ir
    then true
    else if is_some_source self.active_source ir
    then false
    else if source_eq source motion_plus
    then true
    else not (is_some_source self.active_source motion_plus) || not (source_eq source accelerometer)

-- The part of a reading beyond the deadzone, times the sensitivity in sixteenths, at most 32767.
pub scaled_magnitude : AimConfig → ℤ → ℤ
scaled_magnitude config value = wrap_i32 (
    min_ℤ
      (tdiv (mul_i64 (sub_i64 (pos (magnitude value)) config.deadzone) config.sensitivity) (pos 16))
      (pos 32767))

pub scale : AimConfig → ℤ → ℤ
scale config value =
    if leb_ℤ (pos (magnitude value)) config.deadzone
    then pos 0
    else if ltb_ℤ value (pos 0)
    then neg_i32 (scaled_magnitude config value)
    else scaled_magnitude config value

pub smooth : AimState → AimVector → AimState × AimVector
smooth self vector =
    if eqb_ℤ self.config.smoothing (pos 0)
    then (record self { last_x = vector.x; last_y = vector.y }, vector)
    else (let x = blend self.last_x vector.x self.config.smoothing in
        let y = blend self.last_y vector.y self.config.smoothing in
        (record self { last_x = x; last_y = y }, record { x = x; y = y }))

abbrev pub invert : Bool → ℤ → ℤ
invert on value = if on then neg_i32 value else value

pub emit : AimState → AimVector → AimState × AimResult
emit self vector =
    if not (is_active self)
    then (reset self, reset_result)
    else (let turned : AimVector = record {
      x = invert self.config.invert_x vector.x;
      y = invert self.config.invert_y vector.y;
    } in
        let smoothed = smooth self turned in
        (smoothed.0, record { output = some smoothed.1; reset = false }))

pub scale_ir_absolute_axis : ℤ → ℤ → ℤ → ℤ
scale_ir_absolute_axis value min max =
    let center = tdiv (add_i64 min max) (pos 2) in
    let half_range = tdiv (sub_i64 max min) (pos 2) in
    if leb_ℤ half_range (pos 0)
    then pos 0
    else wrap_i32 (
        clamp (negsuc 32766) (pos 32767)
          (tdiv (mul_i64 (sub_i64 value center) (pos 32767)) half_range))

abbrev is_absolute : IrAimMapping → Bool
is_absolute absolute = true
is_absolute relative = false

-- The screen that the absolute mapping uses, if it is set and not empty.
abbrev pub usable_screen : AimConfig → Option IrRectangle → Option IrRectangle
usable_screen config none = none
usable_screen config (some s) =
    if ltb_ℤ s.left s.right && ltb_ℤ s.top s.bottom
    then (if is_absolute config.ir_mapping then some s else none)
    else none

abbrev pub on_screen : AimState → IrPoint → Option IrRectangle → AimVector
on_screen self point (some s) = record {
  x = scale self.config (scale_ir_absolute_axis point.x s.left s.right);
  y = scale self.config (scale_ir_absolute_axis point.y s.top s.bottom);
}
on_screen self point none =
    if self.ir_active
    then (record {
      x = scale self.config (sub_i32 point.x self.ir_x);
      y = scale self.config (sub_i32 point.y self.ir_y);
    })
    else zero_vector

pub ir_vector : AimState → IrPoint → AimVector
ir_vector self point = on_screen self point (usable_screen self.config self.config.ir_screen)

pub lose_ir : AimState → AimState × AimResult
lose_ir self =
    if is_some_source self.active_source ir
    then (reset self, reset_result)
    else (record self { ir_active = false }, no_result)

pub take_ir : AimState → IrPoint → AimState × AimResult
take_ir self point =
    if not (accepts self ir)
    then (self, no_result)
    else emit
        (record self { ir_active = true; ir_x = point.x; ir_y = point.y; active_source = some ir })
        (ir_vector self point)

pub process_ir : AimState → Option IrPoint → AimState × AimResult
process_ir self none = lose_ir self
process_ir self (some point) = if point.valid then take_ir self point else lose_ir self

-- A calibration that is set and complete.
abbrev pub ready : Option SensorCalibration → Option SensorCalibration
ready none = none
ready (some calibration) = if sensor_calibration_ready calibration then some calibration else none

abbrev pub biased : Option SensorCalibration → Sample → AimVector
biased none sample = record { x = sample.x; y = sample.y }
biased (some bias) sample = record { x = sub_i32 sample.x bias.x; y = sub_i32 sample.y bias.y }

pub process_motion_plus : AimState → Sample → AimState × AimResult
process_motion_plus self sample =
    let v = biased (ready self.config.motion_plus_calibration) sample in
    if not (accepts self motion_plus)
    then (self, no_result)
    else emit (record self { active_source = some motion_plus })
        (record { x = scale self.config v.x; y = scale self.config v.y })

-- The zero that the sample is read against: the calibrated one, else the one in the state.
abbrev pub zeroed : AimState → Option SensorCalibration → AimState
zeroed self none = self
zeroed self (some origin) = record self {
  accel_zero_x = origin.x;
  accel_zero_y = origin.y;
  accel_zero_z = origin.z;
  accel_zeroed = true;
}

-- Without a calibration the first sample becomes the zero.
abbrev pub take_zero : AimState → Sample → AimState
take_zero self sample = record self {
  accel_zero_x = sample.x;
  accel_zero_y = sample.y;
  accel_zero_z = sample.z;
  accel_zeroed = true;
  active_source = some accelerometer;
}

pub from_zero : AimState → Sample → AimState × AimResult
from_zero self sample =
    emit (record self { active_source = some accelerometer })
      (record {
        x = scale self.config (sub_i32 sample.x self.accel_zero_x);
        y = scale self.config (sub_i32 sample.y self.accel_zero_y);
      })

pub process_accelerometer : AimState → Sample → AimState × AimResult
process_accelerometer self sample =
    let s = zeroed self (ready self.config.accel_calibration) in
    if not (accepts self accelerometer)
    then (self, no_result)
    else if s.accel_zeroed
    then from_zero s sample
    else (take_zero s sample, no_result)
