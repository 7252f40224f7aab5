-- ===== src/Aim/Process.antt =====
-- Each handler of crates/wiiland-core/src/aim.rs keeps the bounds of the state and of its output.
use wiiland.Prelude.{ℕ, arith, Bool, true, false, not, ◌&&◌, ◌==◌, Option, none, some}
use wiiland.Prelude.Width.{IsI32, wrap_i32-IsI32}
use wiiland.Config.Types.{SensorCalibration, accelerometer, ir, motion_plus}
use wiiland.Calibration.{Sample}
use wiiland.Calibration.Window.{IsSample}
use wiiland.Pointer.Select.{IrPoint}
use wiiland.Aim.State.{no_result, reset_result, is_always, AimState, is_some_source, reset, enabled}
use wiiland.Aim.Bounds.{
  IsBounded, Fits, reset-IsBounded, emit-Fits, on_screen-IsStick, if-Fits, scale-IsStick,
}
use wiiland.Aim.{
  usable_screen, biased, ready, zeroed, take_zero, expected_key, ir_vector, lose_ir, take_ir,
  process_ir, process_motion_plus, process_accelerometer, from_zero, activation_key, take_key,
  accepts,
}

lose_ir-Fits : (self : AimState) → IsBounded self → Fits (lose_ir self)
unfolding lose_ir
lose_ir-Fits self b =
    if-Fits (is_some_source self.active_source ir) (reset self, reset_result)
      (record self { ir_active = false }, no_result) (reset-IsBounded self b, omega arith)
      (record { config = b.config; last_x = b.last_x; last_y = b.last_y }, tt)

take_ir-Fits : (self : AimState) (point : IrPoint) → IsBounded self → Fits (take_ir self point)
unfolding take_ir ir_vector
take_ir-Fits self point b =
    if-Fits (not (accepts self ir)) (self, no_result) _ (b, tt)
      (emit-Fits _ _ (record { config = b.config; last_x = b.last_x; last_y = b.last_y })
        (on_screen-IsStick self point (usable_screen self.config self.config.ir_screen) b.config))

pub process_ir-Fits :
    (self : AimState) (point : Option IrPoint) → IsBounded self → Fits (process_ir self point)
unfolding process_ir
process_ir-Fits self none b = lose_ir-Fits self b
process_ir-Fits self (some point) b =
    if-Fits point.valid (take_ir self point) (lose_ir self) (take_ir-Fits self point b)
      (lose_ir-Fits self b)

biased-IsI32 :
    (bias : Option SensorCalibration) (sample : Sample)
    → IsSample sample
    → IsI32 (biased bias sample).x × IsI32 (biased bias sample).y
biased-IsI32 none sample h = (h.0, h.1)
biased-IsI32 (some bias) sample h = (wrap_i32-IsI32 _, wrap_i32-IsI32 _)

pub process_motion_plus-Fits :
    (self : AimState) (sample : Sample)
    → IsBounded self
    → IsSample sample
    → Fits (process_motion_plus self sample)
unfolding process_motion_plus
process_motion_plus-Fits self sample b h =
    let v = biased-IsI32 (ready self.config.motion_plus_calibration) sample h in
    if-Fits (not (accepts self motion_plus)) (self, no_result) _ (b, tt)
      (emit-Fits _ _ (record { config = b.config; last_x = b.last_x; last_y = b.last_y })
        (scale-IsStick self.config _ b.config v.0, scale-IsStick self.config _ b.config v.1))

zeroed-IsBounded :
    (self : AimState) (calibration : Option SensorCalibration)
    → IsBounded self
    → IsBounded (zeroed self calibration)
zeroed-IsBounded self none b = b
zeroed-IsBounded self (some origin) b = record {
  config = b.config;
  last_x = b.last_x;
  last_y = b.last_y;
}

from_zero-Fits : (self : AimState) (sample : Sample) → IsBounded self → Fits (from_zero self sample)
unfolding from_zero
from_zero-Fits self sample b =
    emit-Fits _ _ (record { config = b.config; last_x = b.last_x; last_y = b.last_y })
      (
        scale-IsStick self.config _ b.config (wrap_i32-IsI32 _),
        scale-IsStick self.config _ b.config (wrap_i32-IsI32 _),
      )

pub process_accelerometer-Fits :
    (self : AimState) (sample : Sample) → IsBounded self → Fits (process_accelerometer self sample)
unfolding process_accelerometer
process_accelerometer-Fits self sample b =
    let s = zeroed self (ready self.config.accel_calibration) in
    let bs = zeroed-IsBounded self (ready self.config.accel_calibration) b in
    if-Fits (not (accepts self accelerometer)) (self, no_result) _ (b, tt)
      (if-Fits s.accel_zeroed (from_zero s sample) (take_zero s sample, no_result)
        (from_zero-Fits s sample bs)
        (record { config = bs.config; last_x = bs.last_x; last_y = bs.last_y }, tt))

take_key-Fits : (self : AimState) (pressed : Bool) → IsBounded self → Fits (take_key self pressed)
unfolding take_key
take_key-Fits self pressed b =
    let s : AimState = record self { held = pressed } in
    let bs : IsBounded s = record { config = b.config; last_x = b.last_x; last_y = b.last_y } in
    if-Fits (self.held && not pressed) (reset s, reset_result) (s, no_result)
      (reset-IsBounded s bs, omega arith) (bs, tt)

pub activation_key-Fits :
    (self : AimState) (key : ℕ) (pressed : Bool)
    → IsBounded self
    → Fits (activation_key self key pressed)
unfolding activation_key
activation_key-Fits self key pressed b =
    if-Fits (not (enabled self)) (self, no_result) _ (b, tt)
      (if-Fits (is_always self.config.activation) (record self { held = true }, no_result) _
        (record { config = b.config; last_x = b.last_x; last_y = b.last_y }, tt)
        (if-Fits (not (key == expected_key self.config.activation)) (self, no_result) _ (b, tt)
          (take_key-Fits self pressed b)))
