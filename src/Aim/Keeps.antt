-- ===== src/Aim/Keeps.antt =====
-- The handlers of crates/wiiland-core/src/aim.rs keep the aim's configuration.
use wiiland.Prelude.{ℕ, ◌≡◌, refl, ◌∙◌, arith, Bool, not, Option, none, some, if_both}
use wiiland.Config.Types.{ir, motion_plus, accelerometer, SensorCalibration}
use wiiland.Calibration.{Sample}
use wiiland.Pointer.Select.{IrPoint}
use wiiland.Aim.State.{AimVector, AimState, AimResult, reset, no_result}
use wiiland.Aim.{
  accepts, activation_key, take_key, process_ir, lose_ir, take_ir, emit, smooth, ir_vector,
  process_motion_plus, process_accelerometer, from_zero, zeroed, ready, take_zero,
}

abbrev pub KeepsConfig : AimState → AimState × AimResult → Type 0
KeepsConfig self r = r.0.config ≡ self.config

emit-KeepsConfig : (self : AimState) (v : AimVector) → KeepsConfig self (emit self v)
unfolding emit smooth reset
emit-KeepsConfig self v = ground arith

pub activation_key-KeepsConfig :
    (self : AimState) (code : ℕ) (down : Bool) → KeepsConfig self (activation_key self code down)
unfolding activation_key take_key reset
activation_key-KeepsConfig self code down = ground arith

lose_ir-KeepsConfig : (self : AimState) → KeepsConfig self (lose_ir self)
unfolding lose_ir reset
lose_ir-KeepsConfig self = ground arith

take_ir-KeepsConfig : (self : AimState) (point : IrPoint) → KeepsConfig self (take_ir self point)
unfolding take_ir
take_ir-KeepsConfig self point =
    if_both (KeepsConfig self) (not (accepts self ir)) (self, no_result) _ refl
      (emit-KeepsConfig _ (ir_vector self point))

pub process_ir-KeepsConfig :
    (self : AimState) (point : Option IrPoint) → KeepsConfig self (process_ir self point)
unfolding process_ir
process_ir-KeepsConfig self none = lose_ir-KeepsConfig self
process_ir-KeepsConfig self (some p) =
    if_both (KeepsConfig self) p.valid (take_ir self p) (lose_ir self) (take_ir-KeepsConfig self p)
      (lose_ir-KeepsConfig self)

pub process_motion_plus-KeepsConfig :
    (self : AimState) (sample : Sample) → KeepsConfig self (process_motion_plus self sample)
unfolding process_motion_plus
process_motion_plus-KeepsConfig self sample =
    if_both (KeepsConfig self) (not (accepts self motion_plus)) (self, no_result) _ refl
      (emit-KeepsConfig _ _)

zeroed-config :
    (self : AimState) (calibration : Option SensorCalibration)
    → (zeroed self calibration).config ≡ self.config
zeroed-config self none = refl
zeroed-config self (some origin) = refl

from_zero-KeepsConfig :
    (self : AimState) (sample : Sample) → KeepsConfig self (from_zero self sample)
unfolding from_zero
from_zero-KeepsConfig self sample = emit-KeepsConfig _ _

pub process_accelerometer-KeepsConfig :
    (self : AimState) (sample : Sample) → KeepsConfig self (process_accelerometer self sample)
unfolding process_accelerometer
process_accelerometer-KeepsConfig self sample =
    let s = zeroed self (ready self.config.accel_calibration) in
    let same = zeroed-config self (ready self.config.accel_calibration) in
    if_both (KeepsConfig self) (not (accepts self accelerometer)) (self, no_result) _ refl
      (if_both (KeepsConfig self) s.accel_zeroed (from_zero s sample)
        (take_zero s sample, no_result) (from_zero-KeepsConfig s sample ∙ same) same)
