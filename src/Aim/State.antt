-- ===== src/Aim/State.antt =====
-- crates/wiiland-core/src/aim.rs: the aim's options and its transient state.
use wiiland.Prelude.{Bool, true, false, not, ◌&&◌, ◌||◌, Option, none, some}
use wiiland.Prelude.Int.{ℤ, pos}
use wiiland.Config.Types.{
  Config, AimMode, off, AimSource, auto, ir, motion_plus, accelerometer, AimActivation, always,
  IrAimMapping, IrRectangle, SensorCalibration,
}

pub record AimVector : Type 0 where
  pub x : ℤ
  pub y : ℤ

abbrev pub zero_vector : AimVector
zero_vector = record { x = pos 0; y = pos 0 }

pub record AimResult : Type 0 where
  pub output : Option AimVector
  pub reset : Bool

-- `AimResult::NONE` and `AimResult::reset()`.
abbrev pub no_result : AimResult
no_result = record { output = none; reset = false }

abbrev pub reset_result : AimResult
reset_result = record { output = some zero_vector; reset = true }

pub record AimConfig : Type 0 where
  pub output : AimMode
  pub source : AimSource
  pub activation : AimActivation
  pub sensitivity : ℤ
  pub deadzone : ℤ
  pub smoothing : ℤ
  pub invert_x : Bool
  pub invert_y : Bool
  pub ir_mapping : IrAimMapping
  pub ir_screen : Option IrRectangle
  pub accel_calibration : Option SensorCalibration
  pub motion_plus_calibration : Option SensorCalibration

unfoldable pub from_config : Config → AimConfig
from_config config = record {
  output = config.aim_mode;
  source = config.aim_source;
  activation = config.aim_activation;
  sensitivity = config.aim_sensitivity;
  deadzone = config.aim_deadzone;
  smoothing = config.aim_smoothing;
  invert_x = config.aim_invert_x;
  invert_y = config.aim_invert_y;
  ir_mapping = config.ir_aim_mapping;
  ir_screen = config.ir_screen;
  accel_calibration = config.aim_accel_zero;
  motion_plus_calibration = config.aim_motion_plus_bias;
}

pub record AimState : Type 0 where
  pub config : AimConfig
  pub held : Bool
  pub active_source : Option AimSource
  pub ir_active : Bool
  pub ir_x : ℤ
  pub ir_y : ℤ
  pub accel_zeroed : Bool
  pub accel_zero_x : ℤ
  pub accel_zero_y : ℤ
  pub accel_zero_z : ℤ
  pub last_x : ℤ
  pub last_y : ℤ

unfoldable pub new : AimConfig → AimState
new config = record {
  config = config;
  held = false;
  active_source = none;
  ir_active = false;
  ir_x = pos 0;
  ir_y = pos 0;
  accel_zeroed = false;
  accel_zero_x = pos 0;
  accel_zero_y = pos 0;
  accel_zero_z = pos 0;
  last_x = pos 0;
  last_y = pos 0;
}

-- The tests `==` of the enumerations, where one side is a constant.
abbrev is_off : AimMode → Bool
is_off off = true
is_off _ = false

abbrev pub is_always : AimActivation → Bool
is_always always = true
is_always _ = false

abbrev pub source_eq : AimSource → AimSource → Bool
source_eq auto auto = true
source_eq ir ir = true
source_eq motion_plus motion_plus = true
source_eq accelerometer accelerometer = true
source_eq _ _ = false

abbrev pub is_some_source : Option AimSource → AimSource → Bool
is_some_source none source = false
is_some_source (some active) source = source_eq active source

unfoldable pub enabled : AimState → Bool
enabled self = not (is_off self.config.output)

unfoldable pub is_active : AimState → Bool
unfolding enabled
is_active self = enabled self && (is_always self.config.activation || self.held)

-- The state that `reset` leaves; its result is always `reset_result`.
unfoldable pub reset : AimState → AimState
reset self = record self {
  active_source = none;
  ir_active = false;
  accel_zeroed = false;
  last_x = pos 0;
  last_y = pos 0;
}

unfoldable pub reset_session : AimState → AimState
unfolding reset
reset_session self = reset (record self { held = false })
