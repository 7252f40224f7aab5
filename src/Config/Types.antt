-- ===== src/Config/Types.antt =====
-- crates/wiiland-core/src/config.rs: the options and the configuration record. Text is the list of
-- its bytes.
use wiiland.Prelude.{ℕ, ◌==◌, Bool, false, List, [], Option, none, ◌&&◌, leb, not, bit_and}
use wiiland.Prelude.Int.{ℤ, pos}

-- A profile is a set of two bits.
abbrev pub Profile : Type 0
Profile = ℕ

abbrev pub profile_gamepad : Profile
profile_gamepad = 1

abbrev pub profile_desktop : Profile
profile_desktop = 2

abbrev pub profile_both : Profile
profile_both = 3

unfoldable pub contains : Profile → Profile → Bool
contains self other = bit_and self other == other

unfoldable pub is_valid : Profile → Bool
is_valid self = not (self == 0) && leb self profile_both

pub data IrTracking : Type 0 where
  first centroid dual : IrTracking

pub data IrAimMapping : Type 0 where
  relative absolute : IrAimMapping

pub data AimMode : Type 0 where
  off mouse right_stick : AimMode

pub data AimSource : Type 0 where
  auto ir motion_plus accelerometer : AimSource

pub data AimActivation : Type 0 where
  always b z c : AimActivation

pub record IrRectangle : Type 0 where
  pub left : ℤ
  pub right : ℤ
  pub top : ℤ
  pub bottom : ℤ

pub record SensorCalibration : Type 0 where
  pub x : ℤ
  pub y : ℤ
  pub z : ℤ
  pub axes : ℕ

abbrev pub all_axes : ℕ
all_axes = 7

unfoldable pub complete : SensorCalibration → Bool
complete self = self.axes == all_axes

pub data DesktopAction : Type 0 where
  disabled left_click right_click enter escape overview page_up page_down : DesktopAction

pub record DesktopBindings : Type 0 where
  pub a : DesktopAction
  pub b : DesktopAction
  pub plus : DesktopAction
  pub minus : DesktopAction
  pub home : DesktopAction
  pub one : DesktopAction
  pub two : DesktopAction

abbrev default_bindings : DesktopBindings
default_bindings = record {
  a = left_click;
  b = right_click;
  plus = enter;
  minus = escape;
  home = overview;
  one = page_down;
  two = page_up;
}

pub data DeviceRuleKind : Type 0 where
  syspath devtype : DeviceRuleKind

pub record DeviceRule : Type 0 where
  pub kind : DeviceRuleKind
  pub match_text : List ℕ
  pub profile : Profile

-- `backend` has one value, `uinput`, and is left out.
pub record Config : Type 0 where
  pub profile : Profile
  pub pointer_speed : ℤ
  pub ir_speed : ℤ
  pub ir_deadzone : ℤ
  pub ir_smoothing : ℤ
  pub ir_tracking : IrTracking
  pub ir_aim_mapping : IrAimMapping
  pub ir_screen : Option IrRectangle
  pub aim_mode : AimMode
  pub aim_source : AimSource
  pub aim_activation : AimActivation
  pub aim_sensitivity : ℤ
  pub aim_deadzone : ℤ
  pub aim_smoothing : ℤ
  pub aim_invert_x : Bool
  pub aim_invert_y : Bool
  pub aim_accel_zero : Option SensorCalibration
  pub aim_motion_plus_bias : Option SensorCalibration
  pub aim_calibration_duration : ℤ
  pub desktop_bindings : DesktopBindings
  pub device_rules : List DeviceRule

unfoldable pub default : Config
default = record {
  profile = profile_gamepad;
  pointer_speed = pos 16;
  ir_speed = pos 8;
  ir_deadzone = pos 0;
  ir_smoothing = pos 0;
  ir_tracking = dual;
  ir_aim_mapping = relative;
  ir_screen = none;
  aim_mode = off;
  aim_source = auto;
  aim_activation = AimActivation.b;
  aim_sensitivity = pos 16;
  aim_deadzone = pos 4;
  aim_smoothing = pos 25;
  aim_invert_x = false;
  aim_invert_y = false;
  aim_accel_zero = none;
  aim_motion_plus_bias = none;
  aim_calibration_duration = pos 8;
  desktop_bindings = default_bindings;
  device_rules = [];
}
