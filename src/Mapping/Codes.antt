-- ===== src/Mapping/Codes.antt =====
-- crates/wiiland-core/src/mapping.rs: the declared keys and axes, and the code of each button and
-- of each sensor axis.
use wiiland.Mapping.Constants.{
  virtual_axis_min, virtual_axis_max, virtual_trigger_max, btn_south, btn_east, btn_north, btn_west,
  btn_tl, btn_tr, btn_tl2, btn_tr2, btn_select, btn_start, btn_mode, btn_thumbl, btn_thumbr,
  btn_dpad_left, btn_dpad_right, btn_dpad_up, btn_dpad_down, btn_1, btn_2, btn_c, btn_z,
  btn_strum_bar_up, btn_strum_bar_down, btn_fret_far_up, btn_fret_up, btn_fret_mid, btn_fret_low,
  btn_fret_far_low, abs_x, abs_y, abs_z, abs_rx, abs_ry, abs_rz, abs_throttle, abs_rudder,
  abs_wheel, abs_gas, abs_brake, abs_hat0x, abs_hat1x, abs_hat1y, abs_hat2x, abs_hat3x, abs_hat3y,
  abs_misc, abs_pressure, abs_distance, abs_tilt_x, abs_tilt_y,
}
use wiiland.Prelude.{ℕ, List, [], ◌∷◌, Option, none, some, Bool, ◌==◌, if◌then◌else◌}
use wiiland.Prelude.Lists.{any, get_elem?}
use wiiland.Prelude.Int.{ℤ, pos}
use wiiland.Input.{
  Button, left, right, up, down, plus, minus, one, two, a, b, home, c, z, x, y, shoulder_left,
  shoulder_right, trigger_left, trigger_right, thumb_left, thumb_right, strum_bar_up,
  strum_bar_down, fret_far_up, fret_up, fret_mid, fret_low, fret_far_low, from_code,
}

abbrev pub core_keys : List ℕ
core_keys =
    btn_dpad_left ∷ btn_dpad_right ∷ btn_dpad_up ∷ btn_dpad_down ∷ btn_south ∷ btn_east ∷ btn_north
    ∷ btn_west ∷ btn_start ∷ btn_select ∷ btn_mode ∷ btn_1 ∷ btn_2 ∷ btn_tl ∷ btn_tr ∷ btn_tl2
    ∷ btn_tr2 ∷ btn_thumbl ∷ btn_thumbr ∷ btn_c ∷ btn_z ∷ btn_strum_bar_up ∷ btn_strum_bar_down
    ∷ btn_fret_far_up ∷ btn_fret_up ∷ btn_fret_mid ∷ btn_fret_low ∷ btn_fret_far_low ∷ []

abbrev core_axes : List ℕ
core_axes =
    abs_x ∷ abs_y ∷ abs_rx ∷ abs_ry ∷ abs_z ∷ abs_rz ∷ abs_hat3x ∷ abs_hat3y ∷ abs_misc
    ∷ abs_pressure ∷ abs_distance ∷ abs_tilt_x ∷ abs_tilt_y ∷ abs_throttle ∷ abs_rudder ∷ abs_wheel
    ∷ abs_gas ∷ abs_brake ∷ abs_hat0x ∷ abs_hat1x ∷ abs_hat1y ∷ abs_hat2x ∷ []

abbrev desktop_keys : List ℕ
desktop_keys = 0x110 ∷ 0x111 ∷ 28 ∷ 1 ∷ 125 ∷ 104 ∷ 109 ∷ []

abbrev desktop_rels : List ℕ
desktop_rels = 0 ∷ 1 ∷ []

pub record AxisInfo : Type 0 where
  pub minimum : ℤ
  pub maximum : ℤ
  pub flat : ℤ
  pub fuzz : ℤ

unfoldable pub map_button : Button → ℕ
map_button left = btn_dpad_left
map_button right = btn_dpad_right
map_button up = btn_dpad_up
map_button down = btn_dpad_down
map_button a = btn_south
map_button b = btn_east
map_button plus = btn_start
map_button minus = btn_select
map_button home = btn_mode
map_button one = btn_1
map_button two = btn_2
map_button x = btn_north
map_button y = btn_west
map_button shoulder_left = btn_tl
map_button shoulder_right = btn_tr
map_button trigger_left = btn_tl2
map_button trigger_right = btn_tr2
map_button thumb_left = btn_thumbl
map_button thumb_right = btn_thumbr
map_button c = btn_c
map_button z = btn_z
map_button strum_bar_up = btn_strum_bar_up
map_button strum_bar_down = btn_strum_bar_down
map_button fret_far_up = btn_fret_far_up
map_button fret_up = btn_fret_up
map_button fret_mid = btn_fret_mid
map_button fret_low = btn_fret_low
map_button fret_far_low = btn_fret_far_low

unfoldable map_key : ℕ → Option ℕ
unfolding map_button
map_key code = elim (from_code code) [ none ↦ none | some button ↦ some (map_button button) ]

abbrev accel_codes : List ℕ
accel_codes = abs_throttle ∷ abs_rudder ∷ abs_wheel ∷ []

unfoldable accel_abs_code : ℕ → Option ℕ
accel_abs_code index = get_elem? accel_codes index

abbrev nunchuk_accel_codes : List ℕ
nunchuk_accel_codes = abs_hat1x ∷ abs_hat1y ∷ abs_hat2x ∷ []

unfoldable nunchuk_accel_abs_code : ℕ → Option ℕ
nunchuk_accel_abs_code index = get_elem? nunchuk_accel_codes index

abbrev motion_plus_codes : List ℕ
motion_plus_codes = abs_gas ∷ abs_brake ∷ abs_hat0x ∷ []

unfoldable motion_plus_abs_code : ℕ → Option ℕ
motion_plus_abs_code index = get_elem? motion_plus_codes index

abbrev pub balance_codes : List ℕ
balance_codes = abs_pressure ∷ abs_distance ∷ abs_tilt_x ∷ abs_tilt_y ∷ []

unfoldable balance_abs_code : ℕ → Option ℕ
balance_abs_code index = get_elem? balance_codes index

unfoldable pub drums_abs_code : ℕ → Option ℕ
drums_abs_code index =
    get_elem? (abs_x ∷ abs_rx ∷ abs_ry ∷ abs_z ∷ abs_rz ∷ abs_hat3x ∷ abs_hat3y ∷ abs_misc ∷ [])
      index

abbrev is_one_of : ℕ → List ℕ → Bool
is_one_of code codes = any (λ k. code == k) codes

abbrev stick_info : AxisInfo
stick_info = record {
  minimum = virtual_axis_min;
  maximum = virtual_axis_max;
  flat = pos 256;
  fuzz = pos 16;
}

abbrev trigger_info : AxisInfo
trigger_info = record { minimum = pos 0; maximum = virtual_trigger_max; flat = pos 0; fuzz = pos 4 }

abbrev balance_info : AxisInfo
balance_info = record { minimum = pos 0; maximum = pos 65535; flat = pos 0; fuzz = pos 4 }

-- Codes that the controller does not declare have no metadata.
unfoldable pub axis_info : ℕ → Option AxisInfo
axis_info code =
    if is_one_of code core_axes
    then some (
        if is_one_of code (abs_z ∷ abs_rz ∷ abs_hat3y ∷ abs_misc ∷ [])
        then trigger_info
        else if is_one_of code balance_codes
        then balance_info
        else stick_info)
    else none
