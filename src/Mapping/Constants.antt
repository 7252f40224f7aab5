-- ===== src/Mapping/Constants.antt =====
-- crates/wiiland-core/src/mapping.rs: axis ranges, source extents, and the Linux event codes.
use wiiland.Prelude.{ℕ}
use wiiland.Prelude.Int.{ℤ, pos, negsuc}

abbrev pub virtual_axis_min : ℤ
virtual_axis_min = negsuc 32767

abbrev pub virtual_axis_max : ℤ
virtual_axis_max = pos 32767

abbrev pub virtual_trigger_max : ℤ
virtual_trigger_max = pos 1023

abbrev pub wiimote_accel_axis_extent : ℤ
wiimote_accel_axis_extent = pos 500

abbrev pub nunchuk_stick_axis_extent : ℤ
nunchuk_stick_axis_extent = pos 120

abbrev pub classic_stick_axis_extent : ℤ
classic_stick_axis_extent = pos 30

abbrev pub classic_trigger_max : ℤ
classic_trigger_max = pos 62

abbrev pub pro_stick_axis_extent : ℤ
pro_stick_axis_extent = pos 1024

abbrev pub rhythm_stick_negative_extent : ℤ
rhythm_stick_negative_extent = pos 32

abbrev pub rhythm_stick_positive_extent : ℤ
rhythm_stick_positive_extent = pos 31

abbrev pub drum_pressure_max : ℤ
drum_pressure_max = pos 7

abbrev pub guitar_whammy_negative_extent : ℤ
guitar_whammy_negative_extent = pos 16

abbrev pub guitar_whammy_positive_extent : ℤ
guitar_whammy_positive_extent = pos 15

abbrev pub guitar_fret_max : ℤ
guitar_fret_max = pos 31

abbrev pub motion_plus_axis_extent : ℤ
motion_plus_axis_extent = pos 16000

abbrev pub btn_south : ℕ
btn_south = 0x130

abbrev pub btn_east : ℕ
btn_east = 0x131

abbrev pub btn_north : ℕ
btn_north = 0x133

abbrev pub btn_west : ℕ
btn_west = 0x134

abbrev pub btn_tl : ℕ
btn_tl = 0x136

abbrev pub btn_tr : ℕ
btn_tr = 0x137

abbrev pub btn_tl2 : ℕ
btn_tl2 = 0x138

abbrev pub btn_tr2 : ℕ
btn_tr2 = 0x139

abbrev pub btn_select : ℕ
btn_select = 0x13a

abbrev pub btn_start : ℕ
btn_start = 0x13b

abbrev pub btn_mode : ℕ
btn_mode = 0x13c

abbrev pub btn_thumbl : ℕ
btn_thumbl = 0x13d

abbrev pub btn_thumbr : ℕ
btn_thumbr = 0x13e

abbrev pub btn_dpad_left : ℕ
btn_dpad_left = 0x222

abbrev pub btn_dpad_right : ℕ
btn_dpad_right = 0x223

abbrev pub btn_dpad_up : ℕ
btn_dpad_up = 0x220

abbrev pub btn_dpad_down : ℕ
btn_dpad_down = 0x221

abbrev pub btn_1 : ℕ
btn_1 = 0x101

abbrev pub btn_2 : ℕ
btn_2 = 0x102

abbrev pub btn_c : ℕ
btn_c = 0x132

abbrev pub btn_z : ℕ
btn_z = 0x135

abbrev pub btn_strum_bar_up : ℕ
btn_strum_bar_up = 0x229

abbrev pub btn_strum_bar_down : ℕ
btn_strum_bar_down = 0x22a

abbrev pub btn_fret_far_up : ℕ
btn_fret_far_up = 0x224

abbrev pub btn_fret_up : ℕ
btn_fret_up = 0x225

abbrev pub btn_fret_mid : ℕ
btn_fret_mid = 0x226

abbrev pub btn_fret_low : ℕ
btn_fret_low = 0x227

abbrev pub btn_fret_far_low : ℕ
btn_fret_far_low = 0x228

abbrev pub abs_x : ℕ
abs_x = 0

abbrev pub abs_y : ℕ
abs_y = 1

abbrev pub abs_z : ℕ
abs_z = 2

abbrev pub abs_rx : ℕ
abs_rx = 3

abbrev pub abs_ry : ℕ
abs_ry = 4

abbrev pub abs_rz : ℕ
abs_rz = 5

abbrev pub abs_throttle : ℕ
abs_throttle = 6

abbrev pub abs_rudder : ℕ
abs_rudder = 7

abbrev pub abs_wheel : ℕ
abs_wheel = 8

abbrev pub abs_gas : ℕ
abs_gas = 9

abbrev pub abs_brake : ℕ
abs_brake = 10

abbrev pub abs_hat0x : ℕ
abs_hat0x = 16

abbrev pub abs_hat1x : ℕ
abs_hat1x = 18

abbrev pub abs_hat1y : ℕ
abs_hat1y = 19

abbrev pub abs_hat2x : ℕ
abs_hat2x = 20

abbrev pub abs_hat3x : ℕ
abs_hat3x = 22

abbrev pub abs_hat3y : ℕ
abs_hat3y = 23

abbrev pub abs_misc : ℕ
abs_misc = 40

abbrev pub abs_pressure : ℕ
abs_pressure = 24

abbrev pub abs_distance : ℕ
abs_distance = 25

abbrev pub abs_tilt_x : ℕ
abs_tilt_x = 26

abbrev pub abs_tilt_y : ℕ
abs_tilt_y = 27
