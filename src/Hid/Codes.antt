-- ===== src/Hid/Codes.antt =====
-- The Linux event codes of crates/wiiland-hid/src/model.rs.
use wiiland.Prelude.{ℕ}

abbrev pub ev_syn : ℕ
ev_syn = 0

abbrev pub ev_key : ℕ
ev_key = 1

abbrev pub ev_abs : ℕ
ev_abs = 3

abbrev pub syn_report : ℕ
syn_report = 0

abbrev pub syn_dropped : ℕ
syn_dropped = 3

abbrev pub key_left : ℕ
key_left = 105

abbrev pub key_right : ℕ
key_right = 106

abbrev pub key_up : ℕ
key_up = 103

abbrev pub key_down : ℕ
key_down = 108

abbrev pub key_next : ℕ
key_next = 0x197

abbrev pub key_previous : ℕ
key_previous = 0x19c

abbrev pub btn_1 : ℕ
btn_1 = 0x101

abbrev pub btn_2 : ℕ
btn_2 = 0x102

abbrev pub btn_3 : ℕ
btn_3 = 0x103

abbrev pub btn_4 : ℕ
btn_4 = 0x104

abbrev pub btn_5 : ℕ
btn_5 = 0x105

abbrev pub btn_a : ℕ
btn_a = 0x130

abbrev pub btn_b : ℕ
btn_b = 0x131

abbrev pub btn_c : ℕ
btn_c = 0x132

abbrev pub btn_x : ℕ
btn_x = 0x133

abbrev pub btn_y : ℕ
btn_y = 0x134

abbrev pub btn_z : ℕ
btn_z = 0x135

abbrev pub btn_tl : ℕ
btn_tl = 0x136

abbrev pub btn_tr : ℕ
btn_tr = 0x137

abbrev pub btn_tl2 : ℕ
btn_tl2 = 0x138

abbrev pub btn_tr2 : ℕ
btn_tr2 = 0x139

abbrev pub btn_select : ℕ
btn_select = 0x13a

abbrev pub btn_start : ℕ
btn_start = 0x13b

abbrev pub btn_mode : ℕ
btn_mode = 0x13c

abbrev pub btn_thumbl : ℕ
btn_thumbl = 0x13d

abbrev pub btn_thumbr : ℕ
btn_thumbr = 0x13e

abbrev pub btn_dpad_up : ℕ
btn_dpad_up = 0x220

abbrev pub btn_dpad_down : ℕ
btn_dpad_down = 0x221

abbrev pub btn_dpad_left : ℕ
btn_dpad_left = 0x222

abbrev pub btn_dpad_right : ℕ
btn_dpad_right = 0x223

abbrev pub btn_east : ℕ
btn_east = btn_b

abbrev pub btn_south : ℕ
btn_south = btn_a

abbrev pub btn_north : ℕ
btn_north = btn_x

abbrev pub btn_west : ℕ
btn_west = btn_y

abbrev pub abs_x : ℕ
abs_x = 0

abbrev pub abs_y : ℕ
abs_y = 1

abbrev pub abs_rx : ℕ
abs_rx = 3

abbrev pub abs_ry : ℕ
abs_ry = 4

abbrev pub abs_rz : ℕ
abs_rz = 5

abbrev pub abs_hat0x : ℕ
abs_hat0x = 16

abbrev pub abs_hat0y : ℕ
abs_hat0y = 17

abbrev pub abs_hat1x : ℕ
abs_hat1x = 18

abbrev pub abs_hat1y : ℕ
abs_hat1y = 19

abbrev pub abs_hat2x : ℕ
abs_hat2x = 20

abbrev pub abs_hat2y : ℕ
abs_hat2y = 21

abbrev pub abs_hat3x : ℕ
abs_hat3x = 22

abbrev pub abs_hat3y : ℕ
abs_hat3y = 23
