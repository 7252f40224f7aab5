-- ===== src/Hid/Keys.antt =====
-- The keys of each interface in crates/wiiland-hid/src/decode.rs.
use wiiland.Prelude.{ℕ, ◌==◌, List, [], ◌∷◌, Option, none, some, if◌then◌else◌}
use wiiland.Input.{Button}
use wiiland.Hid.Codes.{
  btn_1, btn_2, btn_3, btn_4, btn_5, btn_a, btn_b, btn_c, btn_dpad_down, btn_dpad_left,
  btn_dpad_right, btn_dpad_up, btn_east, btn_mode, btn_north, btn_select, btn_south, btn_start,
  btn_thumbl, btn_thumbr, btn_tl, btn_tl2, btn_tr, btn_tr2, btn_west, btn_x, btn_y, btn_z, key_down,
  key_left, key_next, key_previous, key_right, key_up,
}
use wiiland.Hid.Model.{
  InterfaceKind, core, nunchuk, classic, pro, drums, guitar, ButtonEvent, EventKind, key,
  nunchuk_key, classic_controller_key, pro_controller_key, drums_key, guitar_key,
}

-- The arm of a `match` on a code.
unfoldable pub by_code {ℓ} : {A : Type ℓ} → List (ℕ × A) → ℕ → Option A
by_code [] c = none
by_code (arm ∷ arms) c = if c == arm.0 then some arm.1 else by_code arms c

abbrev core_arms : List (ℕ × Button)
core_arms =
    (key_left, Button.left)
    ∷ (key_right, Button.right)
    ∷ (key_up, Button.up)
    ∷ (key_down, Button.down)
    ∷ (key_next, Button.plus)
    ∷ (key_previous, Button.minus)
    ∷ (btn_1, Button.one)
    ∷ (btn_2, Button.two)
    ∷ (btn_a, Button.a)
    ∷ (btn_b, Button.b)
    ∷ (btn_mode, Button.home)
    ∷ []

map_core_key : ℕ → Option Button
unfolding by_code
map_core_key = by_code core_arms

abbrev nunchuk_arms : List (ℕ × Button)
nunchuk_arms = (btn_c, Button.c) ∷ (btn_z, Button.z) ∷ []

map_nunchuk_key : ℕ → Option Button
unfolding by_code
map_nunchuk_key = by_code nunchuk_arms

abbrev classic_arms : List (ℕ × Button)
classic_arms =
    (btn_a, Button.a)
    ∷ (btn_b, Button.b)
    ∷ (btn_x, Button.x)
    ∷ (btn_y, Button.y)
    ∷ (key_next, Button.plus)
    ∷ (key_previous, Button.minus)
    ∷ (btn_mode, Button.home)
    ∷ (key_left, Button.left)
    ∷ (key_right, Button.right)
    ∷ (key_up, Button.up)
    ∷ (key_down, Button.down)
    ∷ (btn_tl, Button.shoulder_left)
    ∷ (btn_tr, Button.shoulder_right)
    ∷ (btn_tl2, Button.trigger_left)
    ∷ (btn_tr2, Button.trigger_right)
    ∷ []

map_classic_key : ℕ → Option Button
unfolding by_code
map_classic_key = by_code classic_arms

abbrev pro_arms : List (ℕ × Button)
pro_arms =
    (btn_east, Button.a)
    ∷ (btn_south, Button.b)
    ∷ (btn_north, Button.x)
    ∷ (btn_west, Button.y)
    ∷ (btn_start, Button.plus)
    ∷ (btn_select, Button.minus)
    ∷ (btn_mode, Button.home)
    ∷ (btn_dpad_left, Button.left)
    ∷ (btn_dpad_right, Button.right)
    ∷ (btn_dpad_up, Button.up)
    ∷ (btn_dpad_down, Button.down)
    ∷ (btn_tl, Button.shoulder_left)
    ∷ (btn_tr, Button.shoulder_right)
    ∷ (btn_tl2, Button.trigger_left)
    ∷ (btn_tr2, Button.trigger_right)
    ∷ (btn_thumbl, Button.thumb_left)
    ∷ (btn_thumbr, Button.thumb_right)
    ∷ []

map_pro_key : ℕ → Option Button
unfolding by_code
map_pro_key = by_code pro_arms

abbrev drums_arms : List (ℕ × Button)
drums_arms = (btn_start, Button.plus) ∷ (btn_select, Button.minus) ∷ []

map_drums_key : ℕ → Option Button
unfolding by_code
map_drums_key = by_code drums_arms

abbrev guitar_arms : List (ℕ × Button)
guitar_arms =
    (btn_1, Button.fret_far_up)
    ∷ (btn_2, Button.fret_up)
    ∷ (btn_3, Button.fret_mid)
    ∷ (btn_4, Button.fret_low)
    ∷ (btn_5, Button.fret_far_low)
    ∷ (btn_dpad_up, Button.strum_bar_up)
    ∷ (btn_dpad_down, Button.strum_bar_down)
    ∷ (btn_start, Button.plus)
    ∷ (btn_select, Button.minus)
    ∷ []

map_guitar_key : ℕ → Option Button
unfolding by_code
map_guitar_key = by_code guitar_arms

-- The two choices by interface in `decode_key`.
unfoldable pub map_key_of : InterfaceKind → ℕ → Option Button
unfolding map_core_key map_nunchuk_key map_classic_key map_pro_key map_drums_key map_guitar_key
map_key_of core c = map_core_key c
map_key_of nunchuk c = map_nunchuk_key c
map_key_of classic c = map_classic_key c
map_key_of pro c = map_pro_key c
map_key_of drums c = map_drums_key c
map_key_of guitar c = map_guitar_key c
map_key_of _ c = none

unfoldable pub key_kind : InterfaceKind → ButtonEvent → Option EventKind
key_kind core e = some (key e)
key_kind nunchuk e = some (nunchuk_key e)
key_kind classic e = some (classic_controller_key e)
key_kind pro e = some (pro_controller_key e)
key_kind drums e = some (drums_key e)
key_kind guitar e = some (guitar_key e)
key_kind _ e = none
