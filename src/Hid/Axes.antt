-- ===== src/Hid/Axes.antt =====
-- The cache of axis values in crates/wiiland-hid/src/decode.rs.
use wiiland.Prelude.{ℕ, zero, suc, List, [], ◌∷◌, Option, none, some}
use wiiland.Prelude.Lists.{replicate}
use wiiland.Prelude.Int.{ℤ, pos}
use wiiland.Hid.Codes.{
  abs_x, abs_y, abs_rx, abs_ry, abs_rz, abs_hat0x, abs_hat0y, abs_hat1x, abs_hat1y, abs_hat2x,
  abs_hat2y, abs_hat3x, abs_hat3y,
}
use wiiland.Hid.Keys.{by_code}
use wiiland.Hid.Model.{
  Axis3, origin, InterfaceKind, core, accel, ir, motion_plus, nunchuk, classic, balance_board, pro,
  drums, guitar,
}

pub record CacheState : Type 0 where
  pub accel : Axis3
  pub ir : List Axis3
  pub motion_plus : Axis3
  pub nunchuk : List Axis3
  pub classic : List Axis3
  pub balance_board : List Axis3
  pub pro : List Axis3
  pub drums : List Axis3
  pub guitar : List Axis3

unfoldable pub default : CacheState
default = record {
  accel = origin;
  ir = replicate 4 (record { x = pos 1023; y = pos 1023; z = pos 0 });
  motion_plus = origin;
  nunchuk = replicate 2 origin;
  classic = replicate 3 origin;
  balance_board = replicate 4 origin;
  pro = replicate 2 origin;
  drums = replicate 8 origin;
  guitar = replicate 3 origin;
}

-- One coordinate of a slot.
pub data Coordinate : Type 0 where
  on_x on_y on_z : Coordinate

abbrev pub put : Coordinate → ℤ → Axis3 → Axis3
put on_x v a = record a { x = v }
put on_y v a = record a { y = v }
put on_z v a = record a { z = v }

unfoldable pub put_slot : ℕ → Coordinate → ℤ → List Axis3 → List Axis3
put_slot i c v [] = []
put_slot zero c v (a ∷ slots) = put c v a ∷ slots
put_slot (suc i) c v (a ∷ slots) = a ∷ put_slot i c v slots

-- The slot and the coordinate of each code.
abbrev accel_slots : List (ℕ × (ℕ × Coordinate))
accel_slots = (abs_rx, (0, on_x)) ∷ (abs_ry, (0, on_y)) ∷ (abs_rz, (0, on_z)) ∷ []

-- The slot and the coordinate of each code.
abbrev motion_plus_slots : List (ℕ × (ℕ × Coordinate))
motion_plus_slots = (abs_rx, (0, on_x)) ∷ (abs_ry, (0, on_y)) ∷ (abs_rz, (0, on_z)) ∷ []

-- The slot and the coordinate of each code.
abbrev ir_slots : List (ℕ × (ℕ × Coordinate))
ir_slots =
    (abs_hat0x, (0, on_x))
    ∷ (abs_hat0y, (0, on_y))
    ∷ (abs_hat1x, (1, on_x))
    ∷ (abs_hat1y, (1, on_y))
    ∷ (abs_hat2x, (2, on_x))
    ∷ (abs_hat2y, (2, on_y))
    ∷ (abs_hat3x, (3, on_x))
    ∷ (abs_hat3y, (3, on_y))
    ∷ []

-- The slot and the coordinate of each code.
abbrev nunchuk_slots : List (ℕ × (ℕ × Coordinate))
nunchuk_slots =
    (abs_hat0x, (0, on_x))
    ∷ (abs_hat0y, (0, on_y))
    ∷ (abs_rx, (1, on_x))
    ∷ (abs_ry, (1, on_y))
    ∷ (abs_rz, (1, on_z))
    ∷ []

-- The slot and the coordinate of each code.
abbrev classic_slots : List (ℕ × (ℕ × Coordinate))
classic_slots =
    (abs_hat1x, (0, on_x))
    ∷ (abs_hat1y, (0, on_y))
    ∷ (abs_hat2x, (1, on_x))
    ∷ (abs_hat2y, (1, on_y))
    ∷ (abs_hat3x, (2, on_y))
    ∷ (abs_hat3y, (2, on_x))
    ∷ []

-- The slot and the coordinate of each code.
abbrev balance_board_slots : List (ℕ × (ℕ × Coordinate))
balance_board_slots =
    (abs_hat0x, (0, on_x))
    ∷ (abs_hat0y, (1, on_x))
    ∷ (abs_hat1x, (2, on_x))
    ∷ (abs_hat1y, (3, on_x))
    ∷ []

-- The slot and the coordinate of each code.
abbrev pro_slots : List (ℕ × (ℕ × Coordinate))
pro_slots = (abs_x, (0, on_x)) ∷ (abs_y, (0, on_y)) ∷ (abs_rx, (1, on_x)) ∷ (abs_ry, (1, on_y)) ∷ []

-- The slot and the coordinate of each code.
abbrev drums_slots : List (ℕ × (ℕ × Coordinate))
drums_slots =
    (abs_x, (0, on_x))
    ∷ (abs_y, (0, on_y))
    ∷ (abs_hat2x, (1, on_x))
    ∷ (abs_hat2y, (2, on_x))
    ∷ (abs_hat0x, (3, on_x))
    ∷ (abs_hat1x, (4, on_x))
    ∷ (abs_hat0y, (5, on_x))
    ∷ (abs_hat3x, (6, on_x))
    ∷ (abs_hat3y, (7, on_x))
    ∷ []

-- The slot and the coordinate of each code.
abbrev guitar_slots : List (ℕ × (ℕ × Coordinate))
guitar_slots =
    (abs_x, (0, on_x)) ∷ (abs_y, (0, on_y)) ∷ (abs_hat1x, (1, on_x)) ∷ (abs_hat0x, (2, on_x)) ∷ []

abbrev one : ℤ → Option (ℕ × Coordinate) → Axis3 → Axis3
one v none a = a
one v (some place) a = put place.1 v a

abbrev pub many : ℤ → Option (ℕ × Coordinate) → List Axis3 → List Axis3
many v none slots = slots
many v (some place) slots = put_slot place.0 place.1 v slots

unfoldable pub update_abs : InterfaceKind → ℕ → ℤ → CacheState → CacheState
unfolding by_code put_slot
update_abs accel code v c = record c { accel = one v (by_code accel_slots code) c.accel }
update_abs motion_plus code v c = record c {
  motion_plus = one v (by_code motion_plus_slots code) c.motion_plus;
}
update_abs ir code v c = record c { ir = many v (by_code ir_slots code) c.ir }
update_abs nunchuk code v c = record c { nunchuk = many v (by_code nunchuk_slots code) c.nunchuk }
update_abs classic code v c = record c { classic = many v (by_code classic_slots code) c.classic }
update_abs balance_board code v c = record c {
  balance_board = many v (by_code balance_board_slots code) c.balance_board;
}
update_abs pro code v c = record c { pro = many v (by_code pro_slots code) c.pro }
update_abs drums code v c = record c { drums = many v (by_code drums_slots code) c.drums }
update_abs guitar code v c = record c { guitar = many v (by_code guitar_slots code) c.guitar }
update_abs core code v c = c

abbrev pub abs_codes : InterfaceKind → List ℕ
abs_codes accel = abs_rx ∷ abs_ry ∷ abs_rz ∷ []
abs_codes motion_plus = abs_rx ∷ abs_ry ∷ abs_rz ∷ []
abs_codes ir =
    abs_hat0x ∷ abs_hat0y ∷ abs_hat1x ∷ abs_hat1y ∷ abs_hat2x ∷ abs_hat2y ∷ abs_hat3x ∷ abs_hat3y
    ∷ []
abs_codes nunchuk = abs_hat0x ∷ abs_hat0y ∷ abs_rx ∷ abs_ry ∷ abs_rz ∷ []
abs_codes classic = abs_hat1x ∷ abs_hat1y ∷ abs_hat2x ∷ abs_hat2y ∷ abs_hat3x ∷ abs_hat3y ∷ []
abs_codes balance_board = abs_hat0x ∷ abs_hat0y ∷ abs_hat1x ∷ abs_hat1y ∷ []
abs_codes pro = abs_x ∷ abs_y ∷ abs_rx ∷ abs_ry ∷ []
abs_codes drums =
    abs_x ∷ abs_y ∷ abs_hat2x ∷ abs_hat2y ∷ abs_hat0x ∷ abs_hat1x ∷ abs_hat0y ∷ abs_hat3x
    ∷ abs_hat3y ∷ []
abs_codes guitar = abs_x ∷ abs_y ∷ abs_hat1x ∷ abs_hat0x ∷ []
abs_codes core = []
