-- ===== src/Pointer.antt =====
-- crates/wiiland-core/src/pointer.rs: integer pointer tracking for desktop profiles.
pub mod Select
pub mod Track
pub mod Keys
use wiiland.Prelude.{
  ℕ, suc, ◌-◌, ◌^◌, Bool, true, false, not, ◌&&◌, ◌==◌, List, [], ◌∷◌, Option, none, some, bit_and,
  bit_or, if◌then◌else◌,
}
use wiiland.Prelude.Int.{ℤ, pos, eqb_ℤ, ltb_ℤ, tdiv}
use wiiland.Prelude.Width.{wrap_i32, add_i32, sub_i32, abs_i32, div_i32, add_i64, mul_i64}
use wiiland.Prelude.Blend.{blend}
use wiiland.Config.Types.{IrTracking}
use Select.{IrPoint, IrFrame, select_ir_point}

abbrev pub pointer_left : ℕ
pointer_left = 2 ^ 0

abbrev pub pointer_right : ℕ
pointer_right = 2 ^ 1

abbrev pub pointer_up : ℕ
pointer_up = 2 ^ 2

abbrev pub pointer_down : ℕ
pointer_down = 2 ^ 3

pub record PointerDelta : Type 0 where
  pub dx : ℤ
  pub dy : ℤ

abbrev pub no_delta : PointerDelta
no_delta = record { dx = pos 0; dy = pos 0 }

pub record PointerState : Type 0 where
  pub pointer_keys : ℕ  -- u8
  pub speed : ℤ
  pub dx : ℤ
  pub dy : ℤ
  pub ir_active : Bool
  pub ir_x : ℤ
  pub ir_y : ℤ
  pub ir_speed : ℤ
  pub ir_deadzone : ℤ
  pub ir_smoothing : ℤ
  pub tracking : IrTracking

unfoldable pub new : ℤ → ℤ → ℤ → ℤ → IrTracking → PointerState
new speed ir_speed ir_deadzone ir_smoothing tracking = record {
  pointer_keys = 0;
  speed = speed;
  dx = pos 0;
  dy = pos 0;
  ir_active = false;
  ir_x = pos 0;
  ir_y = pos 0;
  ir_speed = ir_speed;
  ir_deadzone = ir_deadzone;
  ir_smoothing = ir_smoothing;
  tracking = tracking;
}

abbrev velocity : PointerState → PointerDelta
velocity self = record { dx = self.dx; dy = self.dy }

-- `keys & bit != 0`.
abbrev pub has_key : ℕ → ℕ → Bool
has_key keys bit = not (bit_and keys bit == 0)

-- One axis of `refresh_velocity`: from 0, back by the speed, then forward.
pub axis_velocity : Bool → Bool → ℤ → ℤ
axis_velocity back forward speed =
    let v = if back then sub_i32 (pos 0) speed else pos 0 in if forward then add_i32 v speed else v

refresh_velocity : PointerState → PointerState
refresh_velocity self = record self {
  dx = axis_velocity (has_key keys pointer_left) (has_key keys pointer_right) self.speed;
  dy = axis_velocity (has_key keys pointer_up) (has_key keys pointer_down) self.speed;
}
  where
    keys : ℕ
    keys = self.pointer_keys

unfoldable set_speed : PointerState → ℤ → PointerState
unfolding refresh_velocity
set_speed self speed = refresh_velocity (record self { speed = speed })

unfoldable set_ir_options : PointerState → ℤ → ℤ → ℤ → IrTracking → PointerState
set_ir_options self speed deadzone smoothing tracking = record self {
  ir_speed = speed;
  ir_deadzone = deadzone;
  ir_smoothing = smoothing;
  tracking = tracking;
}

-- `keys |= bit`, or `keys &= !bit` on a `u8`.
pub next_keys : ℕ → ℕ → Bool → ℕ
next_keys keys bit pressed = if pressed then bit_or keys bit else bit_and keys (255 - bit)

unfoldable pub update_key : PointerState → ℕ → Bool → PointerState × PointerDelta
unfolding refresh_velocity next_keys
update_key self bit pressed =
    let s = record self { pointer_keys = next_keys self.pointer_keys bit pressed } in
    let s' = refresh_velocity s in (s', velocity s')

pub tick : PointerState → PointerDelta
tick self = velocity self

reset_ir : PointerState → PointerState
reset_ir self = record self { ir_active = false; ir_x = pos 0; ir_y = pos 0 }

unfoldable pub reset : PointerState → PointerState
unfolding reset_ir
reset self = reset_ir (record self { pointer_keys = 0; dx = pos 0; dy = pos 0 })

pub scaled_delta : ℤ → ℤ → ℤ → ℤ
scaled_delta from to speed = wrap_i32 (tdiv (mul_i64 (sub_i32 to from) speed) (pos 64))

pub apply_deadzone : ℤ → ℤ → ℤ
apply_deadzone delta deadzone =
    if not (eqb_ℤ deadzone (pos 0)) && ltb_ℤ (abs_i32 delta) deadzone then pos 0 else delta

pub smooth_axis : ℤ → ℤ → ℤ → ℤ
smooth_axis previous current smoothing =
    if eqb_ℤ smoothing (pos 0) then current else blend previous current smoothing

pub select_ir : PointerState → IrFrame → Option IrPoint
unfolding select_ir_point
select_ir self frame = select_ir_point frame self.tracking

-- One axis of the tracker: the motion from the old baseline to the smoothed reading.
pub motion : PointerState → ℤ → ℤ → ℤ
motion self from to = apply_deadzone (scaled_delta from to self.ir_speed) self.ir_deadzone

track : PointerState → IrPoint → PointerState × PointerDelta
track self point =
    if self.ir_active
    then (let x = smooth_axis self.ir_x point.x self.ir_smoothing in
        let y = smooth_axis self.ir_y point.y self.ir_smoothing in
        (
          record self { ir_x = x; ir_y = y; ir_active = true },
          record { dx = motion self self.ir_x x; dy = motion self self.ir_y y },
        ))
    else (record self { ir_x = point.x; ir_y = point.y; ir_active = true }, no_delta)

pub update_ir : PointerState → Option IrPoint → PointerState × PointerDelta
unfolding reset_ir track
update_ir self none = (reset_ir self, no_delta)
update_ir self (some point) = if point.valid then track self point else (reset_ir self, no_delta)

unfoldable pub update_ir_frame : PointerState → IrFrame → PointerState × PointerDelta
unfolding update_ir select_ir
update_ir_frame self frame = update_ir self (select_ir self frame)
