-- ===== src/Tests/Sensors.antt =====
-- Concrete runs of crates/wiiland-core/src/calibration.rs, pointer.rs, mapping.rs and input.rs.
use mathlib.Core.List.{Memᴰ}
use wiiland.Prelude.{
  ℕ, zero, suc, ◌^◌, ◌≡◌, refl, ◌<◌, ◌≤◌, ◌==◌, ◌↔◌, arith, true, false, List, [], ◌∷◌, none, some,
  if◌then◌else◌,
}
use wiiland.Prelude.Int.{ℤ, pos, negsuc, ◌≤ℤ◌, Within, pos_part, neg_part, ◌-ℤ◌, ◌+ℤ◌, tdiv}
use wiiland.Prelude.Width.{wrap_i32, wrap_i64}
use wiiland.Prelude.Lists.{All, any, length, replicate}
use wiiland.Input.{Button, from_code, code}
use wiiland.Input.Codes.{from_code-code_iff}
use wiiland.Mapping.Constants.{virtual_axis_min, virtual_axis_max}
use wiiland.Mapping.Codes.{map_button, core_keys}
use wiiland.Mapping.Scale.{scale_signed_axis, scale_unsigned_axis}
use wiiland.Mapping.Scale.Bounds.{scale_signed_axis-Within, scale_unsigned_axis-Within}
use wiiland.Mapping.Scale.Order.{scale_signed_axis_mono}
use wiiland.Mapping.Keys.{map_button-injective}
use wiiland.Mapping.Motion.{Abs3, Slots, MotionKind, map_motion, entries}
use wiiland.Mapping.Motion.Ranges.{IsDeclared, IsAbs3, map_motion-IsDeclared}
use wiiland.Config.Types.{SensorCalibration, IrTracking, default, all_axes}
use wiiland.Calibration.{Sample, finish}
use wiiland.Calibration
use wiiland.Calibration.Window.{IsSample, Inside, collect, as_sample, finish-collect}
use wiiland.Calibration.Steady.{IsAccepted, IsSteady, IsAccepted-iff}
use wiiland.Pointer.{
  PointerState, update_ir, update_key, tick, reset, has_key, no_delta, pointer_left, pointer_right,
  pointer_up, pointer_down,
}
use wiiland.Pointer.Select.{IrPoint, IrFrame, points, dual_point, select_ir_point}
use wiiland.Pointer.Select.Farthest.{AllPairs, squared, half_way, dual_point-farthest}
use wiiland.Pointer.Select.Box.{Box, Chosen, select_ir_point-Chosen}
use wiiland.Pointer.Track.{IsQuiet, update_ir_no_jump, update_ir_still, update_ir-IsQuiet}
use wiiland.Pointer.Keys.{direction, update_key-pointer_keys, tick-update_key}
use wiiland.Aim.State.{from_config}
use wiiland.Aim.{scale}
use wiiland.Aim.Scale.{strength, scale-strength}

abbrev still : Sample
still = record { x = pos 100; y = negsuc 511; z = pos 4000 }

abbrev window : List Sample
window = replicate 16 still

window_small : length window < 4294967296
window_small = omega arith

IsSample-small : IsSample still
IsSample-small = (omega arith, omega arith, omega arith)

replicate-All : (n : ℕ) → All IsSample (replicate n still)
replicate-All zero = tt
replicate-All (suc n) = (IsSample-small, replicate-All n)

replicate-Inside : (n : ℕ) → All (Inside still still) (replicate n still)
replicate-Inside zero = tt
replicate-Inside (suc n) = ((omega arith, omega arith, omega arith), replicate-Inside n)

IsAccepted-iff_example : IsAccepted window ↔ (16 ≤ length window) × IsSteady window
IsAccepted-iff_example = IsAccepted-iff window window_small (replicate-All 16)

abbrev zero_of_window : SensorCalibration
zero_of_window = record { x = pos 100; y = negsuc 511; z = pos 4000; axes = all_axes }

window_finishes : finish (collect Calibration.new window) ≡ some zero_of_window
unfolding finish Calibration.new Calibration.add Calibration.jitter wrap_i32 wrap_i64 ◌-ℤ◌ tdiv ◌+ℤ◌
window_finishes = refl

finish-collect_example : Inside still still (as_sample zero_of_window)
finish-collect_example =
    finish-collect still still window zero_of_window window_small IsSample-small IsSample-small
      (replicate-All 16) (replicate-Inside 16) window_finishes

abbrev point : ℤ → ℤ → IrPoint
point x y = record { valid = true; x = x; y = y }

abbrev hidden : IrPoint
hidden = record { valid = false; x = pos 1023; y = pos 1023 }

abbrev near : IrPoint
near = point (pos 10) (pos 20)

abbrev middle : IrPoint
middle = point (pos 500) (pos 300)

abbrev far : IrPoint
far = point (pos 900) (pos 40)

dual_point-farthest_example :
    (a : IrPoint) × (b : IrPoint) × Memᴰ a (near ∷ middle ∷ far ∷ [])
    × Memᴰ b (near ∷ middle ∷ far ∷ [])
    × (dual_point near (middle ∷ far ∷ []) ≡ half_way a b)
    × AllPairs (λ u v. squared u v ≤ℤ squared a b) (near ∷ middle ∷ far ∷ [])
dual_point-farthest_example =
    dual_point-farthest near middle (far ∷ [])
      ((omega arith, omega arith), ((omega arith, omega arith), ((omega arith, omega arith), tt)))

abbrev frame : IrFrame
frame = record { point0 = hidden; point1 = near; point2 = far; point3 = hidden }

abbrev screen_part : Box
screen_part = record { left = pos 10; right = pos 900; top = pos 20; bottom = pos 40 }

select_ir_point-Chosen_example :
    Chosen screen_part (points frame) (select_ir_point frame IrTracking.centroid)
select_ir_point-Chosen_example =
    select_ir_point-Chosen screen_part frame IrTracking.centroid
      ((omega arith, omega arith, omega arith), (omega arith, omega arith, omega arith))
      (
        (λ e. absurd cc),
        (
          (λ e. (omega arith, omega arith)),
          ((λ e. (omega arith, omega arith)), ((λ e. absurd cc), tt)),
        ),
      )

abbrev tracker : PointerState
tracker = record {
  pointer_keys = 2;
  speed = pos 16;
  dx = pos 16;
  dy = pos 0;
  ir_active = true;
  ir_x = pos 10;
  ir_y = pos 20;
  ir_speed = pos 8;
  ir_deadzone = pos 3;
  ir_smoothing = pos 40;
  tracking = IrTracking.dual;
}

update_ir_no_jump_example :
    ((update_ir (update_ir tracker none).0 (some far)).1 ≡ no_delta)
    × ((update_ir (reset tracker) (some far)).1 ≡ no_delta)
update_ir_no_jump_example = update_ir_no_jump tracker none (some far) tt

update_ir_still_example : update_ir tracker (some near) ≡ (tracker, no_delta)
update_ir_still_example =
    update_ir_still tracker near 40 refl refl refl refl refl (omega arith) (omega arith)
      (omega arith)

update_ir-IsQuiet_example :
    IsQuiet 3 (update_ir tracker (some far)).1.dx × IsQuiet 3 (update_ir tracker (some far)).1.dy
update_ir-IsQuiet_example = update_ir-IsQuiet tracker (some far) 3 refl

update_key-pointer_keys_example :
    let keys = (update_key tracker (2 ^ 0) true).0.pointer_keys in
    (keys < 16)
    × (has_key keys (2 ^ 1) ≡ (if 0 == 1 then true else has_key tracker.pointer_keys (2 ^ 1)))
update_key-pointer_keys_example =
    update_key-pointer_keys tracker 0 1 true (omega arith) (omega arith) (omega arith)

tick-update_key_example :
    let t = (update_key tracker 1 true).0 in
    let held = has_key t.pointer_keys in
    (tick t ≡ (update_key tracker 1 true).1)
    × ((tick t).dx ≡ direction (held pointer_left) (held pointer_right) tracker.speed)
    × ((tick t).dy ≡ direction (held pointer_up) (held pointer_down) tracker.speed)
tick-update_key_example = tick-update_key tracker 1 16 true refl (omega arith)

abbrev reading : Abs3
reading = record { x = pos 700; y = negsuc 120; z = pos 3 }

abbrev slots : Slots
slots = record {
  slot0 = reading;
  slot1 = reading;
  slot2 = reading;
  slot3 = reading;
  slot4 = reading;
  slot5 = reading;
  slot6 = reading;
  slot7 = reading;
}

reading_small : IsAbs3 reading
reading_small = (omega arith, omega arith, omega arith)

map_motion-IsDeclared_example : All IsDeclared (entries (map_motion MotionKind.drums slots))
map_motion-IsDeclared_example = map_motion-IsDeclared MotionKind.drums slots (
  reading_small, reading_small, reading_small, reading_small, reading_small, reading_small,
  reading_small, reading_small,
)

scale_signed_axis-Within_example :
    Within virtual_axis_min virtual_axis_max (scale_signed_axis (pos 700) (pos 0) (negsuc 4))
scale_signed_axis-Within_example =
    scale_signed_axis-Within (pos 700) (pos 0) (negsuc 4) (omega arith) (omega arith) (omega arith)

scale_unsigned_axis-Within_example :
    Within (pos 0) (pos 255) (scale_unsigned_axis (pos 40) (pos 63) (pos 255))
scale_unsigned_axis-Within_example =
    scale_unsigned_axis-Within (pos 40) (pos 63) (pos 255) (omega arith) (omega arith) (omega arith)

scale_signed_axis_mono_example :
    scale_signed_axis (negsuc 20) (pos 120) (pos 120)
    ≤ℤ scale_signed_axis (pos 9) (pos 120) (pos 120)
scale_signed_axis_mono_example =
    scale_signed_axis_mono (negsuc 20) (pos 9) 120 120 (omega arith) (omega arith) (omega arith)
      (omega arith) (omega arith) (omega arith) (omega arith)

map_button-injective_example :
    (any (λ k. map_button Button.a == k) core_keys ≡ true)
    × (map_button Button.a ≡ map_button Button.b → Button.a ≡ Button.b)
map_button-injective_example = map_button-injective Button.a Button.b

from_code-code_iff_example : (from_code 8 ≡ some Button.a) ↔ (code Button.a ≡ 8)
from_code-code_iff_example = from_code-code_iff 8 Button.a

deadzone_four : (from_config default).deadzone ≡ pos 4
unfolding from_config default
deadzone_four = refl

sensitivity_sixteen : (from_config default).sensitivity ≡ pos 16
unfolding from_config default
sensitivity_sixteen = refl

scale-strength_example :
    (pos_part (scale (from_config default) (negsuc 99)) ≡ strength 4 16 (pos_part (negsuc 99)))
    × (neg_part (scale (from_config default) (negsuc 99)) ≡ strength 4 16 (neg_part (negsuc 99)))
scale-strength_example =
    scale-strength (from_config default) 4 16 (negsuc 99) deadzone_four sensitivity_sixteen
      (omega arith) (omega arith)
