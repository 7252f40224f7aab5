-- ===== src/Pointer/Track.antt =====
-- The relative IR tracker of crates/wiiland-core/src/pointer.rs.
use wiiland.Prelude.{ℕ, ◌≤◌, ◌≡◌, refl, ◌⊎◌, inl, arith, true, false, Option, none, some}
use wiiland.Prelude.Int.{ℤ, pos, negsuc, ◌-ℤ◌, ◌*ℤ◌, tdiv, eq_of_parts, neg}
use wiiland.Prelude.Width.{wrap_i32, wrap_i64, magnitude}
use wiiland.Prelude.Blend.{blend, blend-Within, IsBlendable}
use wiiland.Pointer.Select.{IrPoint}
use wiiland.Pointer.{
  PointerState, no_delta, reset, scaled_delta, apply_deadzone, smooth_axis, motion, update_ir,
}

-- No point, or one that the camera marks as invalid.
abbrev IsLost : Option IrPoint → Type 0
IsLost none = Unit {0}
IsLost (some p) = p.valid ≡ false

-- Losing the point, or a reset, forgets the baseline: whatever comes next moves nothing.
pub update_ir_no_jump :
    (s : PointerState) (lost next : Option IrPoint)
    → IsLost lost
    → ((update_ir (update_ir s lost).0 next).1 ≡ no_delta)
      × ((update_ir (reset s) next).1 ≡ no_delta)
unfolding update_ir reset
update_ir_no_jump s none none h = (refl, refl)
update_ir_no_jump s none (some q) h = (ground arith, ground arith)
update_ir_no_jump s (some p) none h = (ground arith, ground arith)
update_ir_no_jump s (some p) (some q) h = (ground arith, ground arith)

smooth_axis_self : (v : ℤ) (n : ℕ) → n ≤ 100 → IsBlendable v → smooth_axis v v (pos n) ≡ v
unfolding smooth_axis
smooth_axis_self v n h b =
    let stays = blend-Within v v v v n h b b (omega arith) (omega arith) in
    let same : blend v v (pos n) ≡ v = eq_of_parts _ _ (omega arith) in ground arith

sub_self : (v : ℤ) → v -ℤ v ≡ pos 0
unfolding ◌-ℤ◌
sub_self v = ground arith

zero-mul : (v : ℤ) → pos 0 *ℤ v ≡ pos 0
unfolding ◌*ℤ◌
zero-mul v = ground arith

scaled_delta_self : (v speed : ℤ) → scaled_delta v v speed ≡ pos 0
unfolding scaled_delta wrap_i32 wrap_i64 tdiv
scaled_delta_self v speed = rw (sub_self v) (rw (zero-mul speed))

apply_deadzone-zero : (d : ℤ) → apply_deadzone (pos 0) d ≡ pos 0
unfolding apply_deadzone
apply_deadzone-zero d = ground arith

motion_self : (s : PointerState) (v : ℤ) → motion s v v ≡ pos 0
unfolding motion
motion_self s v = rw (scaled_delta_self v s.ir_speed) (apply_deadzone-zero s.ir_deadzone)

-- A point that stays where it is moves nothing and leaves the tracker as it was, for a smoothing of
-- 0 to 100 percent and coordinates that the smoothing can weigh without overflow.
pub update_ir_still :
    (s : PointerState) (p : IrPoint) (n : ℕ)
    → s.ir_active ≡ true
    → p.valid ≡ true
    → p.x ≡ s.ir_x
    → p.y ≡ s.ir_y
    → s.ir_smoothing ≡ pos n
    → n ≤ 100
    → IsBlendable s.ir_x
    → IsBlendable s.ir_y
    → update_ir s (some p) ≡ (s, no_delta)
unfolding update_ir
update_ir_still s p n active valid ex ey e h bx by = ground (
  arith,
  smooth_axis_self s.ir_x n h bx,
  smooth_axis_self s.ir_y n h by,
  motion_self s s.ir_x,
  motion_self s s.ir_y,
)

-- Nothing, or at least the deadzone.
abbrev pub IsQuiet : ℕ → ℤ → Type 0
IsQuiet d v = (v ≡ pos 0) ⊎ (d ≤ magnitude v)

apply_deadzone-IsQuiet : (v : ℤ) (d : ℕ) → IsQuiet d (apply_deadzone v (pos d))
unfolding apply_deadzone wrap_i32 neg
apply_deadzone-IsQuiet (pos v) d = ground arith
apply_deadzone-IsQuiet (negsuc v) d = ground arith

-- A reported motion is nothing, or at least as large as the deadzone, on each axis.
pub update_ir-IsQuiet :
    (s : PointerState) (point : Option IrPoint) (d : ℕ)
    → s.ir_deadzone ≡ pos d
    → IsQuiet d (update_ir s point).1.dx × IsQuiet d (update_ir s point).1.dy
unfolding update_ir motion
update_ir-IsQuiet s none d e = (inl refl, inl refl)
update_ir-IsQuiet s (some p) d e = ground (
  arith,
  apply_deadzone-IsQuiet (scaled_delta s.ir_x (smooth_axis s.ir_x p.x s.ir_smoothing) s.ir_speed) d,
  apply_deadzone-IsQuiet (scaled_delta s.ir_y (smooth_axis s.ir_y p.y s.ir_smoothing) s.ir_speed) d,
)
