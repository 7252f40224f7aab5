-- ===== src/Engine.antt =====
-- crates/wiiland-core/src/engine.rs: the deterministic processing of one device. A handler returns
-- the new engine and the actions that it appends to the caller's buffer.
pub mod State
pub mod Routing
pub mod Held
pub mod Keys
pub mod Presses
use wiiland.Prelude.{
  ℕ, ◌-◌, ◌^◌, Bool, true, false, ◌==◌, ◌||◌, ◌&&◌, not, same, List, [], ◌∷◌, ◌++◌, map, Option,
  none, some, bit_and, bit_or, if◌then◌else◌,
}
use wiiland.Prelude.Int.{ℤ, pos, negsuc, eqb_ℤ, clamp}
use wiiland.Prelude.Mask.{has_bit, complement}
use wiiland.Input.{Button, ButtonState, released, pressed, repeated, InputSource, code, value, all}
use wiiland.Mapping.Constants.{abs_rx, abs_ry}
use wiiland.Mapping.Codes.{map_button}
use wiiland.Mapping.Motion.{
  MotionKind, accel, motion_plus, MappedAxis, Abs3, Slots, map_motion, entries,
}
use wiiland.Config.Types.{profile_desktop, contains, AimMode, off, mouse, right_stick}
use wiiland.Calibration.{Sample}
use wiiland.Pointer.{
  PointerDelta, pointer_left, pointer_right, pointer_up, pointer_down, update_key, tick, select_ir,
  update_ir_frame,
}
use wiiland.Pointer
use wiiland.Pointer.Select.{IrFrame}
use wiiland.Aim.State.{AimResult, AimVector, AimState, reset_session}
use wiiland.Aim.{activation_key, process_ir, process_motion_plus, process_accelerometer}
use State.{
  OutputDevice, gamepad, desktop, OutputAction, key, abs, rel, sync, EngineInput, key_input, motion,
  ir, pointer_tick, source_removed, reset, write, DeviceEngine, pointer_active, held_buttons,
  desktop_key, desktop_key_held, needs_gamepad,
}

abbrev pub Reply : Type 0
Reply = DeviceEngine × List OutputAction

abbrev pub is_repeated : ButtonState → Bool
is_repeated repeated = true
is_repeated _ = false

pub emit_key_transition : OutputDevice → ℕ → Bool → Bool → ButtonState → List OutputAction
emit_key_transition target code false true state = key target code (value pressed) ∷ []
emit_key_transition target code true false state = key target code (value released) ∷ []
emit_key_transition target code true true state =
    if is_repeated state then key target code (value repeated) ∷ [] else []
emit_key_transition target code false false state = []

pub emit_pointer : ℤ → ℤ → List OutputAction
emit_pointer dx dy =
    rel desktop 0 dx
    ∷ rel desktop 1 dy
    ∷ (if not (eqb_ℤ dx (pos 0)) || not (eqb_ℤ dy (pos 0)) then sync desktop ∷ [] else [])

abbrev to_i16 : ℤ → ℤ
to_i16 v = clamp (negsuc 32767) (pos 32767) v

pub emit_vector : AimMode → AimVector → List OutputAction
emit_vector mouse v = emit_pointer v.x v.y
emit_vector right_stick v =
    abs gamepad abs_rx (to_i16 v.x) ∷ abs gamepad abs_ry (to_i16 v.y) ∷ sync gamepad ∷ []
emit_vector off v = []

pub emit_aim : AimMode → Option AimVector → List OutputAction
emit_aim mode none = []
emit_aim mode (some v) = emit_vector mode v

-- A result of the aim, put out by the new engine.
abbrev pub with_aim : DeviceEngine → AimState × AimResult → Reply
with_aim self r = (record self { aim = r.0 }, emit_aim r.0.config.output r.1.output)

-- The mask of one source after a transition; the bit is cleared by `& !bit` on a `u32`.
pub next_mask : ℕ → Button → ButtonState → ℕ
next_mask mask button released = bit_and mask (complement 32 (2 ^ code button))
next_mask mask button pressed = bit_or mask (2 ^ code button)
next_mask mask button repeated = bit_or mask (2 ^ code button)

abbrev pub pointer_bit : Button → ℕ
pointer_bit Button.left = pointer_left
pointer_bit Button.right = pointer_right
pointer_bit Button.up = pointer_up
pointer_bit Button.down = pointer_down
pointer_bit _ = 0

-- The parts of `key`, each with the aggregated masks before and after.
pub key_gamepad : DeviceEngine → Button → ButtonState → ℕ → ℕ → List OutputAction
key_gamepad self button state before after =
    if needs_gamepad self.profile self.config
    then emit_key_transition gamepad (map_button button) (has_bit before (code button))
        (has_bit after (code button)) state
    else []

abbrev pub key_mapped : DeviceEngine → Option ℕ → ButtonState → ℕ → ℕ → List OutputAction
key_mapped self none state before after = []
key_mapped self (some mapped) state before after =
    emit_key_transition desktop mapped (desktop_key_held self.config before mapped)
      (desktop_key_held self.config after mapped) state

pub key_desktop : DeviceEngine → Button → ButtonState → ℕ → ℕ → List OutputAction
key_desktop self button state before after =
    if contains self.profile profile_desktop
    then key_mapped self (desktop_key self.config button) state before after
    else []

pub key_pointer : DeviceEngine → Button → Bool → Bool → Reply
key_pointer self button was_held is_held =
    let bit = pointer_bit button in
    if contains self.profile profile_desktop && (not (bit == 0) && not (same was_held is_held))
    then (let r = update_key self.pointer bit is_held in
        (record self { pointer = r.0 }, emit_pointer r.1.dx r.1.dy))
    else (self, [])

pub key_aim : DeviceEngine → Button → Bool → Bool → Reply
key_aim self button was_held is_held =
    if not (same was_held is_held)
    then with_aim self (activation_key self.aim (code button) is_held)
    else (self, [])

pub key_event : DeviceEngine → InputSource → Button → ButtonState → Reply
key_event self source button state =
    let before = held_buttons self.held in
    let e : DeviceEngine = record self {
      held = write self.held source (next_mask (self.held source) button state);
    } in
    let after = held_buttons e.held in
    let was_held = has_bit before (code button) in
    let is_held = has_bit after (code button) in
    let moved = key_pointer e button was_held is_held in
    let aimed = key_aim moved.0 button was_held is_held in
    (
      aimed.0,
      key_gamepad e button state before after
          ++ (key_desktop e button state before after ++ (moved.1 ++ aimed.1)),
    )

-- The loop that releases what `held`, the mask of the source at its start, has pressed.
pub release_all : DeviceEngine → InputSource → ℕ → List Button → Reply
release_all self source held [] = (self, [])
release_all self source held (u ∷ rest) =
    let r = if has_bit held (code u) then key_event self source u released else (self, []) in
    let later = release_all r.0 source held rest in (later.0, r.1 ++ later.1)

abbrev pub abs_action : MappedAxis → OutputAction
abs_action axis = abs gamepad axis.code axis.value

pub motion_axes : DeviceEngine → MotionKind → Slots → List OutputAction
motion_axes self kind s =
    if needs_gamepad self.profile self.config
    then map abs_action (entries (map_motion kind s)) ++ sync gamepad ∷ []
    else []

abbrev pub sample_of : Abs3 → Sample
sample_of v = record { x = v.x; y = v.y; z = v.z }

pub motion_aim : DeviceEngine → MotionKind → Sample → Reply
motion_aim self accel v = with_aim self (process_accelerometer self.aim v)
motion_aim self motion_plus v = with_aim self (process_motion_plus self.aim v)
motion_aim self _ v = (self, [])

pub ir_pointer : DeviceEngine → IrFrame → Reply
ir_pointer self frame =
    if contains self.profile profile_desktop
    then (let r = update_ir_frame self.pointer frame in
        (record self { pointer = r.0 }, emit_pointer r.1.dx r.1.dy))
    else (self, [])

pub process : DeviceEngine → EngineInput → Reply
process self reset = (
  record self {
    pointer = Pointer.reset self.pointer;
    aim = reset_session self.aim;
    held = λ source. 0;
  },
  [],
)
process self pointer_tick =
    let delta = tick self.pointer in
    if pointer_active self then (self, emit_pointer delta.dx delta.dy) else (self, [])
process self (key_input source button state) = key_event self source button state
process self (source_removed source) = release_all self source (self.held source) all
process self (motion kind s) =
    let aimed = motion_aim self kind (sample_of s.slot0) in
    (aimed.0, motion_axes self kind s ++ aimed.1)
process self (ir frame) =
    let point = select_ir self.pointer frame in
    let moved = ir_pointer self frame in
    let aimed = with_aim moved.0 (process_ir moved.0.aim point) in (aimed.0, moved.1 ++ aimed.1)
