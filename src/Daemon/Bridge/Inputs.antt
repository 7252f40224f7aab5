-- ===== src/Daemon/Bridge/Inputs.antt =====
-- From the reports of a device to the inputs of its engine, in crates/wiilandd/src/bridge.rs.
use wiiland.Prelude.{ℕ, zero, suc, Bool, false, not, ◌||◌, List, [], ◌∷◌, Option, none, some}
use wiiland.Prelude.Int.{pos, eqb_ℤ}
use wiiland.Input.{InputSource, value, code}
use wiiland.Config.Types.{Config, Profile}
use wiiland.Mapping.Motion.{MotionKind, Abs3, Slots}
use wiiland.Pointer.Select.{IrPoint, IrFrame}
use wiiland.Engine.State.{EngineInput, key_input, motion, ir}
use wiiland.Hid.Model.{
  Axis3, ButtonEvent, InterfaceMask, includes_mask, EventKind, key, pro_controller_key,
  classic_controller_key, nunchuk_key, drums_key, guitar_key, accel_move, motion_plus_move, ir_move,
  balance_board_move, pro_controller_move, classic_controller_move, nunchuk_move, drums_move,
  guitar_move, watch, gone, unknown, interface,
}
use wiiland.Daemon.Bridge.Interfaces.{requested_interfaces}

abbrev valid_ir_point : Axis3 → Bool
valid_ir_point a = not (eqb_ℤ a.x (pos 1023)) || not (eqb_ℤ a.y (pos 1023))

abbrev key_codes : ButtonEvent → Option (ℕ × ℕ)
key_codes e = some (code e.button, value e.state)

key_event : EventKind → Option (ℕ × ℕ)
key_event (key e) = key_codes e
key_event (nunchuk_key e) = key_codes e
key_event (classic_controller_key e) = key_codes e
key_event (pro_controller_key e) = key_codes e
key_event (guitar_key e) = key_codes e
key_event (drums_key e) = key_codes e
key_event _ = none

axis_events : EventKind → List Axis3
axis_events (accel_move a) = a ∷ []
axis_events (motion_plus_move a) = a ∷ []
axis_events (ir_move slots) = slots
axis_events (balance_board_move slots) = slots
axis_events (nunchuk_move slots) = slots
axis_events (pro_controller_move slots) = slots
axis_events (classic_controller_move slots) = slots
axis_events (guitar_move slots) = slots
axis_events (drums_move slots) = slots
axis_events _ = []

abbrev requested_one : Option InterfaceMask → InterfaceMask → Bool
requested_one none requested = false
requested_one (some one) requested = includes_mask requested one

unfoldable pub forwards_to_engine : EventKind → Profile → Config → Bool
forwards_to_engine kind profile config =
    requested_one (interface kind) (requested_interfaces profile config)

abbrev ir_point : Axis3 → IrPoint
ir_point a = record { valid = valid_ir_point a; x = a.x; y = a.y }

-- The entry of a list of slots, and zeros where there is none.
abbrev slot_of : ℕ → List Axis3 → Axis3
slot_of i [] = record { x = pos 0; y = pos 0; z = pos 0 }
slot_of zero (a ∷ slots) = a
slot_of (suc i) (a ∷ slots) = slot_of i slots

abbrev abs3 : Axis3 → Abs3
abs3 a = record { x = a.x; y = a.y; z = a.z }

abbrev frame_of : List Axis3 → IrFrame
frame_of values = record {
  point0 = ir_point (slot_of 0 values);
  point1 = ir_point (slot_of 1 values);
  point2 = ir_point (slot_of 2 values);
  point3 = ir_point (slot_of 3 values);
}

abbrev axes_of : List Axis3 → Slots
axes_of values = record {
  slot0 = abs3 (slot_of 0 values);
  slot1 = abs3 (slot_of 1 values);
  slot2 = abs3 (slot_of 2 values);
  slot3 = abs3 (slot_of 3 values);
  slot4 = abs3 (slot_of 4 values);
  slot5 = abs3 (slot_of 5 values);
  slot6 = abs3 (slot_of 6 values);
  slot7 = abs3 (slot_of 7 values);
}

abbrev pressed : InputSource → ButtonEvent → Option EngineInput
pressed source e = some (key_input source e.button e.state)

abbrev moved : MotionKind → EventKind → Option EngineInput
moved kind report = some (motion kind (axes_of (axis_events report)))

unfoldable pub engine_input : EventKind → Option EngineInput
unfolding axis_events
engine_input (key e) = pressed InputSource.core e
engine_input (nunchuk_key e) = pressed InputSource.nunchuk e
engine_input (classic_controller_key e) = pressed InputSource.classic_controller e
engine_input (pro_controller_key e) = pressed InputSource.pro_controller e
engine_input (drums_key e) = pressed InputSource.drums e
engine_input (guitar_key e) = pressed InputSource.guitar e
engine_input (ir_move values) = some (ir (frame_of values))
engine_input (accel_move a) = moved MotionKind.accel (accel_move a)
engine_input (motion_plus_move a) = moved MotionKind.motion_plus (motion_plus_move a)
engine_input (nunchuk_move s) = moved MotionKind.nunchuk (nunchuk_move s)
engine_input (classic_controller_move s) = moved MotionKind.classic (classic_controller_move s)
engine_input (pro_controller_move s) = moved MotionKind.pro (pro_controller_move s)
engine_input (guitar_move s) = moved MotionKind.guitar (guitar_move s)
engine_input (drums_move s) = moved MotionKind.drums (drums_move s)
engine_input (balance_board_move s) = moved MotionKind.balance (balance_board_move s)
engine_input watch = none
engine_input gone = none
engine_input (unknown n) = none
