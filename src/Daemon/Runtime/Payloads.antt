-- ===== src/Daemon/Runtime/Payloads.antt =====
-- The reports that a client reads off the messages of crates/wiilandd/src/runtime.rs.
use wiiland.Prelude.{ℕ, ◌≡◌, refl, ap, List, [], ◌∷◌, map, Option, none, some, ◌>>=◌}
use wiiland.Prelude.Lists.{get_elem?}
use wiiland.Input.{ButtonState, released, pressed, repeated, from_code, code, value}
use wiiland.Input.Codes.{from_code-code}
use wiiland.Ipc.Protocol
use wiiland.Ipc.Protocol.{InputPayload, Axis3, ButtonEvent}
use wiiland.Hid.Model
use wiiland.Hid.Model.{EventKind}
use wiiland.Daemon.Runtime.{axis, input_payload}

abbrev state_of : ℕ → Option ButtonState
state_of number = get_elem? (released ∷ pressed ∷ repeated ∷ []) number

abbrev key_of : (wiiland.Hid.Model.ButtonEvent → EventKind) → ButtonEvent → Option EventKind
key_of kind event = from_code event.code >>= (λ button.
    state_of event.state >>= (λ state. some (kind (record { button = button; state = state }))))

abbrev axis_of : Axis3 → wiiland.Hid.Model.Axis3
axis_of a = record { x = a.x; y = a.y; z = a.z }

-- The report that a message stands for.
pub report_of : InputPayload → Option EventKind
report_of (InputPayload.key event) = key_of EventKind.key event
report_of (InputPayload.pro_controller_key event) = key_of EventKind.pro_controller_key event
report_of (InputPayload.classic_controller_key event) =
    key_of EventKind.classic_controller_key event
report_of (InputPayload.nunchuk_key event) = key_of EventKind.nunchuk_key event
report_of (InputPayload.drums_key event) = key_of EventKind.drums_key event
report_of (InputPayload.guitar_key event) = key_of EventKind.guitar_key event
report_of (InputPayload.accel value) = some (EventKind.accel_move (axis_of value))
report_of (InputPayload.motion_plus value) = some (EventKind.motion_plus_move (axis_of value))
report_of (InputPayload.ir values) = some (EventKind.ir_move (map axis_of values))
report_of (InputPayload.balance_board values) =
    some (EventKind.balance_board_move (map axis_of values))
report_of (InputPayload.pro_controller_move values) =
    some (EventKind.pro_controller_move (map axis_of values))
report_of (InputPayload.classic_controller_move values) =
    some (EventKind.classic_controller_move (map axis_of values))
report_of (InputPayload.nunchuk_move values) = some (EventKind.nunchuk_move (map axis_of values))
report_of (InputPayload.drums_move values) = some (EventKind.drums_move (map axis_of values))
report_of (InputPayload.guitar_move values) = some (EventKind.guitar_move (map axis_of values))
report_of InputPayload.watch = some EventKind.watch
report_of InputPayload.gone_away = some EventKind.gone
report_of InputPayload.unsupported_payload = none
report_of (InputPayload.unknown value) = some (EventKind.unknown value)

state_of-value : (s : ButtonState) → state_of (value s) ≡ some s
unfolding value
state_of-value released = refl
state_of-value pressed = refl
state_of-value repeated = refl

axes_of : (values : List wiiland.Hid.Model.Axis3) → map axis_of (map axis values) ≡ values
axes_of [] = refl
axes_of (v ∷ values) = ap (λ l. v ∷ l) (axes_of values)

key_of-button :
    (kind : wiiland.Hid.Model.ButtonEvent → EventKind) (event : wiiland.Hid.Model.ButtonEvent)
    → key_of kind (record { code = code event.button; state = value event.state })
      ≡ some (kind event)
key_of-button kind event = simp (from_code-code event.button, state_of-value event.state) refl

report_of-input_payload : (kind : EventKind) → report_of (input_payload kind) ≡ some kind
unfolding report_of input_payload
report_of-input_payload (EventKind.key event) = key_of-button EventKind.key event
report_of-input_payload (EventKind.pro_controller_key event) =
    key_of-button EventKind.pro_controller_key event
report_of-input_payload (EventKind.classic_controller_key event) =
    key_of-button EventKind.classic_controller_key event
report_of-input_payload (EventKind.nunchuk_key event) = key_of-button EventKind.nunchuk_key event
report_of-input_payload (EventKind.drums_key event) = key_of-button EventKind.drums_key event
report_of-input_payload (EventKind.guitar_key event) = key_of-button EventKind.guitar_key event
report_of-input_payload (EventKind.accel_move value) = refl
report_of-input_payload (EventKind.motion_plus_move value) = refl
report_of-input_payload (EventKind.ir_move values) =
    ap (λ l. some (EventKind.ir_move l)) (axes_of values)
report_of-input_payload (EventKind.balance_board_move values) =
    ap (λ l. some (EventKind.balance_board_move l)) (axes_of values)
report_of-input_payload (EventKind.pro_controller_move values) =
    ap (λ l. some (EventKind.pro_controller_move l)) (axes_of values)
report_of-input_payload (EventKind.classic_controller_move values) =
    ap (λ l. some (EventKind.classic_controller_move l)) (axes_of values)
report_of-input_payload (EventKind.nunchuk_move values) =
    ap (λ l. some (EventKind.nunchuk_move l)) (axes_of values)
report_of-input_payload (EventKind.drums_move values) =
    ap (λ l. some (EventKind.drums_move l)) (axes_of values)
report_of-input_payload (EventKind.guitar_move values) =
    ap (λ l. some (EventKind.guitar_move l)) (axes_of values)
report_of-input_payload EventKind.watch = refl
report_of-input_payload EventKind.gone = refl
report_of-input_payload (EventKind.unknown value) = refl

event_code-input_payload :
    (kind : EventKind)
    → wiiland.Ipc.Protocol.event_code (input_payload kind) ≡ wiiland.Hid.Model.event_code kind
unfolding input_payload wiiland.Ipc.Protocol.event_code wiiland.Hid.Model.event_code
event_code-input_payload (EventKind.key event) = refl
event_code-input_payload (EventKind.pro_controller_key event) = refl
event_code-input_payload (EventKind.classic_controller_key event) = refl
event_code-input_payload (EventKind.nunchuk_key event) = refl
event_code-input_payload (EventKind.drums_key event) = refl
event_code-input_payload (EventKind.guitar_key event) = refl
event_code-input_payload _ = refl

-- A client can read every report off its message: buttons, states and all axes come back as they
-- were, and the number of the message is the number of the report.
pub input_payload-report_of :
    (kind : EventKind)
    → (report_of (input_payload kind) ≡ some kind)
      × (wiiland.Ipc.Protocol.event_code (input_payload kind) ≡ wiiland.Hid.Model.event_code kind)
input_payload-report_of kind = (report_of-input_payload kind, event_code-input_payload kind)
