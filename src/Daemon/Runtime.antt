-- ===== src/Daemon/Runtime.antt =====
-- The messages that crates/wiilandd/src/runtime.rs makes of reports.
pub mod Payloads
use wiiland.Prelude.{
  ℕ, ◌+◌, ◌%◌, ◌^◌, Bool, ◌==◌, List, map, Option, none, some, ◌>>=◌, if◌then◌else◌,
}
use wiiland.Input.{Button, ButtonState, code, value}
use wiiland.Config.Types.{profile_gamepad, profile_desktop, profile_both}
use wiiland.Ipc.Protocol.{
  InputPayload, Axis3, ButtonEvent, Timestamp, Profile, no_profile, gamepad, desktop, both,
}
use wiiland.Hid.Model
use wiiland.Hid.Model.{EventKind, Event, event_code}

-- The counter after the call, which is also the number that it gives.
pub next_sequence : ℕ → ℕ
next_sequence sequence = let next = (sequence + 1) % 2 ^ 64 in if next == 0 then 1 else next

abbrev pub axis : wiiland.Hid.Model.Axis3 → Axis3
axis value = record { x = value.x; y = value.y; z = value.z }

abbrev pub button_code : Button → Option ℕ
button_code button = some (code button)

abbrev pub button_state : ButtonState → Option ℕ
button_state state = some (value state)

abbrev pub button : wiiland.Hid.Model.ButtonEvent → Option ButtonEvent
button event = button_code event.button >>= (λ number.
    button_state event.state >>= (λ state. some (record { code = number; state = state })))

-- `map_or` of the unknown payload.
abbrev pub known : ℕ → (ButtonEvent → InputPayload) → Option ButtonEvent → InputPayload
known raw payload none = InputPayload.unknown raw
known raw payload (some event) = payload event

unfoldable pub input_payload : EventKind → InputPayload
input_payload (EventKind.key value) =
    known (event_code (EventKind.key value)) InputPayload.key (button value)
input_payload (EventKind.accel_move value) = InputPayload.accel (axis value)
input_payload (EventKind.ir_move values) = InputPayload.ir (map axis values)
input_payload (EventKind.balance_board_move values) = InputPayload.balance_board (map axis values)
input_payload (EventKind.motion_plus_move value) = InputPayload.motion_plus (axis value)
input_payload (EventKind.pro_controller_key value) =
    known (event_code (EventKind.pro_controller_key value)) InputPayload.pro_controller_key
      (button value)
input_payload (EventKind.pro_controller_move values) =
    InputPayload.pro_controller_move (map axis values)
input_payload EventKind.watch = InputPayload.watch
input_payload (EventKind.classic_controller_key value) =
    known (event_code (EventKind.classic_controller_key value)) InputPayload.classic_controller_key
      (button value)
input_payload (EventKind.classic_controller_move values) =
    InputPayload.classic_controller_move (map axis values)
input_payload (EventKind.nunchuk_key value) =
    known (event_code (EventKind.nunchuk_key value)) InputPayload.nunchuk_key (button value)
input_payload (EventKind.nunchuk_move values) = InputPayload.nunchuk_move (map axis values)
input_payload (EventKind.drums_key value) =
    known (event_code (EventKind.drums_key value)) InputPayload.drums_key (button value)
input_payload (EventKind.drums_move values) = InputPayload.drums_move (map axis values)
input_payload (EventKind.guitar_key value) =
    known (event_code (EventKind.guitar_key value)) InputPayload.guitar_key (button value)
input_payload (EventKind.guitar_move values) = InputPayload.guitar_move (map axis values)
input_payload EventKind.gone = InputPayload.gone_away
input_payload (EventKind.unknown value) = InputPayload.unknown value

pub timestamp : Event → Timestamp
timestamp event = record { seconds = event.time.seconds; micros = event.time.microseconds }

pub ipc_profile : wiiland.Config.Types.Profile → Profile
ipc_profile profile =
    if profile == profile_gamepad
    then gamepad
    else if profile == profile_desktop
    then desktop
    else if profile == profile_both
    then both
    else no_profile
