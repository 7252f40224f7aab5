-- ===== src/Ipc/Protocol.antt =====
-- The messages of crates/wiiland-ipc/src/protocol.rs.
use wiiland.Prelude.{ℕ, Bool, List, Option}
use wiiland.Prelude.Int.{ℤ}
use wiiland.Prelude.Text.{Text}
use wiiland.Ipc.Frame.{ProtocolError}

abbrev pub protocol_major : ℕ
protocol_major = 1

abbrev pub protocol_minor : ℕ
protocol_minor = 1

abbrev pub max_capture_devices : ℕ
max_capture_devices = 32

pub record Status : Type 0 where
  pub daemon_version : Text
  pub pid : ℕ
  pub device_count : ℕ
  pub dry_run : Bool
  pub socket_path : Text

pub record Diagnostics : Type 0 where
  pub trace_records_dropped : ℕ
  pub lifecycle_records_dropped : ℕ
  pub max_pointer_lateness_us : ℕ
  pub max_dispatch_duration_us : ℕ

pub data Profile : Type 0 where
  no_profile gamepad desktop both unknown_profile : Profile

pub record DeviceInfo : Type 0 where
  pub syspath : Text
  pub profile : Profile
  pub opened_interfaces : ℕ
  pub pending_interfaces : ℕ
  pub gamepad_output : Bool
  pub desktop_output : Bool

pub data Subscription : Type 0 where
  all input_events device_events : Subscription

pub data Command : Type 0 where
  hello : ℕ → ℕ → Command
  ping diagnostics config stop_capture status devices unknown_command : Command
  start_capture : Text → Command
  subscribe unsubscribe : List Subscription → Command

pub record Request : Type 0 where
  pub id : ℕ
  pub command : Command

pub data ResponseResult : Type 0 where
  hello_done : ℕ → ℕ → Text → ResponseResult
  pong capture_stopped subscribed unsubscribed : ResponseResult
  diagnostics_report : Diagnostics → ResponseResult
  config_text : Text → ResponseResult
  capture_started : DeviceInfo → ResponseResult
  status_report : Status → ResponseResult
  device_list : List DeviceInfo → ResponseResult

pub data RemovalReason : Type 0 where
  removed gone drain_error pointer_error unknown_reason : RemovalReason

pub record Timestamp : Type 0 where
  pub seconds : ℤ
  pub micros : ℕ

pub record Axis3 : Type 0 where
  pub x : ℤ
  pub y : ℤ
  pub z : ℤ

pub record ButtonEvent : Type 0 where
  pub code : ℕ
  pub state : ℕ

-- An array of axes is the list of them.
pub data InputPayload : Type 0 where
  key pro_controller_key classic_controller_key nunchuk_key drums_key guitar_key :
      ButtonEvent → InputPayload
  accel motion_plus : Axis3 → InputPayload
  ir balance_board pro_controller_move classic_controller_move nunchuk_move drums_move guitar_move :
      List Axis3 → InputPayload
  watch gone_away unsupported_payload : InputPayload
  unknown : ℕ → InputPayload

unfoldable pub event_code : InputPayload → ℕ
event_code (key _) = 0
event_code (accel _) = 1
event_code (ir _) = 2
event_code (balance_board _) = 3
event_code (motion_plus _) = 4
event_code (pro_controller_key _) = 5
event_code (pro_controller_move _) = 6
event_code watch = 7
event_code (classic_controller_key _) = 8
event_code (classic_controller_move _) = 9
event_code (nunchuk_key _) = 10
event_code (nunchuk_move _) = 11
event_code (drums_key _) = 12
event_code (drums_move _) = 13
event_code (guitar_key _) = 14
event_code (guitar_move _) = 15
event_code gone_away = 16
event_code (unknown value) = value
event_code unsupported_payload = 4294967295

pub data Notification : Type 0 where
  device_added : ℕ → DeviceInfo → Notification
  device_removed : ℕ → Text → RemovalReason → Notification
  input : ℕ → Text → Timestamp → InputPayload → Notification
  unsupported : Notification

pub data ServerMessage : Type 0 where
  response : ℕ → ResponseResult → ServerMessage
  notification : Notification → ServerMessage
  error : Option ℕ → ProtocolError → ServerMessage
