-- ===== src/Hid/Model.antt =====
-- crates/wiiland-hid/src/model.rs and the event types of decode.rs.
use wiiland.Prelude.{
  ℕ, Bool, ◌==◌, List, Option, none, some, bit_and, bit_or, leb, min, if◌then◌else◌,
}
use wiiland.Prelude.Int.{ℤ, pos, negsuc}
use wiiland.Prelude.Mask.{complement}
use wiiland.Input.{Button, ButtonState}

pub record Axis3 : Type 0 where
  pub x : ℤ
  pub y : ℤ
  pub z : ℤ

abbrev pub origin : Axis3
origin = record { x = pos 0; y = pos 0; z = pos 0 }

-- `libc::timeval`.
pub record TimeVal : Type 0 where
  pub tv_sec : ℤ
  pub tv_usec : ℤ

pub record Timestamp : Type 0 where
  pub seconds : ℤ
  pub microseconds : ℕ

-- `u32::try_from`.
abbrev to_u32 : ℤ → ℕ
to_u32 (pos n) = if leb n 4294967295 then n else 0
to_u32 (negsuc n) = 0

unfoldable pub from_timeval : TimeVal → Timestamp
from_timeval time = record {
  seconds = time.tv_sec;
  microseconds = min (to_u32 time.tv_usec) 999999;
}

pub record InputEvent : Type 0 where
  pub time : TimeVal
  pub event_type : ℕ
  pub code : ℕ
  pub value : ℤ

-- A set of interfaces, in a `u32`.
abbrev pub InterfaceMask : Type 0
InterfaceMask = ℕ

abbrev pub mask_core : InterfaceMask
mask_core = 0x1

abbrev pub mask_accel : InterfaceMask
mask_accel = 0x2

abbrev pub mask_ir : InterfaceMask
mask_ir = 0x4

abbrev pub mask_motion_plus : InterfaceMask
mask_motion_plus = 0x100

abbrev pub mask_nunchuk : InterfaceMask
mask_nunchuk = 0x200

abbrev mask_classic_controller : InterfaceMask
mask_classic_controller = 0x400

abbrev mask_balance_board : InterfaceMask
mask_balance_board = 0x800

abbrev mask_pro_controller : InterfaceMask
mask_pro_controller = 0x1000

abbrev mask_drums : InterfaceMask
mask_drums = 0x2000

abbrev mask_guitar : InterfaceMask
mask_guitar = 0x4000

abbrev pub mask_all : InterfaceMask
mask_all = 0x7f07

-- The operators `|`, `&` and `&` with `!` of `InterfaceMask`.
abbrev pub insert : InterfaceMask → InterfaceMask → InterfaceMask
insert self other = bit_or self other

abbrev pub meet : InterfaceMask → InterfaceMask → InterfaceMask
meet self other = bit_and self other

abbrev pub without : InterfaceMask → InterfaceMask → InterfaceMask
without self other = bit_and self (complement 32 other)

abbrev pub includes_mask : InterfaceMask → InterfaceMask → Bool
includes_mask self other = bit_and self other == other

pub record ButtonEvent : Type 0 where
  pub button : Button
  pub state : ButtonState

-- What one event device reports.
pub data InterfaceKind : Type 0 where
  core accel ir motion_plus nunchuk classic balance_board pro drums guitar : InterfaceKind

-- A report; an array of slots is the list of them.
pub data EventKind : Type 0 where
  key pro_controller_key classic_controller_key nunchuk_key drums_key guitar_key :
      ButtonEvent → EventKind
  accel_move motion_plus_move : Axis3 → EventKind
  ir_move balance_board_move pro_controller_move classic_controller_move nunchuk_move drums_move
        guitar_move :
      List Axis3 → EventKind
  watch gone : EventKind
  unknown : ℕ → EventKind

pub record Event : Type 0 where
  pub time : Timestamp
  pub kind : EventKind

-- The interface that produced a report.
unfoldable pub interface : EventKind → Option InterfaceMask
interface (key _) = some mask_core
interface (accel_move _) = some mask_accel
interface (ir_move _) = some mask_ir
interface (balance_board_move _) = some mask_balance_board
interface (motion_plus_move _) = some mask_motion_plus
interface (pro_controller_key _) = some mask_pro_controller
interface (pro_controller_move _) = some mask_pro_controller
interface (classic_controller_key _) = some mask_classic_controller
interface (classic_controller_move _) = some mask_classic_controller
interface (nunchuk_key _) = some mask_nunchuk
interface (nunchuk_move _) = some mask_nunchuk
interface (drums_key _) = some mask_drums
interface (drums_move _) = some mask_drums
interface (guitar_key _) = some mask_guitar
interface (guitar_move _) = some mask_guitar
interface watch = none
interface gone = none
interface (unknown _) = none

-- `EventType::code` of `event_type`.
unfoldable pub event_code : EventKind → ℕ
event_code (key _) = 0
event_code (accel_move _) = 1
event_code (ir_move _) = 2
event_code (balance_board_move _) = 3
event_code (motion_plus_move _) = 4
event_code (pro_controller_key _) = 5
event_code (pro_controller_move _) = 6
event_code watch = 7
event_code (classic_controller_key _) = 8
event_code (classic_controller_move _) = 9
event_code (nunchuk_key _) = 10
event_code (nunchuk_move _) = 11
event_code (drums_key _) = 12
event_code (drums_move _) = 13
event_code (guitar_key _) = 14
event_code (guitar_move _) = 15
event_code gone = 16
event_code (unknown value) = value
