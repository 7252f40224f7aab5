-- ===== src/Trace.antt =====
-- crates/wiiland-core/src/trace.rs: the kinds of events and the filter of a trace.
pub mod Kinds
use wiiland.Prelude.{ℕ, Bool, true, false, ◌==◌, ◌&&◌, List, [], ◌∷◌, Option, none, some}
use wiiland.Prelude.Lists.{get_elem?}
use wiiland.Prelude.Text.{Text, codes}
use wiiland.Config.Names.{by_name}

pub data EventType : Type 0 where
  key accelerometer ir balance_board motion_plus pro_key pro_move watch classic_key classic_move
        nunchuk_key nunchuk_move drums_key drums_move guitar_key guitar_move gone :
      EventType
  unknown : ℕ → EventType

-- The arms of `from_raw` for 0 to 16.
abbrev known : List EventType
known =
    key ∷ accelerometer ∷ ir ∷ balance_board ∷ motion_plus ∷ pro_key ∷ pro_move ∷ watch
    ∷ classic_key ∷ classic_move ∷ nunchuk_key ∷ nunchuk_move ∷ drums_key ∷ drums_move ∷ guitar_key
    ∷ guitar_move ∷ gone ∷ []

abbrev or_unknown : ℕ → Option EventType → EventType
or_unknown n none = unknown n
or_unknown n (some e) = e

pub from_raw : ℕ → EventType
from_raw n = or_unknown n (get_elem? known n)

pub raw : EventType → ℕ
raw key = 0
raw accelerometer = 1
raw ir = 2
raw balance_board = 3
raw motion_plus = 4
raw pro_key = 5
raw pro_move = 6
raw watch = 7
raw classic_key = 8
raw classic_move = 9
raw nunchuk_key = 10
raw nunchuk_move = 11
raw drums_key = 12
raw drums_move = 13
raw guitar_key = 14
raw guitar_move = 15
raw gone = 16
raw (unknown n) = n

is_key : EventType → Bool
is_key key = true
is_key classic_key = true
is_key nunchuk_key = true
is_key drums_key = true
is_key guitar_key = true
is_key pro_key = true
is_key _ = false

is_axes : EventType → Bool
is_axes accelerometer = true
is_axes ir = true
is_axes balance_board = true
is_axes motion_plus = true
is_axes classic_move = true
is_axes nunchuk_move = true
is_axes drums_move = true
is_axes guitar_move = true
is_axes pro_move = true
is_axes _ = false

abbrev is_key_event : ℕ → Bool
is_key_event n = is_key (from_raw n)

abbrev is_abs_event : ℕ → Bool
is_abs_event n = is_axes (from_raw n)

pub data TraceFilter : Type 0 where
  all_events keys axes ir_only motion_plus_only : TraceFilter

pub matches : TraceFilter → ℕ → Bool
unfolding raw is_key is_axes from_raw
matches all_events n = true
matches keys n = is_key_event n
matches axes n = is_abs_event n
matches ir_only n = n == raw ir
matches motion_plus_only n = n == raw motion_plus

pub name : TraceFilter → Text
name all_events = codes "all"
name keys = codes "keys"
name axes = codes "axes"
name ir_only = codes "ir"
name motion_plus_only = codes "motion-plus"

pub from_str : Text → Option TraceFilter
unfolding by_name
from_str = by_name (
    (codes "all", all_events)
    ∷ (codes "keys", keys)
    ∷ (codes "axes", axes)
    ∷ (codes "ir", ir_only)
    ∷ (codes "motion-plus", motion_plus_only)
    ∷ [])

pub record TraceConfig : Type 0 where
  pub enabled : Bool
  pub filter : TraceFilter

abbrev default_trace : TraceConfig
default_trace = record { enabled = false; filter = all_events }

abbrev with_filter : TraceConfig → Option TraceFilter → TraceConfig
with_filter self none = self
with_filter self (some f) = record self { filter = f }

pub enable : TraceConfig → Option TraceFilter → TraceConfig
enable self filter = with_filter (record self { enabled = true }) filter

pub traces : TraceConfig → ℕ → Bool
unfolding matches
traces self n = self.enabled && matches self.filter n
