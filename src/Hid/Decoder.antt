-- ===== src/Hid/Decoder.antt =====
-- `Decoder` of crates/wiiland-hid/src/decode.rs: from the kernel's input events to reports.
pub mod Reports
pub mod Keeps
pub mod Lost
use wiiland.Prelude.{
  ℕ, zero, suc, Bool, true, false, not, ◌&&◌, ◌==◌, ◌>>=◌, ◌<◌, ◌^◌, List, [], ◌∷◌, Option, none,
  some, if◌then◌else◌,
}
use wiiland.Prelude.Int.{ℤ, pos, negsuc, leb_ℤ}
use wiiland.Input.{ButtonState, released, pressed, repeated}
use wiiland.Hid.Codes.{ev_syn, ev_key, ev_abs, syn_report, syn_dropped}
use wiiland.Prelude.Lists.{All}
use wiiland.Hid.Model.{
  TimeVal, from_timeval, InputEvent, InterfaceKind, core, accel, ir, motion_plus, nunchuk, classic,
  balance_board, pro, drums, guitar, EventKind, accel_move, ir_move, motion_plus_move, nunchuk_move,
  classic_controller_move, balance_board_move, pro_controller_move, drums_move, guitar_move, Event,
}
use wiiland.Hid.Keys.{map_key_of, key_kind}
use wiiland.Hid.Axes.{CacheState, update_abs, abs_codes}
use wiiland.Hid.Normalizer.{MotionPlusNormalizer, normalize}
use wiiland.Hid.Recovery.{RecoveryState, dropped, initialize, seed, next_key, take_report, remember}

pub record Decoder : Type 0 where
  pub interface : InterfaceKind
  pub cache : CacheState
  pub recovery : RecoveryState
  pub motion_plus : MotionPlusNormalizer

unfoldable pub new : InterfaceKind → Decoder
new interface = record {
  interface = interface;
  cache = wiiland.Hid.Axes.default;
  recovery = wiiland.Hid.Recovery.default;
  motion_plus = wiiland.Hid.Normalizer.new;
}

unfoldable set_mp_normalization : Decoder → ℤ → ℤ → ℤ → ℤ → Decoder
set_mp_normalization self x y z factor = record self {
  motion_plus = wiiland.Hid.Normalizer.set x y z factor;
}

-- The state of a key event with a value from 0 to 2.
abbrev pub key_state_of : ℤ → Option ButtonState
key_state_of (pos zero) = some released
key_state_of (pos (suc zero)) = some pressed
key_state_of (pos (suc (suc zero))) = some repeated
key_state_of _ = none

abbrev pub timed : TimeVal → Option EventKind → Option Event
timed time none = none
timed time (some kind) = some (record { time = from_timeval time; kind = kind })

pub decode_key : Decoder → InputEvent → Option Event
decode_key self input =
    if not (leb_ℤ (pos 0) input.value && leb_ℤ input.value (pos 2))
    then none
    else timed input.time (do
      button ← map_key_of self.interface input.code
      state ← key_state_of input.value
      key_kind self.interface (record { button = button; state = state }))

abbrev pub report_kind : InterfaceKind → CacheState → MotionPlusNormalizer → Option EventKind
report_kind accel cache mp = some (accel_move cache.accel)
report_kind ir cache mp = some (ir_move cache.ir)
report_kind motion_plus cache mp = some (motion_plus_move (normalize mp cache.motion_plus).1)
report_kind nunchuk cache mp = some (nunchuk_move cache.nunchuk)
report_kind classic cache mp = some (classic_controller_move cache.classic)
report_kind balance_board cache mp = some (balance_board_move cache.balance_board)
report_kind pro cache mp = some (pro_controller_move cache.pro)
report_kind drums cache mp = some (drums_move cache.drums)
report_kind guitar cache mp = some (guitar_move cache.guitar)
report_kind core cache mp = none

-- Only a report of the Motion Plus moves its normalizer.
abbrev report_normalizer : InterfaceKind → CacheState → MotionPlusNormalizer → MotionPlusNormalizer
report_normalizer motion_plus cache mp = (normalize mp cache.motion_plus).0
report_normalizer _ cache mp = mp

pub report : Decoder → TimeVal → Decoder × Option Event
report self time = (
  record self { motion_plus = report_normalizer self.interface self.cache self.motion_plus },
  timed time (report_kind self.interface self.cache self.motion_plus),
)

abbrev pub update : Decoder → ℕ → ℤ → Decoder
update self code value = record self { cache = update_abs self.interface code value self.cache }

pub push : Decoder → InputEvent → Decoder × Option Event
push self input =
    if self.recovery.desynced
    then (self, none)
    else (if (input.event_type == ev_syn) && (input.code == syn_dropped)
        then (record self { recovery = dropped self.recovery }, none)
        else (if input.event_type == ev_key
            then (
              record self { recovery = remember self.recovery input },
              decode_key (record self { recovery = remember self.recovery input }) input,
            )
            else (if input.event_type == ev_abs
                then (update self input.code input.value, none)
                else (if (input.event_type == ev_syn) && (input.code == syn_report)
                    then report self input.time
                    else (self, none)))))

abbrev pub update_all : Decoder → List (ℕ × ℤ) → Decoder
update_all self [] = self
update_all self (a ∷ abs) = update_all (update self a.0 a.1) abs

pub seed_state : Decoder → List ℕ → List (ℕ × ℤ) → Decoder
seed_state self keys abs =
    let updated = update_all self abs in
    record updated { recovery = initialize updated.recovery keys }

-- Whether `abs_codes` of the interface has an element.
abbrev has_axes : List ℕ → Bool
has_axes [] = false
has_axes (code ∷ codes) = true

pub recover : Decoder → List ℕ → List (ℕ × ℤ) → TimeVal → Decoder
recover self keys abs time =
    let updated = update_all self abs in
    record updated {
      recovery = seed updated.recovery keys time (has_axes (abs_codes updated.interface));
    }

abbrev pub recovered_report : Decoder → RecoveryState × Option InputEvent → Decoder × Option Event
recovered_report self (recovery, none) = (record self { recovery = recovery }, none)
recovered_report self (recovery, some input) =
    report (record self { recovery = recovery }) input.time

abbrev pub recovered_key : Decoder → RecoveryState × Option InputEvent → Decoder × Option Event
recovered_key self (recovery, some input) =
    (record self { recovery = recovery }, decode_key (record self { recovery = recovery }) input)
recovered_key self (recovery, none) =
    recovered_report (record self { recovery = recovery }) (take_report recovery)

pub push_recovered : Decoder → Decoder × Option Event
push_recovered self = recovered_key self (next_key self.recovery)

abbrev pub reported : Option Event → List Event → List Event
reported none events = events
reported (some e) events = e ∷ events

pub push_all : Decoder → List InputEvent → Decoder × List Event
push_all self [] = (self, [])
push_all self (input ∷ inputs) =
    let r = push self input in let later = push_all r.0 inputs in (later.0, reported r.1 later.1)

-- A call of the decoder.
pub data Call : Type 0 where
  pushed : InputEvent → Call
  seeded : List ℕ → List (ℕ × ℤ) → Call
  recovering : List ℕ → List (ℕ × ℤ) → TimeVal → Call
  replayed : Call
  calibrated : ℤ → ℤ → ℤ → ℤ → Call

pub call : Decoder → Call → Decoder × Option Event
call self (pushed input) = push self input
call self (seeded keys abs) = (seed_state self keys abs, none)
call self (recovering keys abs time) = (recover self keys abs time, none)
call self replayed = push_recovered self
call self (calibrated x y z factor) = (set_mp_normalization self x y z factor, none)

pub call_all : Decoder → List Call → Decoder × List Event
call_all self [] = (self, [])
call_all self (c ∷ calls) =
    let r = call self c in let later = call_all r.0 calls in (later.0, reported r.1 later.1)

-- The words of a key array, which the kernel gives, have 64 bits.
abbrev pub IsCall : Call → Type 0
IsCall (seeded keys abs) = All (λ w. w < 2 ^ 64) keys
IsCall (recovering keys abs time) = All (λ w. w < 2 ^ 64) keys
IsCall _ = Unit
