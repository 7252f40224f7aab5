-- ===== src/Hid/Recovery.antt =====
-- `RecoveryState` of crates/wiiland-hid/src/decode.rs: the key state that survives a dropped report.
pub mod Bits
pub mod Count
pub mod Keeps
pub mod Drain
use wiiland.Prelude.{
  ℕ, zero, suc, ◌+◌, ◌*◌, ◌/◌, ◌%◌, ◌^◌, Bool, true, false, not, ◌&&◌, ◌||◌, ◌==◌, leb, List, [],
  ◌∷◌, Option, none, some, bit_and, bit_or, if◌then◌else◌,
}
use Prim.Native.Nat.{bit_xor}
use wiiland.Prelude.Lists.{set, replicate, any}
use wiiland.Prelude.Int.{ℤ, pos, negsuc, eqb_ℤ, leb_ℤ}
use wiiland.Prelude.Mask.{has_bit, complement}
use wiiland.Hid.Codes.{ev_key, ev_syn, syn_report}
use wiiland.Hid.Model.{TimeVal, InputEvent}

abbrev key_words : ℕ
key_words = 12

-- Each list is the source's `[u64; 12]`.
pub record RecoveryState : Type 0 where
  pub key_state : List ℕ
  pub key_pending : List ℕ
  pub desynced : Bool
  pub key_resync_pending : Bool
  pub report_resync_pending : Bool
  pub resync_time : TimeVal

unfoldable pub default : RecoveryState
default = record {
  key_state = replicate key_words 0;
  key_pending = replicate key_words 0;
  desynced = false;
  key_resync_pending = false;
  report_resync_pending = false;
  resync_time = record { tv_sec = pos 0; tv_usec = pos 0 };
}

unfoldable pub dropped : RecoveryState → RecoveryState
dropped self = record self { desynced = true }

-- `keys.get(i).copied().unwrap_or(0)`, and the same on an array at an index in its range.
abbrev pub word_at : List ℕ → ℕ → ℕ
word_at [] i = 0
word_at (w ∷ words) zero = w
word_at (w ∷ words) (suc i) = word_at words i

-- The first `n` words of the keys.
abbrev pub words_of : ℕ → List ℕ → List ℕ
words_of zero keys = []
words_of (suc n) [] = 0 ∷ words_of n []
words_of (suc n) (k ∷ keys) = k ∷ words_of n keys

pub initialize : RecoveryState → List ℕ → RecoveryState
initialize self keys = record self {
  key_pending = replicate key_words 0;
  key_state = words_of key_words keys;
  desynced = false;
  key_resync_pending = false;
  report_resync_pending = false;
}

abbrev pub differences : List ℕ → List ℕ → List ℕ
differences [] keys = []
differences (w ∷ words) [] = bit_xor w 0 ∷ differences words []
differences (w ∷ words) (k ∷ keys) = bit_xor w k ∷ differences words keys

abbrev pub nonzero : ℕ → Bool
nonzero w = not (w == 0)

unfoldable pub seed : RecoveryState → List ℕ → TimeVal → Bool → RecoveryState
seed self keys time has_abs =
    let pending = differences self.key_state keys in
    record self {
      key_pending = pending;
      key_resync_pending = any nonzero pending;
      key_state = words_of key_words keys;
      resync_time = time;
      report_resync_pending = has_abs;
      desynced = false;
    }

-- `u64::trailing_zeros`, by the number of bits that are left.
pub trailing_zeros : ℕ → ℕ → ℕ
trailing_zeros zero w = 0
trailing_zeros (suc bits) w =
    let rest = trailing_zeros bits (w / 2) in if w % 2 == 1 then 0 else suc rest

-- The index of the first word that is not zero, from index `i` on.
pub first_word : ℕ → List ℕ → Option ℕ
first_word i [] = none
first_word i (w ∷ words) = let rest = first_word (suc i) words in if w == 0 then rest else some i

abbrev pub bit_value : Bool → ℤ
bit_value true = pos 1
bit_value false = pos 0

-- The event for bit `bit` of word `i`.
abbrev pub key_input : RecoveryState → ℕ → ℕ → InputEvent
key_input self i bit = record {
  time = self.resync_time;
  event_type = ev_key;
  code = (i * 64 + bit) % 2 ^ 16;
  value = bit_value (has_bit (word_at self.key_state i) bit);
}

abbrev pub clear_bit : List ℕ → ℕ → ℕ → List ℕ
clear_bit words i bit = set words i (bit_and (word_at words i) (complement 64 (2 ^ bit)))

abbrev pub take_key : RecoveryState → Option ℕ → RecoveryState × Option InputEvent
take_key self none = (record self { key_resync_pending = false }, none)
take_key self (some i) =
    let bit = trailing_zeros 64 (word_at self.key_pending i) in
    (record self { key_pending = clear_bit self.key_pending i bit }, some (key_input self i bit))

unfoldable pub next_key : RecoveryState → RecoveryState × Option InputEvent
unfolding first_word trailing_zeros
next_key self =
    if not self.key_resync_pending
    then (self, none)
    else take_key self (first_word 0 self.key_pending)

pub take_report : RecoveryState → RecoveryState × Option InputEvent
take_report self = if not self.report_resync_pending then (self, none) else (
  record self { report_resync_pending = false },
  some (record { time = self.resync_time; event_type = ev_syn; code = syn_report; value = pos 0 }),
)

unfoldable has_pending : RecoveryState → Bool
has_pending self = self.key_resync_pending || self.report_resync_pending

abbrev pub set_bit : List ℕ → ℕ → ℕ → List ℕ
set_bit words i bit = set words i (bit_or (word_at words i) (2 ^ bit))

unfoldable pub remember : RecoveryState → InputEvent → RecoveryState
remember self input =
    if not (input.event_type == ev_key)
      || (leb (key_words * 64) input.code
          || not (leb_ℤ (pos 0) input.value && leb_ℤ input.value (pos 2)))
    then self
    else (if eqb_ℤ input.value (pos 0)
        then record self {
          key_state = clear_bit self.key_state (input.code / 64) (input.code % 64);
        }
        else record self { key_state = set_bit self.key_state (input.code / 64) (input.code % 64) })
