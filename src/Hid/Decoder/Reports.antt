-- ===== src/Hid/Decoder/Reports.antt =====
-- What a decoder of crates/wiiland-hid/src/decode.rs reports in a history of calls.
use wiiland.Prelude.{
  ◌≡◌, refl, subst, arith, Bool, true, false, not, ◌&&◌, ◌==◌, List, [], ◌∷◌, Option, none, some,
  if_both, ◌>>=◌,
}
use wiiland.Prelude.Lists.{length, All}
use wiiland.Prelude.Int.{pos, leb_ℤ}
use wiiland.Input.{Button, ButtonState}
use wiiland.Hid.Model.{
  ButtonEvent, TimeVal, InputEvent, InterfaceKind, core, accel, ir, motion_plus, nunchuk, classic,
  balance_board, pro, drums, guitar, EventKind, key, pro_controller_key, classic_controller_key,
  nunchuk_key, drums_key, guitar_key, accel_move, motion_plus_move, ir_move, balance_board_move,
  pro_controller_move, classic_controller_move, nunchuk_move, drums_move, guitar_move, Event,
}
use wiiland.Hid.Recovery.{RecoveryState, remember, next_key, take_report}
use wiiland.Hid.Decoder.{
  Decoder, new, timed, key_state_of, decode_key, report_kind, report, push, recovered_report,
  recovered_key, push_recovered, call, Call, pushed, seeded, recovering, replayed, calibrated,
  call_all, reported, IsCall,
}
use wiiland.Hid.Decoder.Keeps.{IsCache, IsDecoder, push-cases, new-IsDecoder, call-IsDecoder}
use wiiland.Hid.Keys.{map_key_of, key_kind}

-- Whether a report is of an interface, with the slots that it has.
pub belongs : InterfaceKind → EventKind → Bool
belongs core (key e) = true
belongs accel (accel_move a) = true
belongs ir (ir_move slots) = length slots == 4
belongs motion_plus (motion_plus_move a) = true
belongs nunchuk (nunchuk_key e) = true
belongs nunchuk (nunchuk_move slots) = length slots == 2
belongs classic (classic_controller_key e) = true
belongs classic (classic_controller_move slots) = length slots == 3
belongs balance_board (balance_board_move slots) = length slots == 4
belongs pro (pro_controller_key e) = true
belongs pro (pro_controller_move slots) = length slots == 2
belongs drums (drums_key e) = true
belongs drums (drums_move slots) = length slots == 8
belongs guitar (guitar_key e) = true
belongs guitar (guitar_move slots) = length slots == 3
belongs _ _ = false

abbrev Fits : InterfaceKind → Option EventKind → Type 0
Fits kind none = Unit
Fits kind (some e) = belongs kind e ≡ true

abbrev Reports : InterfaceKind → Option Event → Type 0
Reports kind none = Unit
Reports kind (some e) = belongs kind e.kind ≡ true

timed-Fits :
    (kind : InterfaceKind) (time : TimeVal) (o : Option EventKind)
    → Fits kind o
    → Reports kind (timed time o)
timed-Fits kind time none h = tt
timed-Fits kind time (some e) h = h

key_kind-Fits : (kind : InterfaceKind) (e : ButtonEvent) → Fits kind (key_kind kind e)
unfolding key_kind belongs
key_kind-Fits core e = refl
key_kind-Fits accel e = tt
key_kind-Fits ir e = tt
key_kind-Fits motion_plus e = tt
key_kind-Fits nunchuk e = refl
key_kind-Fits classic e = refl
key_kind-Fits balance_board e = tt
key_kind-Fits pro e = refl
key_kind-Fits drums e = refl
key_kind-Fits guitar e = refl

decode_key-Reports :
    (self : Decoder) (input : InputEvent) → Reports self.interface (decode_key self input)
unfolding decode_key
decode_key-Reports self input =
    if_both (Reports self.interface) (not (leb_ℤ (pos 0) input.value && leb_ℤ input.value (pos 2)))
      none _ tt
      (timed-Fits self.interface input.time _ (by_button (map_key_of self.interface input.code)))
  where
    by_state :
        (button : Button) (s : Option ButtonState)
        → Fits self.interface
            (s >>= λ state. key_kind self.interface (record { button = button; state = state }))
    by_state button none = tt
    by_state button (some state) =
        key_kind-Fits self.interface (record { button = button; state = state })

    by_button :
        (b : Option Button)
        → Fits self.interface (
            b >>= λ button. key_state_of input.value >>= λ state.
            key_kind self.interface (record { button = button; state = state }))
    by_button none = tt
    by_button (some button) = by_state button (key_state_of input.value)

report_kind-Fits :
    (kind : InterfaceKind) (self : Decoder)
    → IsCache self.cache
    → Fits kind (report_kind kind self.cache self.motion_plus)
unfolding belongs
report_kind-Fits core self h = tt
report_kind-Fits accel self h = refl
report_kind-Fits ir self h = ground (arith, h.ir)
report_kind-Fits motion_plus self h = refl
report_kind-Fits nunchuk self h = ground (arith, h.nunchuk)
report_kind-Fits classic self h = ground (arith, h.classic)
report_kind-Fits balance_board self h = ground (arith, h.balance_board)
report_kind-Fits pro self h = ground (arith, h.pro)
report_kind-Fits drums self h = ground (arith, h.drums)
report_kind-Fits guitar self h = ground (arith, h.guitar)

report-Reports :
    (self : Decoder) (time : TimeVal)
    → IsCache self.cache
    → Reports self.interface (report self time).1
unfolding report
report-Reports self time h =
    timed-Fits self.interface time (report_kind self.interface self.cache self.motion_plus)
      (report_kind-Fits self.interface self h)

push-Reports :
    (self : Decoder) (input : InputEvent)
    → IsCache self.cache
    → Reports self.interface (push self input).1
push-Reports self input h =
    push-cases (λ r. Reports self.interface r.1) self input tt tt
      (λ _. decode_key-Reports (record self { recovery = remember self.recovery input }) input) tt
      (report-Reports self input.time h)

push_recovered-Reports :
    (self : Decoder) → IsCache self.cache → Reports self.interface (push_recovered self).1
unfolding push_recovered
push_recovered-Reports self h = by_key (next_key self.recovery).0 (next_key self.recovery).1
  where
    by_report :
        (n : RecoveryState) (o : Option InputEvent)
        → Reports self.interface (recovered_report self (n, o)).1
    by_report n none = tt
    by_report n (some input) = report-Reports (record self { recovery = n }) input.time h

    by_key :
        (n : RecoveryState) (o : Option InputEvent)
        → Reports self.interface (recovered_key self (n, o)).1
    by_key n (some input) = decode_key-Reports (record self { recovery = n }) input
    by_key n none = by_report (take_report n).0 (take_report n).1

call-Reports :
    (kind : InterfaceKind) (self : Decoder) (c : Call)
    → IsDecoder kind self
    → Reports kind (call self c).1
unfolding call
call-Reports kind self (pushed input) d =
    subst (λ k. Reports k (push self input).1) d.kept (push-Reports self input d.cache)
call-Reports kind self (seeded keys abs) d = tt
call-Reports kind self (recovering keys abs time) d = tt
call-Reports kind self replayed d =
    subst (λ k. Reports k (push_recovered self).1) d.kept (push_recovered-Reports self d.cache)
call-Reports kind self (calibrated x y z factor) d = tt

reported-Reports :
    (kind : InterfaceKind) (o : Option Event) (events : List Event)
    → Reports kind o
    → All (λ e. belongs kind e.kind ≡ true) events
    → All (λ e. belongs kind e.kind ≡ true) (reported o events)
reported-Reports kind none events h k = k
reported-Reports kind (some e) events h k = (h, k)

call_all-belongs :
    (kind : InterfaceKind) (self : Decoder) (calls : List Call)
    → IsDecoder kind self
    → All IsCall calls
    → All (λ e. belongs kind e.kind ≡ true) (call_all self calls).1
      × IsDecoder kind (call_all self calls).0
unfolding call_all
call_all-belongs kind self [] d h = (tt, d)
call_all-belongs kind self (c ∷ calls) d h =
    let rest = call_all-belongs kind (call self c).0 calls (call-IsDecoder kind self c h.0 d) h.1 in
    (
      reported-Reports kind (call self c).1 (call_all (call self c).0 calls).1
          (call-Reports kind self c d) rest.0,
      rest.1,
    )

-- In every history of a new decoder of an interface, whatever the kernel sends and however often the
-- state is seeded, recovered and replayed, each report is of that interface and has the number of
-- slots of its array; the arrays of the cache and the key words keep their sizes, and a key word
-- stays below 2^64. The key words that the kernel gives for a seed are below 2^64.
pub new-belongs :
    (kind : InterfaceKind) (calls : List Call)
    → All IsCall calls
    → All (λ e. belongs kind e.kind ≡ true) (call_all (new kind) calls).1
      × IsDecoder kind (call_all (new kind) calls).0
new-belongs kind calls h = call_all-belongs kind (new kind) calls (new-IsDecoder kind) h
