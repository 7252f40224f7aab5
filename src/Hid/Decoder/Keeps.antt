-- ===== src/Hid/Decoder/Keeps.antt =====
-- What every history of a decoder of crates/wiiland-hid/src/decode.rs keeps.
use wiiland.Prelude.{
  ℕ, zero, suc, ◌≡◌, refl, ◌∙◌, arith, List, [], ◌∷◌, Option, none, some, if_both, if_cases, true,
  ◌==◌,
}
use wiiland.Prelude.Int.{ℤ}
use wiiland.Prelude.Lists.{length}
use wiiland.Hid.Codes.{ev_key}
use wiiland.Hid.Model.{
  Axis3, TimeVal, InputEvent, InterfaceKind, core, accel, ir, motion_plus, nunchuk, classic,
  balance_board, pro, drums, guitar, Event,
}
use wiiland.Hid.Axes.{CacheState, Coordinate, put, put_slot, many, update_abs}
use wiiland.Hid.Recovery.{RecoveryState, dropped, remember, next_key, take_report}
use wiiland.Hid.Recovery.Keeps.{
  IsRecovery, default-IsRecovery, dropped-IsRecovery, initialize-IsRecovery, seed-IsRecovery,
  next_key-IsRecovery, take_report-IsRecovery, remember-IsRecovery,
}
use wiiland.Hid.Decoder.{
  Decoder, new, decode_key, report, update, push, update_all, seed_state, recover, recovered_report,
  recovered_key, push_recovered, call, Call, pushed, seeded, recovering, replayed, calibrated,
  call_all, IsCall,
}

-- The arrays of the cache have the source's sizes.
pub record IsCache (c : CacheState) : Type 0 where
  pub ir : length c.ir ≡ 4
  pub nunchuk : length c.nunchuk ≡ 2
  pub classic : length c.classic ≡ 3
  pub balance_board : length c.balance_board ≡ 4
  pub pro : length c.pro ≡ 2
  pub drums : length c.drums ≡ 8
  pub guitar : length c.guitar ≡ 3

length-put_slot :
    (i : ℕ) (c : Coordinate) (v : ℤ) (slots : List Axis3)
    → length (put_slot i c v slots) ≡ length slots
unfolding put_slot
length-put_slot i c v [] = refl
length-put_slot zero c v (a ∷ slots) = refl
length-put_slot (suc i) c v (a ∷ slots) = omega (arith, length-put_slot i c v slots)

length-many :
    (v : ℤ) (place : Option (ℕ × Coordinate)) (slots : List Axis3)
    → length (many v place slots) ≡ length slots
length-many v none slots = refl
length-many v (some place) slots = length-put_slot place.0 place.1 v slots

update_abs-IsCache :
    (kind : InterfaceKind) (code : ℕ) (v : ℤ) (c : CacheState)
    → IsCache c
    → IsCache (update_abs kind code v c)
unfolding update_abs
update_abs-IsCache core code v c h = h
update_abs-IsCache accel code v c h = record {
  ir = h.ir;
  nunchuk = h.nunchuk;
  classic = h.classic;
  balance_board = h.balance_board;
  pro = h.pro;
  drums = h.drums;
  guitar = h.guitar;
}
update_abs-IsCache motion_plus code v c h = record {
  ir = h.ir;
  nunchuk = h.nunchuk;
  classic = h.classic;
  balance_board = h.balance_board;
  pro = h.pro;
  drums = h.drums;
  guitar = h.guitar;
}
update_abs-IsCache ir code v c h = record {
  ir = length-many v _ c.ir ∙ h.ir;
  nunchuk = h.nunchuk;
  classic = h.classic;
  balance_board = h.balance_board;
  pro = h.pro;
  drums = h.drums;
  guitar = h.guitar;
}
update_abs-IsCache nunchuk code v c h = record {
  ir = h.ir;
  nunchuk = length-many v _ c.nunchuk ∙ h.nunchuk;
  classic = h.classic;
  balance_board = h.balance_board;
  pro = h.pro;
  drums = h.drums;
  guitar = h.guitar;
}
update_abs-IsCache classic code v c h = record {
  ir = h.ir;
  nunchuk = h.nunchuk;
  classic = length-many v _ c.classic ∙ h.classic;
  balance_board = h.balance_board;
  pro = h.pro;
  drums = h.drums;
  guitar = h.guitar;
}
update_abs-IsCache balance_board code v c h = record {
  ir = h.ir;
  nunchuk = h.nunchuk;
  classic = h.classic;
  balance_board = length-many v _ c.balance_board ∙ h.balance_board;
  pro = h.pro;
  drums = h.drums;
  guitar = h.guitar;
}
update_abs-IsCache pro code v c h = record {
  ir = h.ir;
  nunchuk = h.nunchuk;
  classic = h.classic;
  balance_board = h.balance_board;
  pro = length-many v _ c.pro ∙ h.pro;
  drums = h.drums;
  guitar = h.guitar;
}
update_abs-IsCache drums code v c h = record {
  ir = h.ir;
  nunchuk = h.nunchuk;
  classic = h.classic;
  balance_board = h.balance_board;
  pro = h.pro;
  drums = length-many v _ c.drums ∙ h.drums;
  guitar = h.guitar;
}
update_abs-IsCache guitar code v c h = record {
  ir = h.ir;
  nunchuk = h.nunchuk;
  classic = h.classic;
  balance_board = h.balance_board;
  pro = h.pro;
  drums = h.drums;
  guitar = length-many v _ c.guitar ∙ h.guitar;
}

pub record IsDecoder (kind : InterfaceKind) (self : Decoder) : Type 0 where
  pub kept : self.interface ≡ kind
  pub cache : IsCache self.cache
  pub recovery : IsRecovery self.recovery

pub new-IsDecoder : (kind : InterfaceKind) → IsDecoder kind (new kind)
unfolding new wiiland.Hid.Axes.default
new-IsDecoder kind = record {
  kept = refl;
  cache = record {
    ir = refl;
    nunchuk = refl;
    classic = refl;
    balance_board = refl;
    pro = refl;
    drums = refl;
    guitar = refl;
  };
  recovery = default-IsRecovery;
}

update-IsDecoder :
    (kind : InterfaceKind) (self : Decoder) (code : ℕ) (v : ℤ)
    → IsDecoder kind self
    → IsDecoder kind (update self code v)
update-IsDecoder kind self code v d = record {
  kept = d.kept;
  cache = update_abs-IsCache self.interface code v self.cache d.cache;
  recovery = d.recovery;
}

update_all-IsDecoder :
    (kind : InterfaceKind) (self : Decoder) (abs : List (ℕ × ℤ))
    → IsDecoder kind self
    → IsDecoder kind (update_all self abs)
update_all-IsDecoder kind self [] d = d
update_all-IsDecoder kind self (a ∷ abs) d =
    update_all-IsDecoder kind (update self a.0 a.1) abs (update-IsDecoder kind self a.0 a.1 d)

with_recovery-IsDecoder :
    (kind : InterfaceKind) (self : Decoder) (recovery : RecoveryState)
    → IsDecoder kind self
    → IsRecovery recovery
    → IsDecoder kind (record self { recovery = recovery })
with_recovery-IsDecoder kind self recovery d r = record {
  kept = d.kept;
  cache = d.cache;
  recovery = r;
}

report-IsDecoder :
    (kind : InterfaceKind) (self : Decoder) (time : TimeVal)
    → IsDecoder kind self
    → IsDecoder kind (report self time).0
unfolding report
report-IsDecoder kind self time d = record { kept = d.kept; cache = d.cache; recovery = d.recovery }

-- What holds of each way that `push` goes holds of it.
pub push-cases {ℓ} :
    (P : Decoder × Option Event → Type ℓ) (self : Decoder) (input : InputEvent)
    → P (self, none)
    → P (record self { recovery = dropped self.recovery }, none)
    → ((input.event_type == ev_key) ≡ true
        → P (
          record self { recovery = remember self.recovery input },
          decode_key (record self { recovery = remember self.recovery input }) input,
        ))
    → P (update self input.code input.value, none)
    → P (report self input.time)
    → P (push self input)
unfolding push
push-cases P self input same lost key abs sync = if_both P _ _ _ same (
    if_both P _ _ _ lost
      (if_cases P _ _ _ key (λ _. if_both P _ _ _ abs (if_both P _ _ _ sync same))))

push-IsDecoder :
    (kind : InterfaceKind) (self : Decoder) (input : InputEvent)
    → IsDecoder kind self
    → IsDecoder kind (push self input).0
push-IsDecoder kind self input d =
    push-cases (λ r. IsDecoder kind r.0) self input d
      (with_recovery-IsDecoder kind self (dropped self.recovery) d
        (dropped-IsRecovery self.recovery d.recovery))
      (λ _.
        with_recovery-IsDecoder kind self (remember self.recovery input) d
          (remember-IsRecovery self.recovery input d.recovery))
      (update-IsDecoder kind self input.code input.value d)
      (report-IsDecoder kind self input.time d)

push_recovered-IsDecoder :
    (kind : InterfaceKind) (self : Decoder)
    → IsDecoder kind self
    → IsDecoder kind (push_recovered self).0
unfolding push_recovered
push_recovered-IsDecoder kind self d =
    by_key (next_key self.recovery).0 (next_key self.recovery).1
      (next_key-IsRecovery self.recovery d.recovery)
  where
    by_report :
        (n : RecoveryState) (o : Option InputEvent)
        → IsRecovery n
        → IsDecoder kind (recovered_report self (n, o)).0
    by_report n none r = with_recovery-IsDecoder kind self n d r
    by_report n (some input) r =
        report-IsDecoder kind (record self { recovery = n }) input.time
          (with_recovery-IsDecoder kind self n d r)

    by_key :
        (n : RecoveryState) (o : Option InputEvent)
        → IsRecovery n
        → IsDecoder kind (recovered_key self (n, o)).0
    by_key n (some input) r = with_recovery-IsDecoder kind self n d r
    by_key n none r = by_report (take_report n).0 (take_report n).1 (take_report-IsRecovery n r)

pub call-IsDecoder :
    (kind : InterfaceKind) (self : Decoder) (c : Call)
    → IsCall c
    → IsDecoder kind self
    → IsDecoder kind (call self c).0
unfolding call seed_state recover wiiland.Hid.Decoder.set_mp_normalization
call-IsDecoder kind self (pushed input) g d = push-IsDecoder kind self input d
call-IsDecoder kind self (seeded keys abs) g d =
    with_recovery-IsDecoder kind (update_all self abs) _ (update_all-IsDecoder kind self abs d)
      (initialize-IsRecovery (update_all self abs).recovery keys g)
call-IsDecoder kind self (recovering keys abs time) g d =
    let updated = update_all-IsDecoder kind self abs d in
    with_recovery-IsDecoder kind (update_all self abs) _ updated
      (seed-IsRecovery (update_all self abs).recovery keys time _ updated.recovery g)
call-IsDecoder kind self replayed g d = push_recovered-IsDecoder kind self d
call-IsDecoder kind self (calibrated x y z factor) g d = record {
  kept = d.kept;
  cache = d.cache;
  recovery = d.recovery;
}
