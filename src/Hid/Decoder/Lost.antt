-- ===== src/Hid/Decoder/Lost.antt =====
-- The keys that a decoder of crates/wiiland-hid/src/decode.rs remembers, and what it does while the
-- kernel's reports are lost.
use wiiland.Prelude.{
  ℕ, ◌+◌, ◌*◌, ◌/◌, ◌%◌, ◌<◌, ◌≡◌, refl, ◌∙◌, arith, Bool, true, false, not, ◌&&◌, ◌||◌, ◌==◌, leb,
  List, [], ◌∷◌, none, if◌then◌else◌, if_cases, Bool-cases, inl, inr,
}
use wiiland.Prelude.Int.{ℤ, pos, eqb_ℤ, leb_ℤ}
use wiiland.Prelude.Lists.{length}
use wiiland.Hid.Codes.{ev_syn, ev_key, syn_dropped}
use wiiland.Hid.Model.{TimeVal, InputEvent}
use wiiland.Hid.Recovery.{RecoveryState, dropped, seed, remember}
use wiiland.Hid.Recovery.Bits.{holds, holds-clear_bit, holds-set_bit}
use wiiland.Hid.Recovery.Keeps.{IsRecovery}
use wiiland.Hid.Decoder.Keeps.{push-cases}
use wiiland.Hid.Decoder.{Decoder, report, update, update_all, push, push_all, recover}

push-desynced :
    (self : Decoder) (input : InputEvent)
    → self.recovery.desynced ≡ true
    → push self input ≡ (self, none)
unfolding push
push-desynced self input h = rw (h, if◌then◌else◌) refl

push-dropped :
    (self : Decoder) (input : InputEvent)
    → self.recovery.desynced ≡ false
    → input.event_type ≡ ev_syn
    → input.code ≡ syn_dropped
    → push self input ≡ (record self { recovery = dropped self.recovery }, none)
unfolding push
push-dropped self input h e f = rw (h, if◌then◌else◌) (rw e (rw f refl))

push_all-desynced :
    (self : Decoder) (inputs : List InputEvent)
    → self.recovery.desynced ≡ true
    → push_all self inputs ≡ (self, [])
unfolding push_all
push_all-desynced self [] h = refl
push_all-desynced self (input ∷ inputs) h =
    rw (push-desynced self input h) (rw (push_all-desynced self inputs h) refl)

update_all-recovery :
    (self : Decoder) (recovery : RecoveryState) (abs : List (ℕ × ℤ))
    → update_all (record self { recovery = recovery }) abs
      ≡ record (update_all self abs) { recovery = recovery }
update_all-recovery self recovery [] = refl
update_all-recovery self recovery (a ∷ abs) = update_all-recovery (update self a.0 a.1) recovery abs

update_all_recovery_kept :
    (self : Decoder) (abs : List (ℕ × ℤ)) → (update_all self abs).recovery ≡ self.recovery
update_all_recovery_kept self [] = refl
update_all_recovery_kept self (a ∷ abs) = update_all_recovery_kept (update self a.0 a.1) abs

recover-dropped :
    (self : Decoder) (keys : List ℕ) (abs : List (ℕ × ℤ)) (time : TimeVal)
    → recover (record self { recovery = dropped self.recovery }) keys abs time
      ≡ recover self keys abs time
unfolding recover seed dropped
recover-dropped self keys abs time =
    rw (update_all-recovery self (dropped self.recovery) abs)
      (rw (update_all_recovery_kept self abs) refl)

-- After the kernel says that reports were dropped, the decoder gives no report whatever else comes,
-- and recovering from then on gives the same decoder as recovering at once.
pub recover-push_all :
    (self : Decoder) (lost : InputEvent) (inputs : List InputEvent) (keys : List ℕ)
    (abs : List (ℕ × ℤ)) (time : TimeVal)
    → lost.event_type ≡ ev_syn
    → lost.code ≡ syn_dropped
    → ((push_all self (lost ∷ inputs)).1 ≡ [])
      × (recover (push_all self (lost ∷ inputs)).0 keys abs time ≡ recover self keys abs time)
unfolding push_all dropped
recover-push_all self lost inputs keys abs time e f = elim (Bool-cases self.recovery.desynced) [
  | inl h ↦ rw (push-desynced self lost h) (rw (push_all-desynced self inputs h) (refl, refl))
  | inr h ↦
      let after =
        push_all-desynced (record self { recovery = dropped self.recovery }) inputs refl in
      rw (push-dropped self lost h e f) (rw after (refl, recover-dropped self keys abs time))
]

-- Whether an input changes a key: a press, a release or a repetition of a key in range.
pub changes_key : InputEvent → Bool
changes_key input =
    (input.event_type == ev_key)
    && (not (leb 768 input.code) && (leb_ℤ (pos 0) input.value && leb_ℤ input.value (pos 2)))

-- The test with which `remember` leaves the state alone.
abbrev ignores : InputEvent → Bool
ignores input =
    not (input.event_type == ev_key)
    || (leb 768 input.code || not (leb_ℤ (pos 0) input.value && leb_ℤ input.value (pos 2)))

changes_key-ignores : (input : InputEvent) → changes_key input ≡ not (ignores input)
unfolding changes_key
changes_key-ignores input =
    de_morgan (input.event_type == ev_key) (leb 768 input.code)
      (leb_ℤ (pos 0) input.value && leb_ℤ input.value (pos 2))
  where
    de_morgan : (a b c : Bool) → a && (not b && c) ≡ not (not a || (b || not c))
    de_morgan false b c = refl
    de_morgan true true c = refl
    de_morgan true false true = refl
    de_morgan true false false = refl

in_range : (input : InputEvent) → ignores input ≡ false → input.code < 768
in_range input h = out (not (input.event_type == ev_key)) (leb 768 input.code) _ h (ground arith)
  where
    out : (a b c : Bool) → a || (b || c) ≡ false → (b ≡ false → input.code < 768) → input.code < 768
    out false false c e k = k refl
    out false true c e k = absurd cc
    out true b c e k = absurd cc

same_code : (a b : ℕ) → (b == a / 64 * 64 + a % 64) ≡ (a == b)
same_code a b = let whole : a / 64 * 64 + a % 64 ≡ a = omega arith in rw whole (ground arith)

cleared : (a b : Bool) → a && not b ≡ (if b then false else a)
cleared true true = refl
cleared true false = refl
cleared false true = refl
cleared false false = refl

added : (a b : Bool) → a || b ≡ (if b then true else a)
added true true = refl
added true false = refl
added false true = refl
added false false = refl

remember-holds :
    (self : RecoveryState) (input : InputEvent) (code : ℕ)
    → IsRecovery self
    → holds (remember self input).key_state code ≡ (
        if changes_key input && (input.code == code)
        then not (eqb_ℤ input.value (pos 0))
        else holds self.key_state code)
unfolding remember
remember-holds self input code r = rw (changes_key-ignores input) (
    if_cases
      (λ (s : RecoveryState). holds s.key_state code ≡ (
        if not (ignores input) && (input.code == code)
        then not (eqb_ℤ input.value (pos 0))
        else holds self.key_state code))
      (ignores input) self _ (λ e. rw e refl)
      (λ e. rw e (
        if_cases
          (λ (s : RecoveryState). holds s.key_state code ≡ (
            if input.code == code
            then not (eqb_ℤ input.value (pos 0))
            else holds self.key_state code))
          (eqb_ℤ input.value (pos 0)) _ _
          (λ z. rw z (
            holds-clear_bit self.key_state (input.code / 64) (input.code % 64) code (place e)
              (omega arith)
            ∙ rw (same_code input.code code)
                (cleared (holds self.key_state code) (input.code == code))))
          (λ z. rw z (
            holds-set_bit self.key_state (input.code / 64) (input.code % 64) code (place e)
              (omega arith)
            ∙ rw (same_code input.code code)
                (added (holds self.key_state code) (input.code == code)))))))
  where
    place : ignores input ≡ false → input.code / 64 < length self.key_state
    place e = omega (arith, in_range input e, r.0.0)

push-key :
    (self : Decoder) (input : InputEvent)
    → self.recovery.desynced ≡ false
    → input.event_type ≡ ev_key
    → (push self input).0.recovery ≡ remember self.recovery input
unfolding push
push-key self input h e = rw (h, if◌then◌else◌) (rw e refl)

push-other :
    (self : Decoder) (input : InputEvent)
    → (input.event_type == ev_key) ≡ false
    → (push self input).0.recovery.key_state ≡ self.recovery.key_state
unfolding report dropped
push-other self input e =
    push-cases (λ r. r.0.recovery.key_state ≡ self.recovery.key_state) self input refl refl
      (λ f. absurd (ground arith)) refl refl

-- A decoder that has lost no report remembers of each key whether its last change was a press: an
-- input moves the state of its own key and of no other, and only when it is a press, a repetition
-- or a release of a key below 768.
pub push-holds :
    (self : Decoder) (input : InputEvent) (code : ℕ)
    → IsRecovery self.recovery
    → self.recovery.desynced ≡ false
    → holds (push self input).0.recovery.key_state code ≡ (
        if changes_key input && (input.code == code)
        then not (eqb_ℤ input.value (pos 0))
        else holds self.recovery.key_state code)
unfolding changes_key
push-holds self input code r h = elim (Bool-cases (input.event_type == ev_key)) [
  | inl e ↦ rw (push-key self input h (ground arith)) (remember-holds self.recovery input code r)
  | inr e ↦ rw (push-other self input e) (rw (e, if◌then◌else◌) refl)
]
