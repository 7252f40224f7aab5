-- ===== src/Engine/Keys.antt =====
-- The keys that crates/wiiland-core/src/engine.rs writes to the virtual gamepad.
use wiiland.Prelude.{
  ℕ, ◌≡◌, refl, ap, ◌∙◌, Bool, true, false, not, ◌&&◌, ◌||◌, ◌==◌, same, List, [], ◌∷◌, ◌++◌,
  Option, none, some, if◌then◌else◌, if_both,
}
use wiiland.Prelude.Lists.{append-nil}
use wiiland.Prelude.Int.{ℤ, pos, eqb_ℤ}
use wiiland.Prelude.Mask.{has_bit}
use wiiland.Input.{Button, ButtonState, released, pressed, repeated, InputSource, code, value}
use wiiland.Mapping.Codes.{map_button}
use wiiland.Config.Types.{profile_desktop, contains, AimMode, off, mouse, right_stick}
use wiiland.Aim.{activation_key}
use wiiland.Aim.State.{AimVector}
use wiiland.Engine.State.{
  gamepad, desktop, OutputAction, key, abs, rel, sync, DeviceEngine, write, held_buttons,
  desktop_key, needs_gamepad,
}
use wiiland.Engine.{
  Reply, is_repeated, emit_key_transition, emit_pointer, emit_vector, emit_aim, next_mask,
  pointer_bit, key_gamepad, key_mapped, key_desktop, key_pointer, key_aim, key_event,
}

-- Of some actions, those that write a key of the gamepad.
abbrev pub gamepad_keys : List OutputAction → List OutputAction
gamepad_keys [] = []
gamepad_keys (key gamepad number v ∷ rest) = key gamepad number v ∷ gamepad_keys rest
gamepad_keys (key desktop number v ∷ rest) = gamepad_keys rest
gamepad_keys (abs target number v ∷ rest) = gamepad_keys rest
gamepad_keys (rel target number v ∷ rest) = gamepad_keys rest
gamepad_keys (sync target ∷ rest) = gamepad_keys rest

-- What a key of the gamepad does when its button was or is down: 1 presses it, 0 releases it, and
-- 2 repeats it.
abbrev pub edge : ℕ → Bool → Bool → ButtonState → List OutputAction
edge number was_down is_down state =
    if is_down && not was_down
    then key gamepad number 1 ∷ []
    else if was_down && not is_down
    then key gamepad number 0 ∷ []
    else if is_down && is_repeated state
    then key gamepad number 2 ∷ []
    else []

gamepad_keys-append :
    (a b : List OutputAction) → gamepad_keys (a ++ b) ≡ gamepad_keys a ++ gamepad_keys b
gamepad_keys-append [] b = refl
gamepad_keys-append (key gamepad number v ∷ a) b =
    ap (λ l. key gamepad number v ∷ l) (gamepad_keys-append a b)
gamepad_keys-append (key desktop number v ∷ a) b = gamepad_keys-append a b
gamepad_keys-append (abs target number v ∷ a) b = gamepad_keys-append a b
gamepad_keys-append (rel target number v ∷ a) b = gamepad_keys-append a b
gamepad_keys-append (sync target ∷ a) b = gamepad_keys-append a b

emit_key_transition-edge :
    (number : ℕ) (was_down is_down : Bool) (state : ButtonState)
    → gamepad_keys (emit_key_transition gamepad number was_down is_down state)
      ≡ edge number was_down is_down state
unfolding emit_key_transition value
emit_key_transition-edge number false true state = refl
emit_key_transition-edge number true false state = refl
emit_key_transition-edge number true true released = refl
emit_key_transition-edge number true true pressed = refl
emit_key_transition-edge number true true repeated = refl
emit_key_transition-edge number false false state = refl

-- Actions without a key of the gamepad.
abbrev IsOther : List OutputAction → Type 0
IsOther actions = gamepad_keys actions ≡ []

append-IsOther : (a b : List OutputAction) → IsOther a → IsOther b → IsOther (a ++ b)
append-IsOther a b h k = gamepad_keys-append a b ∙ ap (λ l. l ++ gamepad_keys b) h ∙ k

key_mapped-IsOther :
    (self : DeviceEngine) (mapped : Option ℕ) (state : ButtonState) (before after : ℕ)
    → IsOther (key_mapped self mapped state before after)
unfolding emit_key_transition
key_mapped-IsOther self none state before after = refl
key_mapped-IsOther self (some k) state before after = on_desktop _ _
  where
    on_desktop :
        (was_down is_down : Bool) → IsOther (emit_key_transition desktop k was_down is_down state)
    on_desktop false true = refl
    on_desktop true false = refl
    on_desktop true true = if_both IsOther (is_repeated state) _ [] refl refl
    on_desktop false false = refl

emit_pointer-IsOther : (dx dy : ℤ) → IsOther (emit_pointer dx dy)
unfolding emit_pointer
emit_pointer-IsOther dx dy =
    if_both IsOther (not (eqb_ℤ dx (pos 0)) || not (eqb_ℤ dy (pos 0))) (sync desktop ∷ []) [] refl
      refl

emit_aim-IsOther : (mode : AimMode) (v : Option AimVector) → IsOther (emit_aim mode v)
unfolding emit_aim emit_vector
emit_aim-IsOther mode none = refl
emit_aim-IsOther mouse (some v) = emit_pointer-IsOther v.x v.y
emit_aim-IsOther right_stick (some v) = refl
emit_aim-IsOther off (some v) = refl

key_desktop-IsOther :
    (self : DeviceEngine) (button : Button) (state : ButtonState) (before after : ℕ)
    → IsOther (key_desktop self button state before after)
unfolding key_desktop
key_desktop-IsOther self button state before after =
    if_both IsOther (contains self.profile profile_desktop) _ []
      (key_mapped-IsOther self (desktop_key self.config button) state before after) refl

key_pointer-IsOther :
    (self : DeviceEngine) (button : Button) (was_held is_held : Bool)
    → IsOther (key_pointer self button was_held is_held).1
unfolding key_pointer
key_pointer-IsOther self button was_held is_held =
    if_both {A = Reply} (λ r. IsOther r.1)
      (contains self.profile profile_desktop
        && (not (pointer_bit button == 0) && not (same was_held is_held)))
      _ (self, []) (emit_pointer-IsOther _ _) refl

key_aim-IsOther :
    (self : DeviceEngine) (button : Button) (was_held is_held : Bool)
    → IsOther (key_aim self button was_held is_held).1
unfolding key_aim
key_aim-IsOther self button was_held is_held =
    if_both {A = Reply} (λ r. IsOther r.1) (not (same was_held is_held)) _ (self, [])
      (emit_aim-IsOther _ (activation_key self.aim (code button) is_held).1.output) refl

key_gamepad-edge :
    (self : DeviceEngine) (button : Button) (state : ButtonState) (before after : ℕ)
    → gamepad_keys (key_gamepad self button state before after) ≡ (
        if needs_gamepad self.profile self.config
        then edge
            (map_button button)
            (has_bit before (code button))
            (has_bit after (code button))
            state
        else [])
unfolding key_gamepad
key_gamepad-edge self button state before after = by_need (needs_gamepad self.profile self.config)
  where
    by_need :
        (b : Bool)
        → gamepad_keys (
            if b
            then emit_key_transition gamepad
                (map_button button)
                (has_bit before (code button))
                (has_bit after (code button))
                state
            else [])
          ≡ (if b
              then edge
                  (map_button button)
                  (has_bit before (code button))
                  (has_bit after (code button))
                  state
              else [])
    by_need true = emit_key_transition-edge (map_button button) _ _ state
    by_need false = refl

-- Of all that a key event puts out, the keys of the gamepad.
pub key_event-edge :
    (self : DeviceEngine) (source : InputSource) (button : Button) (state : ButtonState)
    → gamepad_keys (key_event self source button state).1 ≡ (
        if needs_gamepad self.profile self.config
        then edge
            (map_button button)
            (has_bit (held_buttons self.held) (code button))
            (has_bit
              (held_buttons (write self.held source (next_mask (self.held source) button state)))
              (code button))
            state
        else [])
unfolding key_event
key_event-edge self source button state =
    let before = held_buttons self.held in
    let e : DeviceEngine = record self {
      held = write self.held source (next_mask (self.held source) button state);
    } in
    let after = held_buttons e.held in
    let was_held = has_bit before (code button) in
    let is_held = has_bit after (code button) in
    let moved = key_pointer e button was_held is_held in
    let other =
      append-IsOther (key_desktop e button state before after) _
        (key_desktop-IsOther e button state before after)
        (append-IsOther moved.1 _ (key_pointer-IsOther e button was_held is_held)
          (key_aim-IsOther moved.0 button was_held is_held)) in
    gamepad_keys-append (key_gamepad e button state before after) _
    ∙ ap (λ l. gamepad_keys (key_gamepad e button state before after) ++ l) other
    ∙ append-nil _
    ∙ key_gamepad-edge e button state before after
