-- ===== src/Engine/Presses.antt =====
-- Which buttons are held, kept by crates/wiiland-core/src/engine.rs through any run of inputs.
use wiiland.Prelude.{
  ℕ, ◌≡◌, refl, ap, ◌∙◌, arith, Bool, true, false, not, ◌&&◌, ◌==◌, List, [], ◌∷◌, if◌then◌else◌,
  if_cases, if_both,
}
use wiiland.Prelude.Lists.{any}
use wiiland.Prelude.Mask.{has_bit, has_bit-zero}
use wiiland.Input.{Button, left, ButtonState, released, InputSource, index, code, all}
use wiiland.Pointer.{update_key, update_ir_frame}
use wiiland.Mapping.Motion.{MotionKind, accel, motion_plus}
use wiiland.Calibration.{Sample}
use wiiland.Config.Types.{Config, Profile}
use wiiland.Mapping.Codes.{map_button}
use wiiland.Engine.State.{
  Held, write, DeviceEngine, EngineInput, key_input, motion, ir, pointer_tick, source_removed,
  reset, pointer_active, new, needs_gamepad,
}
use wiiland.Engine.{
  Reply, next_mask, key_pointer, key_aim, key_event, release_all, process, motion_aim, ir_pointer,
}
use wiiland.Engine.Keys.{gamepad_keys, edge, key_event-edge}
use wiiland.Engine.Routing.{process-Answers, new-IsSound}
use wiiland.Engine.Routing.Outputs.{IsSound}
use wiiland.Engine.Held.{
  has_bit-held_buttons, anywhere, Pressed, Tells, press, write-Tells, same_source,
}

key_pointer-held :
    (self : DeviceEngine) (button : Button) (was_held is_held : Bool)
    → (key_pointer self button was_held is_held).0.held ≡ self.held
unfolding key_pointer
key_pointer-held self button was_held is_held = ground arith

key_aim-held :
    (self : DeviceEngine) (button : Button) (was_held is_held : Bool)
    → (key_aim self button was_held is_held).0.held ≡ self.held
unfolding key_aim
key_aim-held self button was_held is_held = ground arith

key_event-held :
    (self : DeviceEngine) (source : InputSource) (button : Button) (state : ButtonState)
    → (key_event self source button state).0.held
      ≡ write self.held source (next_mask (self.held source) button state)
unfolding key_event
key_event-held self source button state = key_aim-held _ button _ _ ∙ key_pointer-held _ button _ _

ir_pointer-held :
    (self : DeviceEngine) (frame : wiiland.Pointer.Select.IrFrame)
    → (ir_pointer self frame).0.held ≡ self.held
unfolding ir_pointer
ir_pointer-held self frame = ground arith

motion_aim-held :
    (self : DeviceEngine) (kind : MotionKind) (v : Sample)
    → (motion_aim self kind v).0.held ≡ self.held
unfolding motion_aim
motion_aim-held self accel v = refl
motion_aim-held self motion_plus v = refl
motion_aim-held self _ v = refl

key_event-Tells :
    (self : DeviceEngine) (p : Pressed) (source : InputSource) (button : Button)
    (state : ButtonState)
    → Tells self.held p
    → Tells (key_event self source button state).0.held (press p source button state)
key_event-Tells self p source button state t s u =
    ap (λ h. has_bit (h s) (code u)) (key_event-held self source button state)
    ∙ write-Tells self.held p source button state t s u

-- What remains of `p` once the buttons of `us` that `mask` has are released on the source.
abbrev without : Pressed → InputSource → ℕ → List Button → Pressed
without p source mask us s v =
    if index source == index s
    then p s v && not (has_bit mask (code v) && any (λ u. code u == code v) us)
    else p s v

without-press :
    (p : Pressed) (source : InputSource) (mask : ℕ) (u : Button) (rest : List Button)
    (s : InputSource) (v : Button)
    → has_bit mask (code u) ≡ true
    → without (press p source u released) source mask rest s v
      ≡ without p source mask (u ∷ rest) s v
unfolding press
without-press p source mask u rest s v h = ground arith

without-skip :
    (p : Pressed) (source : InputSource) (mask : ℕ) (u : Button) (rest : List Button)
    (s : InputSource) (v : Button)
    → has_bit mask (code u) ≡ false
    → without p source mask rest s v ≡ without p source mask (u ∷ rest) s v
without-skip p source mask u rest s v h = ground arith

release_all-Tells :
    (self : DeviceEngine) (p : Pressed) (source : InputSource) (mask : ℕ) (us : List Button)
    → Tells self.held p
    → Tells (release_all self source mask us).0.held (without p source mask us)
unfolding release_all
release_all-Tells self p source mask [] t s v = t s v ∙ ground arith
release_all-Tells self p source mask (u ∷ rest) t s v =
    if_cases
      (λ r.
        has_bit ((release_all r.0 source mask rest).0.held s) (code v)
        ≡ without p source mask (u ∷ rest) s v)
      (has_bit mask (code u)) (key_event self source u released) (self, [])
      (λ e.
        release_all-Tells (key_event self source u released).0 (press p source u released) source
          mask rest (key_event-Tells self p source u released t) s v
        ∙ without-press p source mask u rest s v e)
      (λ e.
        release_all-Tells self p source mask rest t s v ∙ without-skip p source mask u rest s v e)

every_button : (v : Button) → any (λ u. code u == code v) all ≡ true
unfolding code
every_button left = refl
every_button _ = refl

without-known :
    (p : Pressed) (source : InputSource) (mask : ℕ) (s : InputSource) (v : Button)
    → any (λ u. code u == code v) all ≡ true
    → has_bit mask (code v) ≡ p source v
    → ((index source == index s) ≡ true → p source v ≡ p s v)
    → without p source mask all s v ≡ (if index source == index s then false else p s v)
without-known p source mask s v e t k = ground arith

without-all :
    (held : Held) (p : Pressed) (source s : InputSource) (v : Button)
    → Tells held p
    → without p source (held source) all s v ≡ (if index source == index s then false else p s v)
without-all held p source s v t =
    without-known p source (held source) s v (every_button v) (t source v)
      (λ e. ap (λ x. p x v) (same_source source s e))

-- The buttons that are held, as the inputs tell it: a key input moves one button of one source,
-- a removed source holds nothing, and a reset clears all.
pub heard : Pressed → EngineInput → Pressed
heard p (key_input source button state) = press p source button state
heard p (source_removed source) = λ s u. if index source == index s then false else p s u
heard p reset = λ s u. false
heard p (motion kind s) = p
heard p (ir frame) = p
heard p pointer_tick = p

process-Tells :
    (self : DeviceEngine) (p : Pressed) (input : EngineInput)
    → Tells self.held p
    → Tells (process self input).0.held (heard p input)
unfolding process heard
process-Tells self p (key_input source button state) t =
    λ s u. key_event-Tells self p source button state t s u
process-Tells self p (source_removed source) t = λ s u.
    release_all-Tells self p source (self.held source) all t s u
    ∙ without-all self.held p source s u t
process-Tells self p reset t = λ s u. has_bit-zero (code u)
process-Tells self p (motion kind slots) t =
    λ s u. ap (λ h. has_bit (h s) (code u)) (motion_aim-held self kind _) ∙ t s u
process-Tells self p (ir frame) t =
    λ s u. ap (λ h. has_bit (h s) (code u)) (ir_pointer-held self frame) ∙ t s u
process-Tells self p pointer_tick t = λ s u.
    if_both {A = Reply} (λ r. has_bit (r.0.held s) (code u) ≡ p s u) (pointer_active self) _
      (self, []) (t s u) (t s u)

new-Tells : (config : Config) (profile : Profile) → Tells (new config profile).held (λ s u. false)
unfolding new
new-Tells config profile = λ s u. has_bit-zero (code u)

-- The engine and the presses after a run of inputs.
pub run : DeviceEngine → List EngineInput → DeviceEngine
run self [] = self
run self (input ∷ rest) = run (process self input).0 rest

pub all_heard : Pressed → List EngineInput → Pressed
all_heard p [] = p
all_heard p (input ∷ rest) = all_heard (heard p input) rest

run-Tells :
    (self : DeviceEngine) (p : Pressed) (inputs : List EngineInput)
    → Tells self.held p
    → Tells (run self inputs).held (all_heard p inputs)
unfolding run all_heard
run-Tells self p [] t = t
run-Tells self p (input ∷ rest) t =
    run-Tells (process self input).0 (heard p input) rest (process-Tells self p input t)

module _ (profile : Profile) (config : Config) where
  run-IsSound :
      (self : DeviceEngine) (inputs : List EngineInput)
      → IsSound profile config self
      → IsSound profile config (run self inputs)
  unfolding run
  run-IsSound self [] s = s
  run-IsSound self (input ∷ rest) s =
      run-IsSound (process self input).0 rest (process-Answers profile config self input s).0

edge_cong :
    (button : Button) (state : ButtonState) {d e a b x y : Bool}
    → d ≡ e
    → a ≡ x
    → b ≡ y
    → (if d then edge (map_button button) a b state else [])
      ≡ (if e then edge (map_button button) x y state else [])
edge_cong button state h k l = cc

-- After any run of inputs of a new engine, the keys of the gamepad among all that a key input puts
-- out are what the buttons held on all sources say: with a gamepad in use, its key is pressed when
-- the first source presses the button, released when the last one lets go of it, repeated when it
-- repeats while it is held, and no key is written otherwise.
pub gamepad_key-anywhere :
    (config : Config) (profile : Profile) (inputs : List EngineInput) (source : InputSource)
    (button : Button) (state : ButtonState)
    → gamepad_keys (process (run (new config profile) inputs) (key_input source button state)).1 ≡ (
        if needs_gamepad profile config
        then edge
            (map_button button)
            (anywhere (all_heard (λ s u. false) inputs) button)
            (anywhere
              (heard (all_heard (λ s u. false) inputs) (key_input source button state))
              button)
            state
        else [])
unfolding process heard
gamepad_key-anywhere config profile inputs source button state =
    let t = run-Tells (new config profile) (λ s u. false) inputs (new-Tells config profile) in
    let self = run (new config profile) inputs in
    let p = all_heard (λ s u. false) inputs in
    let sound =
      run-IsSound profile config (new config profile) inputs (new-IsSound profile config) in
    key_event-edge self source button state
    ∙ edge_cong button state
        (ap (λ q. needs_gamepad q self.config) sound.same_profile
          ∙ ap (needs_gamepad profile) sound.same_config)
        (has_bit-held_buttons self.held p button t)
        (has_bit-held_buttons _ _ button (write-Tells self.held p source button state t))
