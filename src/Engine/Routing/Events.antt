-- ===== src/Engine/Routing/Events.antt =====
-- The parts of crates/wiiland-core/src/engine.rs that handle keys and motion.
use wiiland.Prelude.{
  ℕ, ◌≡◌, subst₂, Bool, true, false, List, [], ◌∷◌, ◌++◌, map, Option, none, some, if_both,
  if_cases, if◌then◌else◌,
}
use wiiland.Prelude.Lists.{All-append}
use wiiland.Prelude.Mask.{has_bit}
use wiiland.Input.{Button, ButtonState, released, InputSource, code}
use wiiland.Mapping.Motion.{MotionKind, accel, motion_plus, Slots, MappedAxis, map_motion, entries}
use wiiland.Config.Types.{Config, Profile, profile_desktop, contains}
use wiiland.Calibration.{Sample}
use wiiland.Aim.{process_motion_plus, process_accelerometer}
use wiiland.Engine.State.{
  OutputDevice, gamepad, desktop, sync, DeviceEngine, needs_gamepad, needs_desktop, write,
  held_buttons,
}
use wiiland.Aim.Keeps.{process_motion_plus-KeepsConfig, process_accelerometer-KeepsConfig}
use wiiland.Engine.{
  is_repeated, emit_key_transition, key_gamepad, key_mapped, key_desktop, key_pointer, key_event,
  release_all, motion_axes, motion_aim, next_mask, abs_action,
}
use wiiland.Engine.Routing.Outputs.{
  IsEnabled, IsRouted, Routed, IsSound, Answers, by_profile, its_profile, with_aim-Answers,
  key_aim-Answers, key_pointer-Answers,
}

module _ (profile : Profile) (config : Config) where
  transition-Routed :
      (d : OutputDevice) (k : ℕ) (before after : Bool) (state : ButtonState)
      → IsEnabled profile config d
      → Routed profile config (emit_key_transition d k before after state)
  unfolding emit_key_transition
  transition-Routed d k false true state h = (h, tt)
  transition-Routed d k true false state h = (h, tt)
  transition-Routed d k true true state h =
      if_both (Routed profile config) (is_repeated state) _ [] (h, tt) tt
  transition-Routed d k false false state h = tt

  key_gamepad-Routed :
      (self : DeviceEngine) (button : Button) (state : ButtonState) (before after : ℕ)
      → IsSound profile config self
      → Routed profile config (key_gamepad self button state before after)
  unfolding key_gamepad
  key_gamepad-Routed self button state before after s =
      if_cases (Routed profile config) (needs_gamepad self.profile self.config) _ []
        (λ e. transition-Routed gamepad _ _ _ state (moved e)) (λ e. tt)
    where
      moved : needs_gamepad self.profile self.config ≡ true → needs_gamepad profile config ≡ true
      moved e = subst₂ (λ p c. needs_gamepad p c ≡ true) s.same_profile s.same_config e

  key_mapped-Routed :
      (self : DeviceEngine) (mapped : Option ℕ) (state : ButtonState) (before after : ℕ)
      → needs_desktop profile config ≡ true
      → Routed profile config (key_mapped self mapped state before after)
  key_mapped-Routed self none state before after h = tt
  key_mapped-Routed self (some k) state before after h = transition-Routed desktop k _ _ state h

  key_desktop-Routed :
      (self : DeviceEngine) (button : Button) (state : ButtonState) (before after : ℕ)
      → IsSound profile config self
      → Routed profile config (key_desktop self button state before after)
  unfolding key_desktop
  key_desktop-Routed self button state before after s =
      if_cases (Routed profile config) (contains self.profile profile_desktop) _ []
        (λ e.
          key_mapped-Routed self _ state before after
            (by_profile profile config (its_profile profile config self s e)))
        (λ e. tt)

  pub key_event-Answers :
      (self : DeviceEngine) (source : InputSource) (button : Button) (state : ButtonState)
      → IsSound profile config self
      → Answers profile config (key_event self source button state)
  unfolding key_event
  key_event-Answers self source button state s =
      let before = held_buttons self.held in
      let e : DeviceEngine = record self {
        held = write self.held source (next_mask (self.held source) button state);
      } in
      let after = held_buttons e.held in
      let was_held = has_bit before (code button) in
      let is_held = has_bit after (code button) in
      let se : IsSound profile config e = record {
        same_profile = s.same_profile;
        same_config = s.same_config;
        aim_config = s.aim_config;
        idle = s.idle;
      } in
      let moved = key_pointer-Answers profile config e button was_held is_held se in
      let aimed =
        key_aim-Answers profile config (key_pointer e button was_held is_held).0 button was_held
          is_held moved.0 in
      (
        aimed.0,
        All-append (IsRouted profile config) _ _ (key_gamepad-Routed e button state before after se)
            (All-append (IsRouted profile config) _ _
              (key_desktop-Routed e button state before after se)
              (All-append (IsRouted profile config) _ _ moved.1 aimed.1)),
      )

  pub release_all-Answers :
      (self : DeviceEngine) (source : InputSource) (held : ℕ) (buttons : List Button)
      → IsSound profile config self
      → Answers profile config (release_all self source held buttons)
  unfolding release_all
  release_all-Answers self source held [] s = (s, tt)
  release_all-Answers self source held (u ∷ rest) s =
      let r = if has_bit held (code u) then key_event self source u released else (self, []) in
      let now =
        if_both (Answers profile config) (has_bit held (code u)) (key_event self source u released)
          (self, []) (key_event-Answers self source u released s) (s, tt) in
      let later = release_all-Answers r.0 source held rest now.0 in
      (later.0, All-append (IsRouted profile config) _ _ now.1 later.1)

  axes-Routed :
      (axes : List MappedAxis)
      → needs_gamepad profile config ≡ true
      → Routed profile config (map abs_action axes ++ sync gamepad ∷ [])
  axes-Routed [] h = (h, tt)
  axes-Routed (a ∷ rest) h = (h, axes-Routed rest h)

  pub motion_axes-Routed :
      (self : DeviceEngine) (kind : MotionKind) (slots : Slots)
      → IsSound profile config self
      → Routed profile config (motion_axes self kind slots)
  unfolding motion_axes
  motion_axes-Routed self kind slots s =
      if_cases (Routed profile config) (needs_gamepad self.profile self.config) _ []
        (λ e.
          axes-Routed (entries (map_motion kind slots))
            (subst₂ (λ p c. needs_gamepad p c ≡ true) s.same_profile s.same_config e))
        (λ e. tt)

  pub motion_aim-Answers :
      (self : DeviceEngine) (kind : MotionKind) (v : Sample)
      → IsSound profile config self
      → Answers profile config (motion_aim self kind v)
  unfolding motion_aim
  motion_aim-Answers self accel v s =
      with_aim-Answers profile config self (process_accelerometer self.aim v)
        (process_accelerometer-KeepsConfig self.aim v) s
  motion_aim-Answers self motion_plus v s =
      with_aim-Answers profile config self (process_motion_plus self.aim v)
        (process_motion_plus-KeepsConfig self.aim v) s
  motion_aim-Answers self _ v s = (s, tt)
