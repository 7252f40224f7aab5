-- ===== src/Engine/Routing/Outputs.antt =====
-- The parts of crates/wiiland-core/src/engine.rs that write to the pointer and the aim's outputs.
use wiiland.Prelude.{
  ◌≡◌, sym, ap, ◌∙◌, arith, Bool, true, false, not, ◌||◌, ◌&&◌, ◌==◌, same, List, [], ◌∷◌, Option,
  none, some, subst, if_both, if_cases, and_parts, if◌then◌else◌,
}
use wiiland.Prelude.Lists.{All}
use wiiland.Prelude.Int.{ℤ, pos, eqb_ℤ}
use wiiland.Input.{Button, code}
use wiiland.Config.Types.{
  Config, Profile, profile_desktop, contains, AimMode, off, mouse, right_stick,
}
use wiiland.Pointer.{PointerState, update_key}
use wiiland.Pointer.Select.{IrFrame}
use wiiland.Aim.State.{AimState, AimVector, AimResult, from_config}
use wiiland.Aim.{activation_key}
use wiiland.Engine.State.{
  OutputDevice, gamepad, desktop, OutputAction, key, abs, rel, sync, DeviceEngine, needs_gamepad,
  needs_desktop,
}
use wiiland.Aim.Keeps.{KeepsConfig, activation_key-KeepsConfig}
use wiiland.Engine.{
  Reply, emit_pointer, emit_vector, emit_aim, with_aim, pointer_bit, key_pointer, key_aim,
  ir_pointer,
}

abbrev device : OutputAction → OutputDevice
device (key d k v) = d
device (abs d k v) = d
device (rel d k v) = d
device (sync d) = d

true≢off : {b : Bool} → b ≡ true → b ≡ false → ⊥
true≢off h k = cc

-- The device exists under this profile and configuration.
abbrev pub IsEnabled : Profile → Config → OutputDevice → Type 0
IsEnabled profile config gamepad = needs_gamepad profile config ≡ true
IsEnabled profile config desktop = needs_desktop profile config ≡ true

abbrev pub IsRouted : Profile → Config → OutputAction → Type 0
IsRouted profile config action = IsEnabled profile config (device action)

abbrev pub Routed : Profile → Config → List OutputAction → Type 0
Routed profile config = All (IsRouted profile config)

-- What the engine keeps: its profile and configuration, the aim's copy of the latter, and no
-- pointer key without a desktop.
pub record IsSound (profile : Profile) (config : Config) (self : DeviceEngine) : Type 0 where
  pub same_profile : self.profile ≡ profile
  pub same_config : self.config ≡ config
  pub aim_config : self.aim.config ≡ from_config config
  pub idle : contains profile profile_desktop ≡ false → self.pointer.pointer_keys ≡ 0

abbrev pub Answers : Profile → Config → Reply → Type 0
Answers profile config r = IsSound profile config r.0 × Routed profile config r.1

module _ (profile : Profile) (config : Config) where
  pub emit_pointer-Routed :
      (dx dy : ℤ) → needs_desktop profile config ≡ true → Routed profile config (emit_pointer dx dy)
  unfolding emit_pointer
  emit_pointer-Routed dx dy h = (h, (h, more))
    where
      more :
          Routed profile config
            (if not (eqb_ℤ dx (pos 0)) || not (eqb_ℤ dy (pos 0)) then sync desktop ∷ [] else [])
      more = if_both (Routed profile config) _ (sync desktop ∷ []) [] (h, tt) tt

  pub by_profile : contains profile profile_desktop ≡ true → needs_desktop profile config ≡ true
  unfolding needs_desktop
  by_profile h = rw h

  emit_aim-Routed :
      (mode : AimMode) (o : Option AimVector)
      → config.aim_mode ≡ mode
      → Routed profile config (emit_aim mode o)
  unfolding emit_aim emit_vector needs_desktop needs_gamepad
  emit_aim-Routed mode none e = tt
  emit_aim-Routed off (some v) e = tt
  emit_aim-Routed mouse (some v) e = emit_pointer-Routed v.x v.y (ground arith)
  emit_aim-Routed right_stick (some v) e =
      let on : needs_gamepad profile config ≡ true = ground arith in (on, (on, (on, tt)))

  pub with_aim-Answers :
      (self : DeviceEngine) (r : AimState × AimResult)
      → KeepsConfig self.aim r
      → IsSound profile config self
      → Answers profile config (with_aim self r)
  unfolding from_config
  with_aim-Answers self r k s = (
    record {
      same_profile = s.same_profile;
      same_config = s.same_config;
      aim_config = k ∙ s.aim_config;
      idle = s.idle;
    },
    emit_aim-Routed r.0.config.output r.1.output (sym (ap (λ c. c.output) (k ∙ s.aim_config))),
  )

  pub key_aim-Answers :
      (self : DeviceEngine) (button : Button) (was_held is_held : Bool)
      → IsSound profile config self
      → Answers profile config (key_aim self button was_held is_held)
  unfolding key_aim
  key_aim-Answers self button was_held is_held s =
      if_both (Answers profile config) (not (same was_held is_held))
        (with_aim self (activation_key self.aim (code button) is_held)) (self, [])
        (with_aim-Answers self (activation_key self.aim (code button) is_held)
          (activation_key-KeepsConfig self.aim (code button) is_held) s)
        (s, tt)

  -- A handler that moves the pointer runs only under a desktop profile.
  pointer-Answers :
      (self : DeviceEngine) (pointer : PointerState) (dx dy : ℤ)
      → contains profile profile_desktop ≡ true
      → IsSound profile config self
      → Answers profile config (record self { pointer = pointer }, emit_pointer dx dy)
  pointer-Answers self pointer dx dy on s = (
    record {
      same_profile = s.same_profile;
      same_config = s.same_config;
      aim_config = s.aim_config;
      idle = λ off. absurd (true≢off on off);
    },
    emit_pointer-Routed dx dy (by_profile on),
  )

  pub its_profile :
      (self : DeviceEngine)
      → IsSound profile config self
      → contains self.profile profile_desktop ≡ true
      → contains profile profile_desktop ≡ true
  its_profile self s e = subst (λ p. contains p profile_desktop ≡ true) s.same_profile e

  pub key_pointer-Answers :
      (self : DeviceEngine) (button : Button) (was_held is_held : Bool)
      → IsSound profile config self
      → Answers profile config (key_pointer self button was_held is_held)
  unfolding key_pointer
  key_pointer-Answers self button was_held is_held s =
      let bit = pointer_bit button in
      let on = not (bit == 0) && not (same was_held is_held) in
      let r = update_key self.pointer bit is_held in
      if_cases (Answers profile config) (contains self.profile profile_desktop && on)
        (record self { pointer = r.0 }, emit_pointer r.1.dx r.1.dy) (self, [])
        (λ e.
          pointer-Answers self r.0 r.1.dx r.1.dy
            (its_profile self s (and_parts (contains self.profile profile_desktop) on e).0) s)
        (λ e. (s, tt))

  pub ir_pointer-Answers :
      (self : DeviceEngine) (frame : IrFrame)
      → IsSound profile config self
      → Answers profile config (ir_pointer self frame)
  unfolding ir_pointer
  ir_pointer-Answers self frame s =
      if_cases (Answers profile config) _ _ (self, [])
        (λ e. pointer-Answers self _ _ _ (its_profile self s e) s) (λ e. (s, tt))
