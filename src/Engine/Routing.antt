-- ===== src/Engine/Routing.antt =====
-- Which virtual devices the engine of crates/wiiland-core/src/engine.rs writes to.
pub mod Outputs
pub mod Events
use wiiland.Prelude.{
  ℕ, ◌≡◌, refl, arith, Bool, true, false, not, ◌==◌, List, [], ◌∷◌, ◌++◌, if_cases, Bool-cases, inl,
  inr, if◌then◌else◌,
}
use wiiland.Prelude.Lists.{All, All-append}
use wiiland.Config.Types.{Config, Profile, profile_desktop, contains}
use wiiland.Input.{all}
use wiiland.Mapping.Motion.{MotionKind, Slots}
use wiiland.Pointer.Select.{IrFrame}
use wiiland.Pointer.{tick, select_ir}
use wiiland.Pointer
use wiiland.Aim.State.{from_config}
use wiiland.Aim.State
use wiiland.Aim.{process_ir}
use wiiland.Aim.Keeps.{process_ir-KeepsConfig}
use wiiland.Engine.State.{
  OutputAction, EngineInput, key_input, motion, ir, pointer_tick, source_removed, reset,
  DeviceEngine, new, pointer_active, needs_desktop,
}
use wiiland.Engine.{process, with_aim, ir_pointer, emit_pointer, sample_of}
use Outputs.{
  IsRouted, Routed, IsSound, Answers, by_profile, emit_pointer-Routed, with_aim-Answers,
  ir_pointer-Answers,
}
use Events.{key_event-Answers, release_all-Answers, motion_axes-Routed, motion_aim-Answers}

-- What a history puts out, oldest first.
unfoldable pub run : DeviceEngine → List EngineInput → List OutputAction
run self [] = []
run self (input ∷ rest) = let r = process self input in r.1 ++ run r.0 rest

module _ (profile : Profile) (config : Config) where
  active-desktop :
      (self : DeviceEngine)
      → IsSound profile config self
      → pointer_active self ≡ true
      → needs_desktop profile config ≡ true
  unfolding pointer_active
  active-desktop self s e = elim (Bool-cases (contains profile profile_desktop)) [
    | inl on ↦ by_profile profile config on
    | inr out ↦ let none_down = s.idle out in ground arith
  ]

  pub process-Answers :
      (self : DeviceEngine) (input : EngineInput)
      → IsSound profile config self
      → Answers profile config (process self input)
  unfolding process State.reset_session State.reset Pointer.reset
  process-Answers self reset s = (
    record {
      same_profile = s.same_profile;
      same_config = s.same_config;
      aim_config = s.aim_config;
      idle = λ e. refl;
    },
    tt,
  )
  process-Answers self pointer_tick s =
      let v = tick self.pointer in
      if_cases (Answers profile config) (pointer_active self) (self, emit_pointer v.dx v.dy)
        (self, [])
        (λ e. (s, emit_pointer-Routed profile config v.dx v.dy (active-desktop self s e)))
        (λ e. (s, tt))
  process-Answers self (key_input source button state) s =
      key_event-Answers profile config self source button state s
  process-Answers self (source_removed source) s =
      release_all-Answers profile config self source (self.held source) all s
  process-Answers self (motion kind slots) s =
      let aimed = motion_aim-Answers profile config self kind (sample_of slots.slot0) s in
      (
        aimed.0,
        All-append (IsRouted profile config) _ _
            (motion_axes-Routed profile config self kind slots s) aimed.1,
      )
  process-Answers self (ir frame) s =
      let moved = ir_pointer-Answers profile config self frame s in
      let e = (ir_pointer self frame).0 in
      let point = select_ir self.pointer frame in
      let aimed =
        with_aim-Answers profile config e (process_ir e.aim point)
          (process_ir-KeepsConfig e.aim point) moved.0 in
      (aimed.0, All-append (IsRouted profile config) _ _ moved.1 aimed.1)

  run-Routed :
      (self : DeviceEngine) (inputs : List EngineInput)
      → IsSound profile config self
      → Routed profile config (run self inputs)
  unfolding run
  run-Routed self [] s = tt
  run-Routed self (input ∷ rest) s =
      let r = process-Answers self input s in
      All-append (IsRouted profile config) _ _ r.1 (run-Routed (process self input).0 rest r.0)

pub new-IsSound :
    (profile : Profile) (config : Config) → IsSound profile config (new config profile)
unfolding new State.new Pointer.new
new-IsSound profile config = record {
  same_profile = refl;
  same_config = refl;
  aim_config = refl;
  idle = λ e. refl;
}

-- In every history of a new engine, an action goes to the virtual gamepad only if the profile has a
-- gamepad or the aim drives a right stick, and to the virtual desktop only if the profile has a
-- desktop or the aim drives a mouse.
pub new-Routed :
    (config : Config) (profile : Profile) (inputs : List EngineInput)
    → Routed profile config (run (new config profile) inputs)
new-Routed config profile inputs =
    run-Routed profile config (new config profile) inputs (new-IsSound profile config)
