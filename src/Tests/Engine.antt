-- ===== src/Tests/Engine.antt =====
-- Concrete runs of crates/wiiland-core/src/engine.rs and aim.rs.
use wiiland.Prelude.{
  ◌≡◌, refl, ◌<◌, arith, true, false, List, [], ◌∷◌, none, some, leb, if◌then◌else◌,
}
use wiiland.Prelude.Int.{pos, negsuc}
use wiiland.Prelude.Lists.{All}
use wiiland.Input.{Button, pressed, released, core, classic_controller}
use wiiland.Mapping.Codes.{map_button}
use wiiland.Config.Types.{
  Config, default, profile_gamepad, profile_desktop, AimSource, auto, ir, motion_plus,
  accelerometer, AimMode,
}
use wiiland.Config.Validate.{validate, in_ranges, good_rules}
use wiiland.Config.Types
use wiiland.Calibration.{Sample}
use wiiland.Aim.State.{
  AimState, AimResult, from_config, no_result, is_active, source_eq, zero_vector,
}
use wiiland.Aim.State
use wiiland.Aim.{accepts, process_motion_plus, process_accelerometer}
use wiiland.Aim.Bounds.{OutputFits}
use wiiland.Aim.Runs.{
  AimEvent, key, ir_frame, accelerometer_sample, session_resets, step, outputs, IsStill,
  validated_outputs_fit, step-IsStill,
}
use wiiland.Aim.Sources.{rank, active_rank, accepts-rank, outranked_unchanged}
use wiiland.Engine.State.{EngineInput, key_input, pointer_tick, source_removed, new, needs_gamepad}
use wiiland.Engine.{process}
use wiiland.Engine.Keys.{gamepad_keys, edge}
use wiiland.Engine.Held.{anywhere}
use wiiland.Engine.Presses.{run, all_heard, heard, gamepad_key-anywhere}
use wiiland.Engine.Routing
use wiiland.Engine.Routing.{new-Routed}
use wiiland.Engine.Routing.Outputs.{Routed}

abbrev inputs : List EngineInput
inputs =
    key_input core Button.a pressed
    ∷ key_input classic_controller Button.a pressed
    ∷ pointer_tick
    ∷ source_removed core
    ∷ []

gamepad_key-anywhere_example :
    gamepad_keys
      (process
        (run (new default profile_gamepad) inputs)
        (key_input classic_controller Button.a released)).1
    ≡ (if needs_gamepad profile_gamepad default
        then edge
            (map_button Button.a)
            (anywhere (all_heard (λ s u. false) inputs) Button.a)
            (anywhere
              (heard
                (all_heard (λ s u. false) inputs)
                (key_input classic_controller Button.a released))
              Button.a)
            released
        else [])
gamepad_key-anywhere_example =
    gamepad_key-anywhere default profile_gamepad inputs classic_controller Button.a released

new-Routed_example :
    Routed profile_desktop default
      (Routing.run (new default profile_desktop) (key_input core Button.left pressed ∷ inputs))
new-Routed_example =
    new-Routed default profile_desktop (key_input core Button.left pressed ∷ inputs)

abbrev sample : Sample
sample = record { x = pos 100; y = negsuc 511; z = pos 4000 }

abbrev tilt : Config
tilt = record default { aim_mode = AimMode.right_stick }

abbrev events : List AimEvent
events = key 9 true ∷ accelerometer_sample sample ∷ ir_frame none ∷ session_resets ∷ []

tilt-valid : validate tilt ≡ true
unfolding validate default in_ranges good_rules Types.is_valid Types.complete
tilt-valid = refl

validated_outputs_fit_example : All OutputFits (outputs (State.new (from_config tilt)) events)
validated_outputs_fit_example =
    validated_outputs_fit tilt events tilt-valid
      (tt, ((omega arith, omega arith, omega arith), (tt, (tt, tt))))

new_inactive : is_active (State.new (from_config tilt)) ≡ false
unfolding is_active State.new from_config default State.enabled
new_inactive = refl

step-IsStill_example :
    IsStill (step (State.new (from_config tilt)) (accelerometer_sample sample)).1.output
step-IsStill_example =
    step-IsStill (State.new (from_config tilt)) (accelerometer_sample sample) new_inactive

abbrev tracking : AimState
tracking = record (State.new (from_config tilt)) { active_source = some ir }

accepts-rank_example : accepts tracking motion_plus ≡ (
    if source_eq tracking.config.source auto
    then leb (active_rank tracking.active_source) (rank motion_plus)
    else source_eq tracking.config.source motion_plus)
accepts-rank_example = accepts-rank tracking motion_plus (omega arith)

tracking_auto : tracking.config.source ≡ auto
unfolding State.new from_config default
tracking_auto = refl

outranked_unchanged_example :
    (rank motion_plus < rank ir → process_motion_plus tracking sample ≡ (tracking, no_result))
    × (rank accelerometer < rank ir → process_accelerometer tracking sample ≡ (tracking, no_result))
outranked_unchanged_example = outranked_unchanged tracking sample ir tracking_auto refl
