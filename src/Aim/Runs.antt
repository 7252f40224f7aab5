-- ===== src/Aim/Runs.antt =====
-- Histories of the aim of crates/wiiland-core/src/aim.rs: any order of keys, samples and resets.
use wiiland.Prelude.{
  ℕ, ◌≡◌, refl, ◌⊎◌, inl, inr, arith, Bool, true, false, not, List, [], ◌∷◌, Option, none, some,
  if_both,
}
use wiiland.Prelude.Lists.{All}
use wiiland.Config.Validate.{validate}
use wiiland.Config.Types.{Config, AimSource, ir, motion_plus, accelerometer, SensorCalibration}
use wiiland.Calibration.{Sample}
use wiiland.Calibration.Window.{IsSample}
use wiiland.Pointer.Select.{IrPoint}
use wiiland.Aim.State.{
  AimVector, zero_vector, AimResult, AimConfig, AimState, from_config, new, is_some_source,
  is_active, reset, reset_session, reset_result, no_result,
}
use wiiland.Aim.Bounds.{
  validate-IsAimConfig, IsAimConfig, IsBounded, OutputFits, Fits, reset-IsBounded,
}
use wiiland.Aim.Process.{
  process_ir-Fits, process_motion_plus-Fits, process_accelerometer-Fits, activation_key-Fits,
}
use wiiland.Aim.{
  accepts, ir_vector, ready, zeroed, take_zero, take_key, lose_ir, take_ir, from_zero, emit,
  activation_key, process_ir, process_motion_plus, process_accelerometer,
}

-- The public operations of the aim.
pub data AimEvent : Type 0 where
  key : ℕ → Bool → AimEvent
  ir_frame : Option IrPoint → AimEvent
  motion_plus_sample accelerometer_sample : Sample → AimEvent
  resets session_resets : AimEvent

pub step : AimState → AimEvent → AimState × AimResult
step self (key code pressed) = activation_key self code pressed
step self (ir_frame point) = process_ir self point
step self (motion_plus_sample sample) = process_motion_plus self sample
step self (accelerometer_sample sample) = process_accelerometer self sample
step self resets = (reset self, reset_result)
step self session_resets = (reset_session self, reset_result)

-- What a history outputs, oldest first.
pub outputs : AimState → List AimEvent → List (Option AimVector)
outputs self [] = []
outputs self (e ∷ rest) = (step self e).1.output ∷ outputs (step self e).0 rest

-- The samples are `i32` values.
abbrev IsEvent : AimEvent → Type 0
IsEvent (motion_plus_sample sample) = IsSample sample
IsEvent (accelerometer_sample sample) = IsSample sample
IsEvent _ = Unit {0}

step-Fits : (self : AimState) (e : AimEvent) → IsBounded self → IsEvent e → Fits (step self e)
unfolding step reset_session
step-Fits self (key code pressed) b h = activation_key-Fits self code pressed b
step-Fits self (ir_frame point) b h = process_ir-Fits self point b
step-Fits self (motion_plus_sample sample) b h = process_motion_plus-Fits self sample b h
step-Fits self (accelerometer_sample sample) b h = process_accelerometer-Fits self sample b
step-Fits self resets b h = (reset-IsBounded self b, omega arith)
step-Fits self session_resets b h = (
  reset-IsBounded (record self { held = false })
      (record { config = b.config; last_x = b.last_x; last_y = b.last_y }),
  omega arith,
)

outputs-All :
    (self : AimState) (events : List AimEvent)
    → IsBounded self
    → All IsEvent events
    → All OutputFits (outputs self events)
unfolding outputs
outputs-All self [] b h = tt
outputs-All self (e ∷ rest) b h =
    let f = step-Fits self e b h.0 in (f.1, outputs-All (step self e).0 rest f.0 h.1)

outputs_fit :
    (config : AimConfig) (events : List AimEvent)
    → IsAimConfig config
    → All IsEvent events
    → All OutputFits (outputs (new config) events)
unfolding new
outputs_fit config events c h =
    outputs-All (new config) events
      (record { config = c; last_x = omega arith; last_y = omega arith }) h

-- In every history of a new aim whose configuration `validate` accepts, every vector that is put out
-- has both coordinates between -32767 and 32767, if the samples are `i32` values.
pub validated_outputs_fit :
    (config : Config) (events : List AimEvent)
    → validate config ≡ true
    → All IsEvent events
    → All OutputFits (outputs (new (from_config config)) events)
validated_outputs_fit config events v h =
    outputs_fit (from_config config) events (validate-IsAimConfig config v) h

-- Nothing, or the vector that stops the motion.
abbrev pub IsStill : Option AimVector → Type 0
IsStill o = (o ≡ none) ⊎ (o ≡ some zero_vector)

abbrev StillResult : AimState × AimResult → Type 0
StillResult r = IsStill r.1.output

emit_still : (self : AimState) (v : AimVector) → is_active self ≡ false → StillResult (emit self v)
unfolding emit
emit_still self v h = rw h (inr refl)

-- Handlers change no part of the state that `is_active` reads before they emit.
sourced_still :
    (self : AimState) (v : AimVector) (source : AimSource)
    → is_active self ≡ false
    → StillResult (emit (record self { active_source = some source }) v)
unfolding is_active
sourced_still self v source h = emit_still (record self { active_source = some source }) v h

take_ir-still :
    (self : AimState) (p : IrPoint) → is_active self ≡ false → StillResult (take_ir self p)
unfolding take_ir is_active
take_ir-still self p h =
    if_both StillResult (not (accepts self ir)) (self, no_result) _ (inl refl)
      (emit_still _ (ir_vector self p) h)

lose_ir-still : (self : AimState) → StillResult (lose_ir self)
unfolding lose_ir
lose_ir-still self =
    if_both StillResult (is_some_source self.active_source ir) (reset self, reset_result)
      (record self { ir_active = false }, no_result) (inr refl) (inl refl)

from_zero-still :
    (self : AimState) (calibration : Option SensorCalibration) (sample : Sample)
    → is_active self ≡ false
    → StillResult (from_zero (zeroed self calibration) sample)
unfolding from_zero is_active
from_zero-still self none sample h = emit_still _ _ h
from_zero-still self (some origin) sample h = emit_still _ _ h

-- While the aim is not active, because it is off or its key is up, no event moves anything.
pub step-IsStill :
    (self : AimState) (e : AimEvent) → is_active self ≡ false → IsStill (step self e).1.output
unfolding step activation_key take_key process_ir process_motion_plus process_accelerometer
step-IsStill self (key code pressed) h = ground arith
step-IsStill self (ir_frame none) h = lose_ir-still self
step-IsStill self (ir_frame (some p)) h =
    if_both StillResult p.valid (take_ir self p) (lose_ir self) (take_ir-still self p h)
      (lose_ir-still self)
step-IsStill self (motion_plus_sample sample) h =
    if_both StillResult (not (accepts self motion_plus)) (self, no_result) _ (inl refl)
      (sourced_still self _ motion_plus h)
step-IsStill self (accelerometer_sample sample) h =
    let s = zeroed self (ready self.config.accel_calibration) in
    if_both StillResult (not (accepts self accelerometer)) (self, no_result) _ (inl refl)
      (if_both StillResult s.accel_zeroed (from_zero s sample) (take_zero s sample, no_result)
        (from_zero-still self (ready self.config.accel_calibration) sample h) (inl refl))
step-IsStill self resets h = inr refl
step-IsStill self session_resets h = inr refl
