-- ===== src/Aim/Sources.antt =====
-- How the aim of crates/wiiland-core/src/aim.rs arbitrates between its sources.
use wiiland.Prelude.{ℕ, ◌<◌, ◌≡◌, arith, leb, Option, none, some, if◌then◌else◌}
use wiiland.Config.Types.{AimSource, auto, ir, motion_plus, accelerometer}
use wiiland.Calibration.{Sample}
use wiiland.Aim.State.{AimState, no_result, source_eq}
use wiiland.Aim.{accepts, process_motion_plus, process_accelerometer}

-- The order of precedence.
abbrev pub rank : AimSource → ℕ
rank auto = 0
rank accelerometer = 1
rank motion_plus = 2
rank ir = 3

abbrev pub active_rank : Option AimSource → ℕ
active_rank none = 0
active_rank (some source) = rank source

-- A source that is fixed by the configuration is the only one accepted; under `auto` a source is
-- accepted exactly when no source of higher precedence is active.
pub accepts-rank :
    (self : AimState) (source : AimSource)
    → 0 < rank source
    → accepts self source ≡ (
        if source_eq self.config.source auto
        then leb (active_rank self.active_source) (rank source)
        else source_eq self.config.source source)
unfolding accepts
accepts-rank self source h = ground arith

-- Under `auto`, the samples of a source that an active one outranks change nothing at all.
pub outranked_unchanged :
    (self : AimState) (sample : Sample) (active : AimSource)
    → self.config.source ≡ auto
    → self.active_source ≡ some active
    → (rank motion_plus < rank active → process_motion_plus self sample ≡ (self, no_result))
      × (rank accelerometer < rank active → process_accelerometer self sample ≡ (self, no_result))
unfolding accepts process_motion_plus process_accelerometer
outranked_unchanged self sample active e f = ground arith
