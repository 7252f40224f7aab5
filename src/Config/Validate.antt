-- ===== src/Config/Validate.antt =====
-- `Config::validate` of crates/wiiland-core/src/config.rs.
use wiiland.Prelude.{ℕ, Bool, false, not, ◌&&◌, ◌||◌, ◌==◌, ltb, Option, none, some, bit_and}
use wiiland.Prelude.Int.{ℤ, pos, leb_ℤ}
use wiiland.Prelude.Lists.{length, any}
use wiiland.Prelude.Mask.{complement}
use wiiland.Config.Types.{
  is_valid, all_axes, complete, IrRectangle, SensorCalibration, DeviceRule, Config,
}
use wiiland.Config.Rules.{max_device_rules, is_empty}

-- `(low..=high).contains(&v)`.
abbrev pub within : ℕ → ℕ → ℤ → Bool
within low high v = leb_ℤ (pos low) v && leb_ℤ v (pos high)

-- The numbers that `validate` tests.
unfoldable pub in_ranges : Config → Bool
in_ranges self =
    within 1 127 self.pointer_speed
    && (within 1 127 self.ir_speed
        && (within 0 127 self.ir_deadzone
            && (within 0 95 self.ir_smoothing
                && (within 1 127 self.aim_sensitivity
                    && (within 0 32767 self.aim_deadzone
                        && (within 0 95 self.aim_smoothing
                            && within 1 30 self.aim_calibration_duration))))))

abbrev pub bad_screen : Option IrRectangle → Bool
bad_screen none = false
bad_screen (some r) = leb_ℤ r.right r.left || leb_ℤ r.bottom r.top

abbrev pub bad_calibration : Option SensorCalibration → Bool
bad_calibration none = false
bad_calibration (some c) =
    not (bit_and c.axes (complement 8 all_axes) == 0) || (not (c.axes == 0) && not (complete c))

abbrev pub bad_rule : DeviceRule → Bool
bad_rule r = is_empty r.match_text || not (is_valid r.profile)

unfoldable pub good_rules : Config → Bool
unfolding is_valid
good_rules self =
    not (ltb max_device_rules (length self.device_rules) || any bad_rule self.device_rules)

-- True when `validate` returns `Ok`; which message an error has is left out.
unfoldable pub validate : Config → Bool
unfolding in_ranges good_rules is_valid complete
validate self =
    is_valid self.profile
    && (in_ranges self
        && (not (bad_screen self.ir_screen)
            && (not (bad_calibration self.aim_accel_zero)
                && (not (bad_calibration self.aim_motion_plus_bias) && good_rules self))))
