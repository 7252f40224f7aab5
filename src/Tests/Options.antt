-- ===== src/Tests/Options.antt =====
-- Concrete runs of crates/wiiland-core/src/config.rs and trace.rs.
use wiiland.Prelude.{
  ◌≤◌, ◌≡◌, ◌≢◌, ◌↔◌, ◌⊎◌, refl, arith, true, false, not, ◌&&◌, List, [], ◌∷◌, none, some,
}
use wiiland.Prelude.Lists.{length}
use wiiland.Prelude.Int.{pos}
use wiiland.Prelude.Text.{Text, codes, eq_text, starts_with, includes, parse_i64}
use wiiland.Config.Types.{Config, default, syspath, profile_desktop}
use wiiland.Config.Names.{parse_profile, by_name}
use wiiland.Config.Validate.{validate, bad_screen, bad_calibration}
use wiiland.Config.Rules.{
  accepted, panicked, set_rule, set_middle, remove_first, is_rule, profile_for_device,
  max_device_rules, matched,
}
use wiiland.Config.Rules.Select.{set_rule-profile_for_device}
use wiiland.Config.Lines.Panics.{set_key-panicked_iff}
use wiiland.Config.Lines.{apply_line, set_key, trim, split_at, parse_int, set_pattern, set_screen}
use wiiland.Config.Lines.Files.{apply_lines, apply_lines-validate}
use wiiland.Trace.{matches, keys, axes, ir_only, motion_plus_only, raw, from_raw}
use wiiland.Trace.Kinds.{filters_apart, raw-from_raw}

abbrev key : Text
key = codes "device.usb-1.profile"

abbrev value : Text
value = codes "desktop"

abbrev ruled : Config
ruled = record default {
  device_rules =
      record { kind = syspath; match_text = codes "usb-1"; profile = profile_desktop } ∷ [];
}

rule_accepted : set_rule default key value syspath ≡ accepted ruled
unfolding set_rule set_middle parse_profile by_name remove_first is_rule eq_text default
rule_accepted = refl

value_desktop : parse_profile value ≡ some profile_desktop
unfolding parse_profile by_name eq_text
value_desktop = refl

path_matches :
    matched
      (some (codes "/sys/usb-1/x"))
      none
      (record { kind = syspath; match_text = codes "usb-1"; profile = profile_desktop })
    ≡ true
unfolding matched includes starts_with
path_matches = refl

no_rules : length default.device_rules ≤ max_device_rules
unfolding default
no_rules = omega arith

set_rule-profile_for_device_example :
    (profile_for_device ruled (some (codes "/sys/usb-1/x")) none ≡ profile_desktop)
    × (length ruled.device_rules ≤ max_device_rules)
set_rule-profile_for_device_example =
    set_rule-profile_for_device default ruled key value syspath profile_desktop
      (some (codes "/sys/usb-1/x")) none no_rules value_desktop rule_accepted path_matches

set_key-panicked_iff_example : (set_key default (codes "device.profile") value ≡ panicked) ↔ (
    (parse_profile value ≢ none)
    × ((codes "device.profile" ≡ codes "device.profile")
        ⊎ (codes "device.profile" ≡ codes "device-type.profile")))
set_key-panicked_iff_example = set_key-panicked_iff default (codes "device.profile") value

line_panics : apply_line default (codes "device.profile = gamepad") ≡ panicked
unfolding apply_line trim split_at set_key by_name eq_text set_pattern starts_with set_rule
    set_middle parse_profile
line_panics = refl

abbrev lines : List Text
lines = codes "# wiimote" ∷ codes "ir-screen-left = 900" ∷ codes "ir-screen-right=800" ∷ []

abbrev crossed : Config
crossed = record default {
  ir_screen = some (record { left = pos 900; right = pos 800; top = pos 0; bottom = pos 767 });
}

lines_accepted : apply_lines lines default ≡ accepted crossed
unfolding apply_lines apply_line trim split_at set_key by_name eq_text set_screen parse_int
    parse_i64 default
lines_accepted = refl

apply_lines-validate_example : validate crossed ≡ (
    not (bad_screen crossed.ir_screen)
    && (not (bad_calibration crossed.aim_accel_zero)
        && not (bad_calibration crossed.aim_motion_plus_bias)))
apply_lines-validate_example = apply_lines-validate lines crossed lines_accepted

filters_apart_example :
    ((matches keys 2 && matches axes 2) ≡ false)
    × (matches ir_only 2 ≡ true → matches axes 2 ≡ true)
    × (matches motion_plus_only 2 ≡ true → matches axes 2 ≡ true)
filters_apart_example = filters_apart 2

raw-from_raw_example : raw (from_raw 99) ≡ 99
raw-from_raw_example = raw-from_raw 99
