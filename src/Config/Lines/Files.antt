-- ===== src/Config/Lines/Files.antt =====
-- Whole lines and whole files of configuration, for crates/wiiland-core/src/config.rs.
use wiiland.Prelude.{
  ◌-◌, ◌≡◌, refl, subst, arith, not, ltb, List, [], ◌∷◌, Option, none, some, ◌&&◌, if_both,
}
use wiiland.Prelude.Lists.{length}
use wiiland.Prelude.Text.{Text, codes, starts_with, ends_with}
use wiiland.Config.Types.{is_valid, syspath, devtype, Config, default}
use wiiland.Config.Names.{by_name}
use wiiland.Config.Rules.{
  Outcome, accepted, refused, panicked, unknown_key, line_too_long, set_rule,
}
use wiiland.Config.Validate.{in_ranges, good_rules, bad_screen, bad_calibration, validate}
use wiiland.Config.Lines.{
  arms, set_pattern, run_arm, apply_line, set_key, max_line_bytes, apply_content, with_equals, trim,
  split_at, set_binding,
}
use wiiland.Config.Lines.Ranges.{
  IsSettled, Keeps, by_name-All, arms-Keep, set_binding-Keeps, set_rule-Keeps,
}

set_pattern-Keeps :
    (self : Config) (key value : Text) → IsSettled self → Keeps (set_pattern self key value)
unfolding set_pattern
set_pattern-Keeps self key value h =
    if_both Keeps (starts_with key (codes "desktop.")) (set_binding self key value) _
      (set_binding-Keeps self key value h)
      (if_both Keeps (starts_with key (codes "device.") && ends_with key (codes ".profile"))
        (set_rule self key value syspath) _ (set_rule-Keeps self key value syspath h)
        (if_both Keeps (starts_with key (codes "device-type.") && ends_with key (codes ".profile"))
          (set_rule self key value devtype) (refused unknown_key)
          (set_rule-Keeps self key value devtype h) tt))

run_arm-Keeps :
    (self : Config) (key value : Text) (o : Option (Config → Text → Outcome))
    → by_name arms key ≡ o
    → IsSettled self
    → Keeps (run_arm self key value o)
run_arm-Keeps self key value none e h = set_pattern-Keeps self key value h
run_arm-Keeps self key value (some arm) e h =
    by_name-All (λ arm. (self : Config) (s : Text) → IsSettled self → Keeps (arm self s)) arms key
      arm arms-Keep e self value h

apply_line-Keeps : (self : Config) (line : Text) → IsSettled self → Keeps (apply_line self line)
unfolding apply_line set_key
apply_line-Keeps self line h =
    if_both Keeps (ltb (max_line_bytes - 1) (length line)) (refused line_too_long)
      (apply_content self (trim (split_at b'#' line).0)) tt
      (by_content (trim (split_at b'#' line).0))
  where
    by_value : (key : Text) (value : Option Text) → Keeps (with_equals self key value)
    by_value key none = tt
    by_value key (some value) = run_arm-Keeps self (trim key) (trim value) _ refl h

    by_content : (content : Text) → Keeps (apply_content self content)
    by_content [] = h
    by_content (c ∷ s) = by_value (split_at b'=' (c ∷ s)).0 (split_at b'=' (c ∷ s)).1

-- The lines of a file in their order; the first that is not accepted ends them.
abbrev then_lines : (Config → Outcome) → Outcome → Outcome
then_lines f (accepted next) = f next
then_lines f (refused why) = refused why
then_lines f panicked = panicked

unfoldable pub apply_lines : List Text → Config → Outcome
apply_lines [] self = accepted self
apply_lines (line ∷ lines) self = then_lines (apply_lines lines) (apply_line self line)

then_lines-Keeps :
    (f : Config → Outcome) (o : Outcome)
    → ((self : Config) → IsSettled self → Keeps (f self))
    → Keeps o
    → Keeps (then_lines f o)
then_lines-Keeps f (accepted next) h k = h next k
then_lines-Keeps f (refused why) h k = tt
then_lines-Keeps f panicked h k = tt

apply_lines-Keeps :
    (lines : List Text) (self : Config) → IsSettled self → Keeps (apply_lines lines self)
unfolding apply_lines
apply_lines-Keeps [] self h = h
apply_lines-Keeps (line ∷ lines) self h =
    then_lines-Keeps (apply_lines lines) (apply_line self line)
      (λ next k. apply_lines-Keeps lines next k) (apply_line-Keeps self line h)

validate-settled :
    (self : Config)
    → IsSettled self
    → validate self ≡ (
        not (bad_screen self.ir_screen)
        && (not (bad_calibration self.aim_accel_zero)
            && not (bad_calibration self.aim_motion_plus_bias)))
unfolding validate
validate-settled self h = ground arith

-- When every line of a file is accepted from the default configuration, `validate` can only fail
-- for the screen's rectangle or for an incomplete calibration: the numbers, the profile and the
-- device rules are in order.
pub apply_lines-validate :
    (lines : List Text) (next : Config)
    → apply_lines lines default ≡ accepted next
    → validate next ≡ (
        not (bad_screen next.ir_screen)
        && (not (bad_calibration next.aim_accel_zero)
            && not (bad_calibration next.aim_motion_plus_bias)))
unfolding default in_ranges good_rules is_valid
apply_lines-validate lines next e =
    validate-settled next (subst Keeps e (apply_lines-Keeps lines default refl))
