-- ===== src/Config/Lines.antt =====
-- One line of a configuration file, from crates/wiiland-core/src/config.rs: `apply_line`, `set_key`
-- and the setters that it calls. A path, a line number and a message's wording are left out.
pub mod Ranges
pub mod Panics
pub mod Files
use wiiland.Prelude.{
  ℕ, zero, suc, ◌+◌, ◌-◌, Bool, true, false, not, ◌&&◌, ◌||◌, ◌==◌, ltb, leb, List, [], ◌∷◌, Option,
  none, some, bit_or, if◌then◌else◌,
}
use wiiland.Prelude.Int.{ℤ, pos, negsuc, leb_ℤ}
use wiiland.Prelude.Lists.{length, take}
use wiiland.Prelude.Text.{
  Text, codes, eq_text, starts_with, ends_with, drop, reverse_onto, parse_i64,
}
use wiiland.Config.Types.{
  IrRectangle, SensorCalibration, DesktopAction, DesktopBindings, syspath, devtype, Config,
}
use wiiland.Config.Names.{
  by_name, parse_profile, parse_ir_tracking, parse_ir_aim_mapping, parse_aim_mode, parse_aim_source,
  parse_aim_activation, parse_desktop_action,
}
use wiiland.Config.Rules.{
  Refusal, invalid_value, unknown_key, no_equals, line_too_long, Outcome, accepted, refused,
  set_rule,
}

abbrev pub max_line_bytes : ℕ
max_line_bytes = 512

abbrev in_range : ℤ → ℤ → Option ℤ → Option ℤ
in_range low high none = none
in_range low high (some n) = if not (leb_ℤ low n) || not (leb_ℤ n high) then none else some n

unfoldable pub parse_int : Text → ℤ → ℤ → Option ℤ
unfolding parse_i64
parse_int v low high = in_range low high (parse_i64 v)

-- An accepted value changes the configuration, and any other is an error.
abbrev pub put {ℓ} : {A : Type ℓ} → (A → Config) → Option A → Outcome
put f none = refused invalid_value
put f (some v) = accepted (f v)

-- The macros `int!` and `choice!`.
abbrev pub set_int : ℕ → ℕ → (Config → ℤ → Config) → Config → Text → Outcome
set_int low high f self value = put (f self) (parse_int value (pos low) (pos high))

abbrev set_choice {ℓ} :
    {A : Type ℓ} → (Text → Option A) → (Config → A → Config) → Config → Text → Outcome
set_choice parse f self value = put (f self) (parse value)

pub set_backend : Config → Text → Outcome
unfolding eq_text
set_backend self value =
    if eq_text value (codes "uinput") then accepted self else refused invalid_value

abbrev full_screen : IrRectangle
full_screen = record { left = pos 0; right = pos 1023; top = pos 0; bottom = pos 767 }

abbrev get_screen : Option IrRectangle → IrRectangle
get_screen none = full_screen
get_screen (some r) = r

abbrev put_side : ℕ → IrRectangle → ℤ → IrRectangle
put_side axis r v =
    if axis == 0
    then record r { left = v }
    else (if axis == 1
        then record r { right = v }
        else (if axis == 2 then record r { top = v } else record r { bottom = v }))

unfoldable pub set_screen : ℕ → Config → Text → Outcome
set_screen axis self value =
    put (λ v. record self { ir_screen = some (put_side axis (get_screen self.ir_screen) v) })
      (parse_int value (pos 0) (pos 32767))

pub parse_bool : Text → Option Bool
unfolding by_name
parse_bool = by_name (
    (codes "yes", true)
    ∷ (codes "true", true)
    ∷ (codes "1", true)
    ∷ (codes "no", false)
    ∷ (codes "false", false)
    ∷ (codes "0", false)
    ∷ [])

pub set_bool : Bool → Config → Text → Outcome
unfolding parse_bool
set_bool x self value =
    put (λ v. if x then record self { aim_invert_x = v } else record self { aim_invert_y = v })
      (parse_bool value)

abbrev no_calibration : SensorCalibration
no_calibration = record { x = pos 0; y = pos 0; z = pos 0; axes = 0 }

abbrev get_cal : Option SensorCalibration → SensorCalibration
get_cal none = no_calibration
get_cal (some cal) = cal

abbrev put_axis : ℕ → SensorCalibration → ℤ → SensorCalibration
put_axis axis cal v =
    if axis == 0
    then record cal { x = v; axes = bit_or cal.axes 1 }
    else (if axis == 1
        then record cal { y = v; axes = bit_or cal.axes 2 }
        else record cal { z = v; axes = bit_or cal.axes 4 })

pub set_cal : Bool → ℕ → Config → Text → Outcome
set_cal accel axis self value =
    put
      (λ v.
        if accel
        then record self { aim_accel_zero = some (put_axis axis (get_cal self.aim_accel_zero) v) }
        else record self {
          aim_motion_plus_bias = some (put_axis axis (get_cal self.aim_motion_plus_bias) v);
        })
      (parse_int value (negsuc 32767) (pos 32767))

-- The fields of `DesktopBindings::set`, by name.
abbrev Change : Type 0
Change = DesktopAction → DesktopBindings → DesktopBindings

unfoldable pub field_named : Text → Option Change
unfolding by_name
field_named = by_name (
    (codes "a", (λ v s. record s { a = v }))
    ∷ (codes "b", (λ v s. record s { b = v }))
    ∷ (codes "plus", (λ v s. record s { plus = v }))
    ∷ (codes "minus", (λ v s. record s { minus = v }))
    ∷ (codes "home", (λ v s. record s { home = v }))
    ∷ (codes "one", (λ v s. record s { one = v }))
    ∷ (codes "two", (λ v s. record s { two = v }))
    ∷ [])

abbrev bind_field : Config → DesktopAction → Option Change → Outcome
bind_field self action change =
    put (λ f. record self { desktop_bindings = f action self.desktop_bindings }) change

abbrev bind_action : Config → Text → Option DesktopAction → Outcome
bind_action self name none = refused invalid_value
bind_action self name (some action) = bind_field self action (field_named name)

pub set_binding : Config → Text → Text → Outcome
set_binding self key value = bind_action self (drop 8 key) (parse_desktop_action value)

-- The arms of `set_key` for one key each.
abbrev pub arms : List (Text × (Config → Text → Outcome))
arms =
    (codes "backend", set_backend)
    ∷ (codes "profile", set_choice parse_profile (λ self v. record self { profile = v }))
    ∷ (codes "pointer-speed", set_int 1 127 (λ self v. record self { pointer_speed = v }))
    ∷ (codes "ir-speed", set_int 1 127 (λ self v. record self { ir_speed = v }))
    ∷ (codes "ir-deadzone", set_int 0 127 (λ self v. record self { ir_deadzone = v }))
    ∷ (codes "ir-smoothing", set_int 0 95 (λ self v. record self { ir_smoothing = v }))
    ∷ (
      codes "ir-tracking",
      set_choice parse_ir_tracking (λ self v. record self { ir_tracking = v }),
    )
    ∷ (
      codes "ir-aim-mapping",
      set_choice parse_ir_aim_mapping (λ self v. record self { ir_aim_mapping = v }),
    )
    ∷ (codes "ir-screen-left", set_screen 0)
    ∷ (codes "ir-screen-right", set_screen 1)
    ∷ (codes "ir-screen-top", set_screen 2)
    ∷ (codes "ir-screen-bottom", set_screen 3)
    ∷ (codes "aim-mode", set_choice parse_aim_mode (λ self v. record self { aim_mode = v }))
    ∷ (codes "aim-source", set_choice parse_aim_source (λ self v. record self { aim_source = v }))
    ∷ (
      codes "aim-activation",
      set_choice parse_aim_activation (λ self v. record self { aim_activation = v }),
    )
    ∷ (codes "aim-sensitivity", set_int 1 127 (λ self v. record self { aim_sensitivity = v }))
    ∷ (codes "aim-deadzone", set_int 0 32767 (λ self v. record self { aim_deadzone = v }))
    ∷ (codes "aim-smoothing", set_int 0 95 (λ self v. record self { aim_smoothing = v }))
    ∷ (codes "aim-invert-x", set_bool true)
    ∷ (codes "aim-invert-y", set_bool false)
    ∷ (codes "aim-accel-zero-x", set_cal true 0)
    ∷ (codes "aim-accel-zero-y", set_cal true 1)
    ∷ (codes "aim-accel-zero-z", set_cal true 2)
    ∷ (codes "aim-motion-plus-bias-x", set_cal false 0)
    ∷ (codes "aim-motion-plus-bias-y", set_cal false 1)
    ∷ (codes "aim-motion-plus-bias-z", set_cal false 2)
    ∷ (
      codes "aim-calibration-duration",
      set_int 1 30 (λ self v. record self { aim_calibration_duration = v }),
    )
    ∷ []

-- The arms of `set_key` for the keys of a form.
unfoldable pub set_pattern : Config → Text → Text → Outcome
unfolding starts_with
set_pattern self key value =
    if starts_with key (codes "desktop.")
    then set_binding self key value
    else (if starts_with key (codes "device.") && ends_with key (codes ".profile")
        then set_rule self key value syspath
        else (if starts_with key (codes "device-type.") && ends_with key (codes ".profile")
            then set_rule self key value devtype
            else refused unknown_key))

abbrev pub run_arm : Config → Text → Text → Option (Config → Text → Outcome) → Outcome
run_arm self key value none = set_pattern self key value
run_arm self key value (some arm) = arm self value

unfoldable pub set_key : Config → Text → Text → Outcome
unfolding by_name
set_key self key value = run_arm self key value (by_name arms key)

abbrev is_blank : ℕ → Bool
is_blank c = c == b' ' || (c == b'\t' || (c == b'\r' || c == b'\n'))

abbrev trim_start : Text → Text
trim_start [] = []
trim_start (c ∷ s) = let rest = trim_start s in if is_blank c then rest else c ∷ s

abbrev reversed : Text → Text
reversed s = reverse_onto s []

-- `trim_matches` with the four blanks.
unfoldable pub trim : Text → Text
trim s = reversed (trim_start (reversed (trim_start s)))

-- The text before the first byte `c`, and the text behind it, if there is one.
unfoldable pub split_at : ℕ → Text → Text × Option Text
split_at c [] = ([], none)
split_at c (d ∷ s) =
    let rest = split_at c s in if d == c then ([], some s) else (d ∷ rest.0, rest.1)

abbrev pub with_equals : Config → Text → Option Text → Outcome
with_equals self key none = refused no_equals
with_equals self key (some value) = set_key self (trim key) (trim value)

abbrev pub apply_content : Config → Text → Outcome
apply_content self [] = accepted self
apply_content self (c ∷ s) = with_equals self (split_at b'=' (c ∷ s)).0 (split_at b'=' (c ∷ s)).1

unfoldable pub apply_line : Config → Text → Outcome
apply_line self line =
    if ltb (max_line_bytes - 1) (length line)
    then refused line_too_long
    else apply_content self (trim (split_at b'#' line).0)
