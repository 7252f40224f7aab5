-- ===== src/Config/Names.antt =====
-- The names of the options in crates/wiiland-core/src/config.rs: `as_str` and `parse` of each.
use wiiland.Prelude.{◌≡◌, refl, ◌==◌, List, [], ◌∷◌, Option, none, some, if◌then◌else◌}
use wiiland.Prelude.Text.{Text, codes, eq_text}
use wiiland.Config.Types.{
  Profile, profile_gamepad, profile_desktop, profile_both, IrTracking, first, centroid, dual,
  IrAimMapping, relative, absolute, AimMode, off, mouse, right_stick, AimSource, auto, ir,
  motion_plus, accelerometer, AimActivation, always, b, z, c, DesktopAction, disabled, left_click,
  right_click, enter, escape, overview, page_up, page_down,
}

-- The value of the first name that is the text.
unfoldable pub by_name {ℓ} : {A : Type ℓ} → List (Text × A) → Text → Option A
unfolding eq_text
by_name [] v = none
by_name (arm ∷ arms) v = if eq_text v arm.0 then some arm.1 else by_name arms v

unfoldable profile_as_str : Profile → Option Text
profile_as_str self =
    if self == profile_gamepad
    then some (codes "gamepad")
    else (if self == profile_desktop
        then some (codes "desktop")
        else (if self == profile_both then some (codes "both") else none))

unfoldable pub parse_profile : Text → Option Profile
unfolding by_name
parse_profile = by_name (
    (codes "gamepad", profile_gamepad)
    ∷ (codes "desktop", profile_desktop)
    ∷ (codes "both", profile_both)
    ∷ [])

ir_tracking_as_str : IrTracking → Text
ir_tracking_as_str first = codes "first"
ir_tracking_as_str centroid = codes "centroid"
ir_tracking_as_str dual = codes "dual"

pub parse_ir_tracking : Text → Option IrTracking
unfolding by_name
parse_ir_tracking =
    by_name ((codes "first", first) ∷ (codes "centroid", centroid) ∷ (codes "dual", dual) ∷ [])

ir_aim_mapping_as_str : IrAimMapping → Text
ir_aim_mapping_as_str relative = codes "relative"
ir_aim_mapping_as_str absolute = codes "absolute"

pub parse_ir_aim_mapping : Text → Option IrAimMapping
unfolding by_name
parse_ir_aim_mapping = by_name ((codes "relative", relative) ∷ (codes "absolute", absolute) ∷ [])

aim_mode_as_str : AimMode → Text
aim_mode_as_str off = codes "off"
aim_mode_as_str mouse = codes "mouse"
aim_mode_as_str right_stick = codes "right-stick"

pub parse_aim_mode : Text → Option AimMode
unfolding by_name
parse_aim_mode =
    by_name ((codes "off", off) ∷ (codes "mouse", mouse) ∷ (codes "right-stick", right_stick) ∷ [])

aim_source_as_str : AimSource → Text
aim_source_as_str auto = codes "auto"
aim_source_as_str ir = codes "ir"
aim_source_as_str motion_plus = codes "motion-plus"
aim_source_as_str accelerometer = codes "accelerometer"

pub parse_aim_source : Text → Option AimSource
unfolding by_name
parse_aim_source = by_name (
    (codes "auto", auto)
    ∷ (codes "ir", ir)
    ∷ (codes "motion-plus", motion_plus)
    ∷ (codes "accelerometer", accelerometer)
    ∷ [])

aim_activation_as_str : AimActivation → Text
aim_activation_as_str always = codes "always"
aim_activation_as_str b = codes "b"
aim_activation_as_str z = codes "z"
aim_activation_as_str c = codes "c"

pub parse_aim_activation : Text → Option AimActivation
unfolding by_name
parse_aim_activation =
    by_name ((codes "always", always) ∷ (codes "b", b) ∷ (codes "z", z) ∷ (codes "c", c) ∷ [])

desktop_action_as_str : DesktopAction → Text
desktop_action_as_str disabled = codes "disabled"
desktop_action_as_str left_click = codes "left-click"
desktop_action_as_str right_click = codes "right-click"
desktop_action_as_str enter = codes "enter"
desktop_action_as_str escape = codes "escape"
desktop_action_as_str overview = codes "overview"
desktop_action_as_str page_up = codes "page-up"
desktop_action_as_str page_down = codes "page-down"

pub parse_desktop_action : Text → Option DesktopAction
unfolding by_name
parse_desktop_action = by_name (
    (codes "disabled", disabled)
    ∷ (codes "left-click", left_click)
    ∷ (codes "right-click", right_click)
    ∷ (codes "enter", enter)
    ∷ (codes "escape", escape)
    ∷ (codes "overview", overview)
    ∷ (codes "page-up", page_up)
    ∷ (codes "page-down", page_down)
    ∷ [])

parse_ir_tracking-ir_tracking_as_str :
    (v : IrTracking) → parse_ir_tracking (ir_tracking_as_str v) ≡ some v
unfolding parse_ir_tracking ir_tracking_as_str
parse_ir_tracking-ir_tracking_as_str first = refl
parse_ir_tracking-ir_tracking_as_str centroid = refl
parse_ir_tracking-ir_tracking_as_str dual = refl

parse_ir_aim_mapping-ir_aim_mapping_as_str :
    (v : IrAimMapping) → parse_ir_aim_mapping (ir_aim_mapping_as_str v) ≡ some v
unfolding parse_ir_aim_mapping ir_aim_mapping_as_str
parse_ir_aim_mapping-ir_aim_mapping_as_str relative = refl
parse_ir_aim_mapping-ir_aim_mapping_as_str absolute = refl

parse_aim_mode-aim_mode_as_str : (v : AimMode) → parse_aim_mode (aim_mode_as_str v) ≡ some v
unfolding parse_aim_mode aim_mode_as_str
parse_aim_mode-aim_mode_as_str off = refl
parse_aim_mode-aim_mode_as_str mouse = refl
parse_aim_mode-aim_mode_as_str right_stick = refl

parse_aim_source-aim_source_as_str :
    (v : AimSource) → parse_aim_source (aim_source_as_str v) ≡ some v
unfolding parse_aim_source aim_source_as_str
parse_aim_source-aim_source_as_str auto = refl
parse_aim_source-aim_source_as_str ir = refl
parse_aim_source-aim_source_as_str motion_plus = refl
parse_aim_source-aim_source_as_str accelerometer = refl

parse_aim_activation-aim_activation_as_str :
    (v : AimActivation) → parse_aim_activation (aim_activation_as_str v) ≡ some v
unfolding parse_aim_activation aim_activation_as_str
parse_aim_activation-aim_activation_as_str always = refl
parse_aim_activation-aim_activation_as_str b = refl
parse_aim_activation-aim_activation_as_str z = refl
parse_aim_activation-aim_activation_as_str c = refl

parse_desktop_action-desktop_action_as_str :
    (v : DesktopAction) → parse_desktop_action (desktop_action_as_str v) ≡ some v
unfolding parse_desktop_action desktop_action_as_str
parse_desktop_action-desktop_action_as_str disabled = refl
parse_desktop_action-desktop_action_as_str left_click = refl
parse_desktop_action-desktop_action_as_str right_click = refl
parse_desktop_action-desktop_action_as_str enter = refl
parse_desktop_action-desktop_action_as_str escape = refl
parse_desktop_action-desktop_action_as_str overview = refl
parse_desktop_action-desktop_action_as_str page_up = refl
parse_desktop_action-desktop_action_as_str page_down = refl
