-- ===== src/Engine/State.antt =====
-- crates/wiiland-core/src/engine.rs: the engine's inputs, outputs and state.
use wiiland.Prelude.{
  ℕ, Bool, true, false, ◌==◌, ◌||◌, ◌&&◌, not, Option, none, some, bit_or, if◌then◌else◌,
}
use wiiland.Prelude.Lists.{any}
use wiiland.Prelude.Int.{ℤ}
use wiiland.Prelude.Mask.{has_bit}
use wiiland.Input.{
  Button, ButtonState, InputSource, core, nunchuk, classic_controller, pro_controller, drums,
  guitar, index, code, all,
}
use wiiland.Mapping.Motion.{MotionKind, Slots}
use wiiland.Config.Types.{
  Config, Profile, profile_gamepad, profile_desktop, contains, AimMode, mouse, right_stick,
  DesktopAction, disabled, left_click, right_click, enter, escape, overview, page_up, page_down,
  DesktopBindings,
}
use wiiland.Pointer.{PointerState}
use wiiland.Pointer
use wiiland.Pointer.Select.{IrFrame}
use wiiland.Aim.State.{AimState, from_config}
use wiiland.Aim.State

pub data OutputDevice : Type 0 where
  gamepad desktop : OutputDevice

pub data OutputAction : Type 0 where
  key : OutputDevice → ℕ → ℕ → OutputAction
  abs rel : OutputDevice → ℕ → ℤ → OutputAction
  sync : OutputDevice → OutputAction

pub data EngineInput : Type 0 where
  key_input : InputSource → Button → ButtonState → EngineInput
  motion : MotionKind → Slots → EngineInput
  ir : IrFrame → EngineInput
  pointer_tick : EngineInput
  source_removed : InputSource → EngineInput
  reset : EngineInput

-- The source's `[u32; 6]`, read at `InputSource::index`.
abbrev pub Held : Type 0
Held = InputSource → ℕ

-- The array with one entry written.
unfoldable pub write : Held → InputSource → ℕ → Held
unfolding index
write held source mask other = if index source == index other then mask else held other

pub record DeviceEngine : Type 0 where
  pub config : Config
  pub profile : Profile
  pub pointer : PointerState
  pub aim : AimState
  pub held : Held

unfoldable pub new : Config → Profile → DeviceEngine
new config profile = record {
  config = config;
  profile = profile;
  pointer =
      Pointer.new config.pointer_speed config.ir_speed config.ir_deadzone config.ir_smoothing
        config.ir_tracking;
  aim = State.new (from_config config);
  held = λ source. 0;
}

unfoldable pub pointer_active : DeviceEngine → Bool
pointer_active self = not (self.pointer.pointer_keys == 0)

-- The fold of `|` over the six masks.
unfoldable pub held_buttons : Held → ℕ
held_buttons held =
    let m1 = bit_or 0 (held core) in
    let m2 = bit_or m1 (held nunchuk) in
    let m3 = bit_or m2 (held classic_controller) in
    let m4 = bit_or m3 (held pro_controller) in
    let m5 = bit_or m4 (held drums) in bit_or m5 (held guitar)

abbrev bound_action : DesktopBindings → Button → DesktopAction
bound_action bindings Button.a = bindings.a
bound_action bindings Button.b = bindings.b
bound_action bindings Button.plus = bindings.plus
bound_action bindings Button.minus = bindings.minus
bound_action bindings Button.home = bindings.home
bound_action bindings Button.one = bindings.one
bound_action bindings Button.two = bindings.two
bound_action bindings _ = disabled

abbrev action_key : DesktopAction → Option ℕ
action_key left_click = some 0x110
action_key right_click = some 0x111
action_key enter = some 28
action_key escape = some 1
action_key overview = some 125
action_key page_up = some 104
action_key page_down = some 109
action_key disabled = none

pub desktop_key : Config → Button → Option ℕ
desktop_key config button = action_key (bound_action config.desktop_bindings button)

abbrev is_key : Option ℕ → ℕ → Bool
is_key none wanted = false
is_key (some k) wanted = k == wanted

unfoldable pub desktop_key_held : Config → ℕ → ℕ → Bool
unfolding desktop_key
desktop_key_held config held wanted =
    any (λ button. has_bit held (code button) && is_key (desktop_key config button) wanted) all

abbrev is_right_stick : AimMode → Bool
is_right_stick right_stick = true
is_right_stick _ = false

abbrev is_mouse : AimMode → Bool
is_mouse mouse = true
is_mouse _ = false

unfoldable pub needs_gamepad : Profile → Config → Bool
unfolding contains
needs_gamepad profile config = contains profile profile_gamepad || is_right_stick config.aim_mode

unfoldable pub needs_desktop : Profile → Config → Bool
unfolding contains
needs_desktop profile config = contains profile profile_desktop || is_mouse config.aim_mode
