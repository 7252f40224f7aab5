-- ===== src/Daemon/Bridge/Interfaces.antt =====
-- The interfaces that a profile needs, in crates/wiilandd/src/bridge.rs.
use wiiland.Prelude.{Option, none, some, if◌then◌else◌}
use wiiland.Prelude.Int.{ℤ, negsuc}
use wiiland.Config.Types.{
  Config, Profile, profile_gamepad, profile_desktop, contains, AimMode, off, mouse, right_stick,
  AimSource, AimActivation, always, b, z, c,
}
use wiiland.Hid.Model.{
  InterfaceMask, mask_core, mask_accel, mask_ir, mask_motion_plus, mask_nunchuk, mask_all, insert,
  without,
}

-- The set that a device has open, what it has after a `close`, and what an `open` answers: the set
-- that is then open, with an error when a part of it could not be opened.
pub record Iface : Type 0 where
  pub opened : InterfaceMask
  pub after_close : InterfaceMask → InterfaceMask
  pub open_more : InterfaceMask → InterfaceMask × Option ℤ

abbrev source_interfaces : AimSource → InterfaceMask
source_interfaces AimSource.ir = mask_ir
source_interfaces AimSource.motion_plus = mask_motion_plus
source_interfaces AimSource.accelerometer = mask_accel
source_interfaces AimSource.auto = insert (insert mask_ir mask_motion_plus) mask_accel

abbrev activation_interfaces : AimActivation → InterfaceMask
activation_interfaces z = mask_nunchuk
activation_interfaces c = mask_nunchuk
activation_interfaces always = 0
activation_interfaces b = 0

abbrev aim_interfaces : AimMode → AimSource → AimActivation → InterfaceMask → InterfaceMask
aim_interfaces off source activation interfaces = interfaces
aim_interfaces mouse source activation interfaces =
    insert (insert interfaces (source_interfaces source)) (activation_interfaces activation)
aim_interfaces right_stick source activation interfaces =
    insert (insert interfaces (source_interfaces source)) (activation_interfaces activation)

unfoldable pub requested_interfaces : Profile → Config → InterfaceMask
requested_interfaces p config =
    let played = (if contains p profile_gamepad then without mask_all mask_ir else 0) in
    let pointed =
      (if contains p profile_desktop then insert played (insert mask_core mask_ir) else played) in
    aim_interfaces config.aim_mode config.aim_source config.aim_activation pointed

-- The result when nothing that is needed is open: the error, or `-ENODEV`.
abbrev pub opens : Option ℤ → Option ℤ
opens none = some (negsuc 18)
opens (some e) = some e
