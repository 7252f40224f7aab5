-- ===== src/Mapping/Motion.antt =====
-- crates/wiiland-core/src/mapping.rs: the translation of one absolute event (`map_motion`).
pub mod Ranges
use wiiland.Prelude.{
  ℕ, suc, ◌+◌, Bool, true, false, List, [], ◌∷◌, Option, none, some, ltb, if◌then◌else◌,
}
use wiiland.Prelude.Lists.{length, set, take, replicate}
use wiiland.Prelude.Int.{ℤ, pos}
use wiiland.Mapping.Constants.{
  wiimote_accel_axis_extent, nunchuk_stick_axis_extent, classic_stick_axis_extent,
  classic_trigger_max, pro_stick_axis_extent, rhythm_stick_negative_extent,
  rhythm_stick_positive_extent, guitar_whammy_negative_extent, guitar_whammy_positive_extent,
  guitar_fret_max, motion_plus_axis_extent, virtual_trigger_max, abs_x, abs_y, abs_z, abs_rx,
  abs_ry, abs_rz, abs_throttle, abs_rudder, abs_wheel, abs_gas, abs_brake, abs_hat0x, abs_hat1x,
  abs_hat1y, abs_hat2x, abs_hat3x, abs_hat3y,
}
use wiiland.Mapping.Codes.{balance_codes, drums_abs_code}
use wiiland.Mapping.Scale.{scale_signed_axis, scale_unsigned_axis, scale_drums_pressure}

pub record Abs3 : Type 0 where
  pub x : ℤ
  pub y : ℤ
  pub z : ℤ

-- The source's `[Abs3; 8]`.
pub record Slots : Type 0 where
  pub slot0 : Abs3
  pub slot1 : Abs3
  pub slot2 : Abs3
  pub slot3 : Abs3
  pub slot4 : Abs3
  pub slot5 : Abs3
  pub slot6 : Abs3
  pub slot7 : Abs3

pub record MappedAxis : Type 0 where
  pub code : ℕ
  pub value : ℤ

abbrev axis : ℕ → ℤ → MappedAxis
axis code value = record { code = code; value = value }

map_xyz : Abs3 → ℕ → ℕ → ℕ → ℤ → List MappedAxis
map_xyz v code0 code1 code2 extent =
    axis code0 (scale_signed_axis v.x extent extent)
    ∷ axis code1 (scale_signed_axis v.y extent extent)
    ∷ axis code2 (scale_signed_axis v.z extent extent)
    ∷ []

pub data MotionKind : Type 0 where
  accel nunchuk classic pro guitar balance motion_plus drums : MotionKind

-- An array of nine axes, of which the first `count` are in use.
pub record MappedMotion : Type 0 where
  pub axes : List MappedAxis
  pub count : ℕ

default : MappedMotion
default = record { axes = replicate 9 (axis 0 (pos 0)); count = 0 }

push : MappedMotion → ℕ → ℤ → MappedMotion
push m code value =
    if ltb m.count (length m.axes)
    then record { axes = set m.axes m.count (axis code value); count = m.count + 1 }
    else m

push_all : MappedMotion → List MappedAxis → MappedMotion
push_all m [] = m
push_all m (a ∷ rest) = push_all (push m a.code a.value) rest

abbrev or_zero : Option ℕ → ℕ
or_zero none = 0
or_zero (some code) = code

-- The loop over the pressure slots, from the index of the first one given.
push_pressures : MappedMotion → ℕ → List Abs3 → MappedMotion
unfolding push drums_abs_code
push_pressures m index [] = m
push_pressures m index (v ∷ rest) =
    push_pressures (push m (or_zero (drums_abs_code index)) (scale_drums_pressure index v.x))
      (suc index) rest

-- The balance board's loop over its codes: reading `index` comes from slot `index`, unscaled.
abbrev zip_codes : List ℕ → List Abs3 → List MappedAxis
zip_codes (c ∷ cs) (v ∷ vs) = axis c v.x ∷ zip_codes cs vs
zip_codes _ _ = []

rhythm_stick : ℤ → ℤ
rhythm_stick v = scale_signed_axis v rhythm_stick_negative_extent rhythm_stick_positive_extent

stick : ℤ → ℤ → ℤ
stick extent v = scale_signed_axis v extent extent

-- The four stick axes that the classic and the pro controller share.
push_sticks : MappedMotion → Slots → ℤ → MappedMotion
unfolding push stick
push_sticks m s extent =
    let m1 = push m abs_x (stick extent s.slot0.x) in
    let m2 = push m1 abs_y (stick extent s.slot0.y) in
    let m3 = push m2 abs_rx (stick extent s.slot1.x) in push m3 abs_ry (stick extent s.slot1.y)

pub map_motion : MotionKind → Slots → MappedMotion
unfolding default push push_all push_pressures push_sticks rhythm_stick stick map_xyz
map_motion accel s =
    push_all default (map_xyz s.slot0 abs_throttle abs_rudder abs_wheel wiimote_accel_axis_extent)
map_motion nunchuk s =
    let m1 = push default abs_x (stick nunchuk_stick_axis_extent s.slot0.x) in
    let m2 = push m1 abs_y (stick nunchuk_stick_axis_extent s.slot0.y) in
    push_all m2 (map_xyz s.slot1 abs_hat1x abs_hat1y abs_hat2x wiimote_accel_axis_extent)
map_motion classic s =
    let m = push_sticks default s classic_stick_axis_extent in
    let m1 = push m abs_z (scale_unsigned_axis s.slot2.x classic_trigger_max virtual_trigger_max) in
    push m1 abs_rz (scale_unsigned_axis s.slot2.y classic_trigger_max virtual_trigger_max)
map_motion pro s = push_sticks default s pro_stick_axis_extent
map_motion guitar s =
    let m1 = push default abs_x (rhythm_stick s.slot0.x) in
    let m2 = push m1 abs_y (rhythm_stick s.slot0.y) in
    let m3 =
      push m2 abs_hat3x
        (scale_signed_axis s.slot1.x guitar_whammy_negative_extent guitar_whammy_positive_extent) in
    push m3 abs_hat3y (scale_unsigned_axis s.slot2.x guitar_fret_max virtual_trigger_max)
map_motion balance s =
    push_all default (zip_codes balance_codes (s.slot0 ∷ s.slot1 ∷ s.slot2 ∷ s.slot3 ∷ []))
map_motion motion_plus s =
    push_all default (map_xyz s.slot0 abs_gas abs_brake abs_hat0x motion_plus_axis_extent)
map_motion drums s =
    let m1 = push default abs_x (rhythm_stick s.slot0.x) in
    let m2 = push m1 abs_y (rhythm_stick s.slot0.y) in
    push_pressures m2 1 (s.slot1 ∷ s.slot2 ∷ s.slot3 ∷ s.slot4 ∷ s.slot5 ∷ s.slot6 ∷ s.slot7 ∷ [])

-- The axes in use, as the readers of the result take them.
abbrev pub entries : MappedMotion → List MappedAxis
entries m = take m.count m.axes
