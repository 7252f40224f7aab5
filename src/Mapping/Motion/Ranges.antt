-- ===== src/Mapping/Motion/Ranges.antt =====
-- Every axis that `map_motion` reports is declared, and its value lies in the declared range
-- (crates/wiiland-core/src/mapping.rs).
use wiiland.Prelude.{ℕ, ◌≡◌, refl, arith, true, ◌&&◌, ltb, ◌<◌, Option, none, some}
use wiiland.Prelude.Lists.{All}
use wiiland.Prelude.Int.{ℤ, pos, Within}
use wiiland.Prelude.Width.{IsI32}
use wiiland.Mapping.Constants.{virtual_trigger_max, virtual_axis_max, virtual_axis_min}
use wiiland.Mapping.Codes.{AxisInfo, axis_info}
use wiiland.Mapping.Scale.{scale_signed_axis, scale_unsigned_axis, scale_drums_pressure}
use wiiland.Mapping.Scale.Bounds.{scale_signed_axis-Within, scale_unsigned_axis-Within}
use wiiland.Mapping.Motion.{
  Abs3, Slots, MappedAxis, MotionKind, accel, nunchuk, classic, pro, guitar, balance, motion_plus,
  drums, map_motion, entries,
}

-- The axis is declared, and the value fits.
abbrev Fits : Option AxisInfo → ℤ → Type 0
Fits none v = ⊥
Fits (some info) v = Within info.minimum info.maximum v

abbrev pub IsDeclared : MappedAxis → Type 0
IsDeclared a = Fits (axis_info a.code) a.value

abbrev pub IsAbs3 : Abs3 → Type 0
IsAbs3 v = IsI32 v.x × IsI32 v.y × IsI32 v.z

abbrev IsWeight : Abs3 → Type 0
IsWeight v = Within (pos 0) (pos 65535) v.x

-- The slots hold `i32` values; a balance board's four readings are unsigned 16-bit.
abbrev IsReading : MotionKind → Slots → Type 0
IsReading balance s = IsWeight s.slot0 × IsWeight s.slot1 × IsWeight s.slot2 × IsWeight s.slot3
IsReading _ s =
    IsAbs3 s.slot0
    × IsAbs3 s.slot1
    × IsAbs3 s.slot2
    × IsAbs3 s.slot3
    × IsAbs3 s.slot4
    × IsAbs3 s.slot5
    × IsAbs3 s.slot6
    × IsAbs3 s.slot7

signed :
    (v : ℤ) (n p : ℕ)
    → IsI32 v
    → n < 2147483648
    → p < 2147483648
    → Within virtual_axis_min virtual_axis_max (scale_signed_axis v (pos n) (pos p))
signed v n p h a b = scale_signed_axis-Within v (pos n) (pos p) h (omega arith) (omega arith)

unsigned :
    (v : ℤ) (s t : ℕ)
    → s < 2147483648
    → t < 2147483648
    → Within (pos 0) (pos t) (scale_unsigned_axis v (pos s) (pos t))
unsigned v s t a b =
    scale_unsigned_axis-Within v (pos s) (pos t) (omega arith) (omega arith) (omega arith)

-- A signed axis whose extents are numerals.
axis_lies :
    (v : ℤ) (n p : ℕ)
    → IsI32 v
    → ltb n 2147483648 && ltb p 2147483648 ≡ true
    → Within virtual_axis_min virtual_axis_max (scale_signed_axis v (pos n) (pos p))
axis_lies v n p h e = signed v n p h (ground arith) (ground arith)

trigger_lies :
    (v : ℤ) (s : ℕ)
    → ltb s 2147483648 ≡ true
    → Within (pos 0) virtual_trigger_max (scale_unsigned_axis v (pos s) virtual_trigger_max)
trigger_lies v s e = unsigned v s 1023 (ground arith) (omega arith)

-- A drum's pressure stays in the positive half of a stick, or in the range of a trigger.
drum_half :
    (v : ℤ)
    → Within virtual_axis_min virtual_axis_max (scale_unsigned_axis v (pos 7) virtual_axis_max)
drum_half v = omega (arith, unsigned v 7 32767 (omega arith) (omega arith))

abbrev ScaledWithin : ℕ → ℤ → Type 0
ScaledWithin n v = Within virtual_axis_min virtual_axis_max (scale_signed_axis v (pos n) (pos n))

-- The three axes of a vector.
xyz :
    (v : Abs3) (n : ℕ)
    → IsAbs3 v
    → ltb n 2147483648 ≡ true
    → let r = ScaledWithin n in r v.x × (r v.y × (r v.z × Unit {0}))
xyz v n h e =
    (axis_lies v.x n n h.0 both, (axis_lies v.y n n h.1 both, (axis_lies v.z n n h.2 both, tt)))
  where
    both : ltb n 2147483648 && ltb n 2147483648 ≡ true
    both = ground arith

-- Every axis that an event is mapped to is one that the virtual controller declares, and its value
-- lies between that axis's declared minimum and maximum, for each kind of event and all readings of
-- the slots' type, the balance board's readings being between 0 and 65535.
pub map_motion-IsDeclared :
    (kind : MotionKind) (s : Slots)
    → IsReading kind s
    → All IsDeclared (entries (map_motion kind s))
unfolding map_motion axis_info scale_drums_pressure
map_motion-IsDeclared accel s h = xyz s.slot0 500 h.0 refl
map_motion-IsDeclared nunchuk s h =
    (axis_lies _ 120 120 h.0.0 refl, (axis_lies _ 120 120 h.0.1 refl, xyz s.slot1 500 h.1 refl))
map_motion-IsDeclared classic s h = (
  axis_lies _ 30 30 h.0.0 refl,
  (
    axis_lies _ 30 30 h.0.1 refl,
    (
      axis_lies _ 30 30 h.1.0 refl,
      (
        axis_lies _ 30 30 h.1.1 refl,
        (trigger_lies s.slot2.x 62 refl, (trigger_lies s.slot2.y 62 refl, tt)),
      ),
    ),
  ),
)
map_motion-IsDeclared pro s h = (
  axis_lies _ 1024 1024 h.0.0 refl,
  (
    axis_lies _ 1024 1024 h.0.1 refl,
    (axis_lies _ 1024 1024 h.1.0 refl, (axis_lies _ 1024 1024 h.1.1 refl, tt)),
  ),
)
map_motion-IsDeclared guitar s h = (
  axis_lies _ 32 31 h.0.0 refl,
  (
    axis_lies _ 32 31 h.0.1 refl,
    (axis_lies _ 16 15 h.1.0 refl, (trigger_lies s.slot2.x 31 refl, tt)),
  ),
)
map_motion-IsDeclared balance s h = (h.0, (h.1, (h.2, (h.3, tt))))
map_motion-IsDeclared motion_plus s h = xyz s.slot0 16000 h.0 refl
map_motion-IsDeclared drums s h = (
  axis_lies _ 32 31 h.0.0 refl,
  (
    axis_lies _ 32 31 h.0.1 refl,
    (
      drum_half s.slot1.x,
      (
        drum_half s.slot2.x,
        (
          trigger_lies s.slot3.x 7 refl,
          (
            trigger_lies s.slot4.x 7 refl,
            (
              drum_half s.slot5.x,
              (trigger_lies s.slot6.x 7 refl, (trigger_lies s.slot7.x 7 refl, tt)),
            ),
          ),
        ),
      ),
    ),
  ),
)
