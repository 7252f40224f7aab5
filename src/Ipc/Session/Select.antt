-- ===== src/Ipc/Session/Select.antt =====
-- `select_devices` of crates/wiiland-ipc/src/session.rs.
use wiiland.Prelude.{
  ℕ, zero, suc, ◌-◌, ◌^◌, Bool, true, ◌&&◌, ltb, leb, List, [], ◌∷◌, Option, none, some, ◌>>=◌,
  if◌then◌else◌,
}
use wiiland.Prelude.Lists.{get_elem?}
use wiiland.Prelude.Text.{Text, eq_text, number}
use wiiland.Ipc.Protocol.{DeviceInfo}

abbrev find_syspath : Text → List DeviceInfo → Option DeviceInfo
find_syspath selector [] = none
find_syspath selector (d ∷ devices) =
    let rest = find_syspath selector devices in if eq_text d.syspath selector then some d else rest

-- `parse::<usize>()` of digits, and `checked_sub(1)`.
abbrev ordinal : Option ℕ → Option ℕ
ordinal none = none
ordinal (some zero) = none
ordinal (some (suc n)) = if ltb n (2 ^ 64 - 1) then some n else none

abbrev all_digits : Text → Bool
all_digits [] = true
all_digits (c ∷ s) = (leb 48 c && leb c 57) && all_digits s

abbrev only : Option DeviceInfo → Option (List DeviceInfo)
only none = none
only (some d) = some (d ∷ [])

abbrev select_all : List DeviceInfo → Bool → Option (List DeviceInfo)
select_all [] single = none
select_all (d ∷ devices) single = some (if single then d ∷ [] else d ∷ devices)

-- `none` is the error that no device matches.
unfoldable select_devices : List DeviceInfo → Text → Bool → Option (List DeviceInfo)
select_devices devices [] single = select_all devices single
select_devices devices (c ∷ selector) single =
    if all_digits (c ∷ selector)
    then only (ordinal (number (c ∷ selector)) >>= λ i. get_elem? devices i)
    else only (find_syspath (c ∷ selector) devices)
