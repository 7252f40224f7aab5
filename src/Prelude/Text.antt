-- ===== src/Prelude/Text.antt =====
-- Texts as the lists of their bytes.
use Prim.Native.Nat.{ℕ, zero, suc, ◌+◌, ◌-◌, ◌*◌}
use Prim.Native.Char.{code}
use Prim.Native.String.{String}
use mathlib.Core.Path.{◌≡◌, refl}
use mathlib.Core.Bool.{Bool, true, false, ◌&&◌, ◌||◌}
use mathlib.Core.List.{List, [], ◌∷◌}
use mathlib.Core.Option.{Option, none, some}
use native.Mathlib.Omega.{arith}
use wiiland.Prelude.Tests.{leb, ◌==◌, if◌then◌else◌}
pub use wiiland.Prelude.Lists.{drop}
use wiiland.Prelude.Int.{ℤ, pos, negsuc, leb_ℤ}

abbrev pub Text : Type 0
Text = List ℕ

-- The bytes of a text of ASCII characters.
abbrev pub codes : String → Text
codes String.[] = []
codes (String.◌∷◌ c s) = code c ∷ codes s

unfoldable pub eq_text : Text → Text → Bool
eq_text [] [] = true
eq_text (x ∷ s) (y ∷ t) = x == y && eq_text s t
eq_text [] (y ∷ t) = false
eq_text (x ∷ s) [] = false

pub eq_text_refl : (s : Text) → eq_text s s ≡ true
unfolding eq_text
eq_text_refl [] = refl
eq_text_refl (x ∷ s) = ground (arith, eq_text_refl s)

pub eq_text_sound : (s t : Text) → eq_text s t ≡ true → s ≡ t
unfolding eq_text
eq_text_sound [] [] h = refl
eq_text_sound (x ∷ s) (y ∷ t) h = ground (arith, eq_text_sound s t)
eq_text_sound [] (y ∷ t) h = ground arith
eq_text_sound (x ∷ s) [] h = ground arith

unfoldable pub starts_with : Text → Text → Bool
starts_with s [] = true
starts_with [] (y ∷ t) = false
starts_with (x ∷ s) (y ∷ t) = x == y && starts_with s t

unfoldable pub includes : Text → Text → Bool
unfolding starts_with
includes [] t = starts_with [] t
includes (x ∷ s) t = starts_with (x ∷ s) t || includes s t

pub starts_with_refl : (s : Text) → starts_with s s ≡ true
unfolding starts_with
starts_with_refl [] = refl
starts_with_refl (x ∷ s) = ground (arith, starts_with_refl s)

pub includes_refl : (s : Text) → includes s s ≡ true
unfolding includes
includes_refl [] = starts_with_refl []
includes_refl (x ∷ s) = ground (arith, starts_with_refl (x ∷ s))

abbrev pub reverse_onto : Text → Text → Text
reverse_onto [] t = t
reverse_onto (x ∷ s) t = reverse_onto s (x ∷ t)

abbrev pub ends_with : Text → Text → Bool
ends_with s t = starts_with (reverse_onto s []) (reverse_onto t [])

-- The digits of a decimal number, onto those read before.
abbrev digits : ℕ → Text → Option ℕ
digits n [] = some n
digits n (x ∷ s) =
    let rest = digits (n * 10 + (x - b'0')) s in if leb b'0' x && leb x b'9' then rest else none

abbrev pub number : Text → Option ℕ
number [] = none
number (x ∷ s) = digits 0 (x ∷ s)

abbrev in_i64 : ℤ → Option ℤ
in_i64 v =
    if leb_ℤ (negsuc 9223372036854775807) v && leb_ℤ v (pos 9223372036854775807)
    then some v
    else none

abbrev signed : Bool → Option ℕ → Option ℤ
signed _ none = none
signed false (some n) = in_i64 (pos n)
signed true (some zero) = some (pos 0)
signed true (some (suc n)) = in_i64 (negsuc n)

-- `str::parse::<i64>`: an optional sign, then one digit or more.
unfoldable pub parse_i64 : Text → Option ℤ
parse_i64 [] = none
parse_i64 (x ∷ s) =
    if x == b'-'
    then signed true (number s)
    else (if x == b'+' then signed false (number s) else signed false (number (x ∷ s)))
