-- ===== src/Input.antt =====
-- crates/wiiland-core/src/input.rs: logical buttons, their stable numbers, and the interfaces that
-- own a transition.
pub mod Codes
use wiiland.Prelude.{ℕ, ◌≡◌, refl, List, [], ◌∷◌, Option, none, some, arith}
use wiiland.Prelude.Lists.{get_elem?}

pub data Button : Type 0 where
  left right up down plus minus one two a b home c z x y : Button
  shoulder_left shoulder_right trigger_left trigger_right thumb_left thumb_right : Button
  strum_bar_up strum_bar_down : Button
  fret_far_up fret_up fret_mid fret_low fret_far_low : Button

-- `Button::ALL`, in the order of the numbers.
abbrev pub all : List Button
all =
    left ∷ right ∷ up ∷ down ∷ a ∷ b ∷ plus ∷ minus ∷ home ∷ one ∷ two ∷ x ∷ y ∷ shoulder_left
    ∷ shoulder_right ∷ trigger_left ∷ trigger_right ∷ thumb_left ∷ thumb_right ∷ c ∷ z
    ∷ strum_bar_up ∷ strum_bar_down ∷ fret_far_up ∷ fret_up ∷ fret_mid ∷ fret_low ∷ fret_far_low
    ∷ []

pub from_code : ℕ → Option Button
from_code n = get_elem? all n

unfoldable pub code : Button → ℕ
code left = 0
code right = 1
code up = 2
code down = 3
code plus = 6
code minus = 7
code one = 9
code two = 10
code a = 4
code b = 5
code home = 8
code c = 19
code z = 20
code x = 11
code y = 12
code shoulder_left = 13
code shoulder_right = 14
code trigger_left = 15
code trigger_right = 16
code thumb_left = 17
code thumb_right = 18
code strum_bar_up = 21
code strum_bar_down = 22
code fret_far_up = 23
code fret_up = 24
code fret_mid = 25
code fret_low = 26
code fret_far_low = 27

pub data ButtonState : Type 0 where
  released pressed repeated : ButtonState

unfoldable pub value : ButtonState → ℕ
value released = 0
value pressed = 1
value repeated = 2

pub data InputSource : Type 0 where
  core nunchuk classic_controller pro_controller drums guitar : InputSource

unfoldable pub index : InputSource → ℕ
index core = 0
index nunchuk = 1
index classic_controller = 2
index pro_controller = 3
index drums = 4
index guitar = 5
