-- ===== src/Engine/Held.antt =====
-- The masks of held buttons of crates/wiiland-core/src/engine.rs, read button by button.
use wiiland.Prelude.{
  ℕ, ◌<◌, ◌≡◌, refl, ap, ◌∙◌, arith, Bool, true, false, ◌||◌, ◌==◌, if◌then◌else◌, bit_or,
}
use wiiland.Prelude.Mask.{has_bit, has_bit-or, has_bit-set, has_bit-clear, has_bit-zero}
use wiiland.Input.{
  Button, left, ButtonState, released, pressed, repeated, InputSource, core, nunchuk,
  classic_controller, pro_controller, drums, guitar, index, code,
}
use wiiland.Engine.State.{Held, write, held_buttons}
use wiiland.Engine.{next_mask}

-- Which button is held on which source.
abbrev pub Pressed : Type 0
Pressed = InputSource → Button → Bool

-- Some source holds the button.
abbrev pub anywhere : Pressed → Button → Bool
anywhere p u =
    p core u
    || (p nunchuk u
        || (p classic_controller u || (p pro_controller u || (p drums u || p guitar u))))

-- The masks say what `p` says.
abbrev pub Tells : Held → Pressed → Type 0
Tells held p = (source : InputSource) (u : Button) → has_bit (held source) (code u) ≡ p source u

code-lt : (u : Button) → code u < 32
unfolding code
code-lt left = omega arith
code-lt _ = omega arith

pub has_bit-held_buttons :
    (held : Held) (p : Pressed) (u : Button)
    → Tells held p
    → has_bit (held_buttons held) (code u) ≡ anywhere p u
unfolding held_buttons
has_bit-held_buttons held p u t = ground (
  arith,
  has_bit-zero (code u),
  t core u,
  t nunchuk u,
  t classic_controller u,
  t pro_controller u,
  t drums u,
  t guitar u,
  has_bit-or 0 (held core) (code u),
  has_bit-or (bit_or 0 (held core)) (held nunchuk) (code u),
  has_bit-or (bit_or (bit_or 0 (held core)) (held nunchuk)) (held classic_controller) (code u),
  has_bit-or (bit_or (bit_or (bit_or 0 (held core)) (held nunchuk)) (held classic_controller))
      (held pro_controller) (code u),
  has_bit-or
      (bit_or (bit_or (bit_or (bit_or 0 (held core)) (held nunchuk)) (held classic_controller))
        (held pro_controller))
      (held drums) (code u),
  has_bit-or
      (bit_or
        (bit_or (bit_or (bit_or (bit_or 0 (held core)) (held nunchuk)) (held classic_controller))
          (held pro_controller))
        (held drums))
      (held guitar) (code u),
)

abbrev is_down : ButtonState → Bool
is_down released = false
is_down pressed = true
is_down repeated = true

has_bit-next_mask :
    (mask : ℕ) (button u : Button) (state : ButtonState)
    → has_bit (next_mask mask button state) (code u)
      ≡ (if code button == code u then is_down state else has_bit mask (code u))
unfolding next_mask
has_bit-next_mask mask button u released =
    ground (arith, has_bit-clear mask (code button) (code u) (code-lt button) (code-lt u))
has_bit-next_mask mask button u pressed = ground (arith, has_bit-set mask (code button) (code u))
has_bit-next_mask mask button u repeated = ground (arith, has_bit-set mask (code button) (code u))

-- A transition of one button on one source.
unfoldable pub press : Pressed → InputSource → Button → ButtonState → Pressed
press p source button state s u =
    if index source == index s
    then (if code button == code u then is_down state else p s u)
    else p s u

pub same_source : (s t : InputSource) → (index s == index t) ≡ true → s ≡ t
unfolding index
same_source core core _ = refl
same_source nunchuk nunchuk _ = refl
same_source classic_controller classic_controller _ = refl
same_source pro_controller pro_controller _ = refl
same_source drums drums _ = refl
same_source guitar guitar _ = refl
same_source _ _ h = ground arith

has_bit-if :
    (d : Bool) (m n k : ℕ) (x y : Bool)
    → (d ≡ true → has_bit m k ≡ x)
    → has_bit n k ≡ y
    → has_bit (if d then m else n) k ≡ (if d then x else y)
has_bit-if true m n k x y h l = h refl
has_bit-if false m n k x y h l = l

pub write-Tells :
    (held : Held) (p : Pressed) (source : InputSource) (button : Button) (state : ButtonState)
    → Tells held p
    → Tells (write held source (next_mask (held source) button state)) (press p source button state)
unfolding write press
write-Tells held p source button state t s u =
    has_bit-if (index source == index s) (next_mask (held source) button state) (held s) (code u)
      (if code button == code u then is_down state else p s u) (p s u)
      (λ same.
        has_bit-next_mask (held source) button u state
        ∙ ap (λ x. if code button == code u then is_down state else x)
            (t source u ∙ ap (λ x. p x u) (same_source source s same)))
      (t s u)
