-- ===== src/Mapping/Keys.antt =====
-- Buttons and the declared keys of the virtual controller (crates/wiiland-core/src/mapping.rs).
use wiiland.Prelude.{
  ℕ, ◌≡◌, refl, sym, ap, ◌∙◌, true, List, [], ◌∷◌, Option, none, some, ◌==◌, if◌then◌else◌,
}
use wiiland.Prelude.Lists.{any, All}
use wiiland.Input.{
  Button, left, right, up, down, plus, minus, one, two, a, b, home, c, z, x, y, shoulder_left,
  shoulder_right, trigger_left, trigger_right, thumb_left, thumb_right, strum_bar_up,
  strum_bar_down, fret_far_up, fret_up, fret_mid, fret_low, fret_far_low, all,
}
use wiiland.Mapping.Codes.{map_button, core_keys}

-- The first button of a list that is mapped to a key.
owner_among : ℕ → List Button → Option Button
owner_among key [] = none
owner_among key (u ∷ rest) = if map_button u == key then some u else owner_among key rest

owner : ℕ → Option Button
unfolding owner_among
owner key = owner_among key all

owner-map_button : (u : Button) → owner (map_button u) ≡ some u
unfolding owner map_button
owner-map_button left = refl
owner-map_button _ = refl

is_declared : (u : Button) → any (λ k. map_button u == k) core_keys ≡ true
unfolding map_button
is_declared left = refl
is_declared _ = refl

some-injective : (u v : Button) → some u ≡ some v → u ≡ v
some-injective u v e = cc

-- Each button has a key of its own: the key is declared by the virtual controller, and two buttons
-- with one key are the same button.
pub map_button-injective :
    (u v : Button)
    → (any (λ k. map_button u == k) core_keys ≡ true) × (map_button u ≡ map_button v → u ≡ v)
map_button-injective u v = (
  is_declared u,
  λ e. some-injective u v (sym (owner-map_button u) ∙ ap owner e ∙ owner-map_button v),
)

abbrev IsMapped : ℕ → Type 0
IsMapped key = (u : Button) × (map_button u ≡ key)

-- Every key that the virtual controller declares is the key of some button.
core_keys-IsMapped : All IsMapped core_keys
unfolding map_button
core_keys-IsMapped = (
  (left, refl),
  (
    (right, refl),
    (
      (up, refl),
      (
        (down, refl),
        (
          (a, refl),
          (
            (b, refl),
            (
              (x, refl),
              (
                (y, refl),
                (
                  (plus, refl),
                  (
                    (minus, refl),
                    (
                      (home, refl),
                      (
                        (one, refl),
                        (
                          (two, refl),
                          (
                            (shoulder_left, refl),
                            (
                              (shoulder_right, refl),
                              (
                                (trigger_left, refl),
                                (
                                  (trigger_right, refl),
                                  (
                                    (thumb_left, refl),
                                    (
                                      (thumb_right, refl),
                                      (
                                        (c, refl),
                                        (
                                          (z, refl),
                                          (
                                            (strum_bar_up, refl),
                                            (
                                              (strum_bar_down, refl),
                                              (
                                                (fret_far_up, refl),
                                                (
                                                  (fret_up, refl),
                                                  (
                                                    (fret_mid, refl),
                                                    ((fret_low, refl), ((fret_far_low, refl), tt)),
                                                  ),
                                                ),
                                              ),
                                            ),
                                          ),
                                        ),
                                      ),
                                    ),
                                  ),
                                ),
                              ),
                            ),
                          ),
                        ),
                      ),
                    ),
                  ),
                ),
              ),
            ),
          ),
        ),
      ),
    ),
  ),
)
