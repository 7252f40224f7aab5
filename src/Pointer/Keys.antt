-- ===== src/Pointer/Keys.antt =====
-- The D-pad velocity of crates/wiiland-core/src/pointer.rs.
use wiiland.Prelude.{
  ℕ, ◌<◌, ◌≡◌, refl, arith, Bool, true, false, ◌&&◌, ◌==◌, if◌then◌else◌, ltb, ltb→lt, same,
  eq_of_same, and_parts, ◌^◌,
}
use wiiland.Prelude.Lists.{every_below, every_below_at}
use wiiland.Prelude.Int.{ℤ, pos, neg, ◌+ℤ◌, ◌-ℤ◌}
use wiiland.Prelude.Width.{wrap_i32}
use wiiland.Pointer.{
  PointerState, pointer_left, pointer_right, pointer_up, pointer_down, has_key, axis_velocity,
  next_keys, update_key, tick,
}

-- What a key event does to the mask, for key `i` and an observed key `j` of the four.
abbrev key_law : ℕ → ℕ → Bool → ℕ → Bool
key_law i j pressed keys =
    let after = next_keys keys (2 ^ i) pressed in
    ltb after 16 && same (has_key after (2 ^ j)) (if i == j then pressed else has_key keys (2 ^ j))

abbrev both_states : ℕ → ℕ → ℕ → Bool
both_states i j keys = key_law i j true keys && key_law i j false keys

abbrev law_table : ℕ → Bool
law_table i = every_below (λ j. every_below (both_states i j) 16) 4

table : every_below law_table 4 ≡ true
unfolding every_below next_keys
table = refl

key_law_holds :
    (i j keys : ℕ) (pressed : Bool) → i < 4 → j < 4 → keys < 16 → key_law i j pressed keys ≡ true
key_law_holds i j keys pressed hi hj hk = either pressed (and_parts _ _ row)
  where
    row : both_states i j keys ≡ true
    row = every_below_at (both_states i j) 16 keys hk (
        every_below_at (λ k. every_below (both_states i k) 16) 4 j hj
          (every_below_at law_table 4 i hi table))

    either :
        (b : Bool)
        → (key_law i j true keys ≡ true) × (key_law i j false keys ≡ true)
        → key_law i j b keys ≡ true
    either true h = h.0
    either false h = h.1

-- A key event sets the state of its own key and of no other, and the mask keeps to its four bits.
pub update_key-pointer_keys :
    (s : PointerState) (i j : ℕ) (pressed : Bool)
    → i < 4
    → j < 4
    → s.pointer_keys < 16
    → let keys = (update_key s (2 ^ i) pressed).0.pointer_keys in
      (keys < 16)
      × (has_key keys (2 ^ j) ≡ (if i == j then pressed else has_key s.pointer_keys (2 ^ j)))
unfolding update_key
update_key-pointer_keys s i j pressed hi hj hk =
    let (small, observed) = and_parts _ _ (key_law_holds i j s.pointer_keys pressed hi hj hk) in
    (ltb→lt _ _ small, eq_of_same _ _ observed)

-- The velocity along one axis: against, along, or none if both keys or neither are held.
abbrev pub direction : Bool → Bool → ℤ → ℤ
direction back forward speed =
    if back then (if forward then pos 0 else neg speed) else (if forward then speed else pos 0)

axis_velocity-direction :
    (back forward : Bool) (n : ℕ)
    → n < 2147483648
    → axis_velocity back forward (pos n) ≡ direction back forward (pos n)
unfolding axis_velocity wrap_i32 neg ◌+ℤ◌ ◌-ℤ◌
axis_velocity-direction true true n h = ground arith
axis_velocity-direction true false n h = ground arith
axis_velocity-direction false true n h = ground arith
axis_velocity-direction false false n h = refl

-- After a key event, and at each tick until the next, the pointer moves on each axis by the speed
-- against, along or not at all, as exactly the one, exactly the other, or neither or both of the
-- axis's two keys are held.
pub tick-update_key :
    (s : PointerState) (bit n : ℕ) (pressed : Bool)
    → s.speed ≡ pos n
    → n < 2147483648
    → let t = (update_key s bit pressed).0 in
      let held = has_key t.pointer_keys in
      (tick t ≡ (update_key s bit pressed).1)
      × ((tick t).dx ≡ direction (held pointer_left) (held pointer_right) s.speed)
      × ((tick t).dy ≡ direction (held pointer_up) (held pointer_down) s.speed)
unfolding update_key tick
tick-update_key s bit n pressed e h =
    (refl, rw e (axis_velocity-direction _ _ n h), rw e (axis_velocity-direction _ _ n h))
