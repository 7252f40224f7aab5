-- ===== src/Prelude/Blend.antt =====
-- The weighted mean of two readings, as the pointer and the aim smooth them: `previous` has the
-- weight `smoothing`, in percent, and `current` the rest.
use Prim.Native.Nat.{ℕ, ◌+◌, ◌-◌, ◌*◌, ◌≤◌}
use mathlib.Core.Path.{◌≡◌, ap, ◌∙◌}
use native.Mathlib.Omega.{arith}
use wiiland.Prelude.Int.{
  ℤ, pos, negsuc, pos_part, neg_part, ◌+ℤ◌, ◌-ℤ◌, ◌*ℤ◌, +ℤ_parts, -ℤ_parts, tdiv, ◌≤ℤ◌, Within,
  eq_of_parts,
}
use wiiland.Prelude.Width.{
  wrap_i32, wrap_i32-eq, wrap_i64-eq, add_i64, mul_i64, mul_i64-eq, sub_i32, div_i32,
}
use wiiland.Prelude.Mean.{AtLeast, AtMost, mean_at_least, mean_at_most}

-- The products and the sum are `i64`; the cast to `i32` comes before the division.
abbrev pub blend : ℤ → ℤ → ℤ → ℤ
blend previous current smoothing =
    div_i32
      (wrap_i32
        (add_i64 (mul_i64 previous smoothing) (mul_i64 current (sub_i32 (pos 100) smoothing))))
      (pos 100)

-- The bound below which the cast to `i32` loses nothing.
abbrev pub IsBlendable : ℤ → Type 0
IsBlendable = Within (negsuc 21474835) (pos 21474836)

times_parts :
    (a : ℤ) (n : ℕ)
    → (pos_part (a *ℤ pos n) ≡ pos_part a * n) × (neg_part (a *ℤ pos n) ≡ neg_part a * n)
unfolding ◌*ℤ◌
times_parts (pos a) n = ground arith
times_parts (negsuc a) n = ground arith

times_mono : (x y n : ℕ) → x ≤ y → x * n ≤ y * n
times_mono x y n h = grind arith

weigh : (a b c d n : ℕ) → a + b ≤ c + d → a * n + b * n ≤ c * n + d * n
weigh a b c d n h = omega (arith, times_mono (a + b) (c + d) n h)

abbrev weighted : ℤ → ℤ → ℕ → ℕ → ℤ
weighted previous current n m = previous *ℤ pos n +ℤ current *ℤ pos m

weighted-AtLeast :
    (lo a b : ℤ) (n m : ℕ) → n + m ≡ 100 → lo ≤ℤ a → lo ≤ℤ b → AtLeast 100 lo (weighted a b n m)
weighted-AtLeast lo a b n m e h k = omega (
  arith,
  e,
  +ℤ_parts (a *ℤ pos n) (b *ℤ pos m),
  times_parts a n,
  times_parts b m,
  weigh (pos_part lo) (neg_part a) (pos_part a) (neg_part lo) n h,
  weigh (pos_part lo) (neg_part b) (pos_part b) (neg_part lo) m k,
  ap (λ (t : ℕ). t * pos_part lo) e,
  ap (λ (t : ℕ). t * neg_part lo) e,
)

weighted-AtMost :
    (hi a b : ℤ) (n m : ℕ) → n + m ≡ 100 → a ≤ℤ hi → b ≤ℤ hi → AtMost 100 hi (weighted a b n m)
weighted-AtMost hi a b n m e h k = omega (
  arith,
  e,
  +ℤ_parts (a *ℤ pos n) (b *ℤ pos m),
  times_parts a n,
  times_parts b m,
  weigh (pos_part a) (neg_part hi) (pos_part hi) (neg_part a) n h,
  weigh (pos_part b) (neg_part hi) (pos_part hi) (neg_part b) m k,
  ap (λ (t : ℕ). t * pos_part hi) e,
  ap (λ (t : ℕ). t * neg_part hi) e,
)

complement_percent : (n : ℕ) → n ≤ 100 → sub_i32 (pos 100) (pos n) ≡ pos (100 - n)
complement_percent n h =
    wrap_i32-eq (pos 100 -ℤ pos n) (omega (arith, -ℤ_parts (pos 100) (pos n)))
    ∙ eq_of_parts _ _ (omega (arith, -ℤ_parts (pos 100) (pos n)))

blend-exact :
    (a b : ℤ) (n : ℕ)
    → n ≤ 100
    → IsBlendable a
    → IsBlendable b
    → blend a b (pos n) ≡ tdiv (weighted a b n (100 - n)) (pos 100)
blend-exact a b n h i j =
    let least = weighted-AtLeast (negsuc 21474835) a b n (100 - n) (omega arith) i.0 j.0 in
    let most = weighted-AtMost (pos 21474836) a b n (100 - n) (omega arith) i.1 j.1 in
    rw (complement_percent n h) (
      rw (mul_i64-eq a (pos n) (omega arith) (omega arith)) (
        rw (mul_i64-eq b (pos (100 - n)) (omega arith) (omega arith)) (
          rw (wrap_i64-eq (weighted a b n (100 - n)) (omega arith))
            (rw (wrap_i32-eq (weighted a b n (100 - n)) (omega arith))))))

-- Smoothing stays between: the result lies in every range that holds both readings.
pub blend-Within :
    (lo hi a b : ℤ) (n : ℕ)
    → n ≤ 100
    → IsBlendable lo
    → IsBlendable hi
    → Within lo hi a
    → Within lo hi b
    → Within lo hi (blend a b (pos n))
blend-Within lo hi a b n h i j k l = rw (blend-exact a b n h (omega arith) (omega arith)) (
  mean_at_least 100 lo _ (omega arith) (weighted-AtLeast lo a b n (100 - n) (omega arith) k.0 l.0),
  mean_at_most 100 hi _ (omega arith) (weighted-AtMost hi a b n (100 - n) (omega arith) k.1 l.1),
)
