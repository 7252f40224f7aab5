-- ===== src/Aim/Scale.antt =====
-- How the aim scales a reading (crates/wiiland-core/src/aim.rs).
use native.Mathlib.Decide.{dec_le}
use wiiland.Prelude.{ℕ, suc, ◌-◌, ◌*◌, ◌/◌, ◌≤◌, ◌<◌, ◌≡◌, ◌∙◌, arith, min}
use wiiland.Prelude.Int.{
  ℤ, pos, negsuc, pos_part, neg_part, ◌-ℤ◌, -ℤ_parts, tdiv, min_ℤ, eq_of_parts, neg, pos-*ℤ-pos,
  tdiv-pos,
}
use wiiland.Prelude.Width.{
  IsI32, wrap_i32, wrap_i64-eq, magnitude, mul_i64, mul_i64_small, sub_i64, neg_i32,
}
use wiiland.Aim.State.{AimConfig}
use wiiland.Aim.{scaled_magnitude, scale}

capped : (n : ℕ) → wrap_i32 (min_ℤ (pos n) (pos 32767)) ≡ pos (min n 32767)
unfolding wrap_i32
capped n = ground arith

difference : (m d : ℕ) → m ≤ 2147483648 → d < m → sub_i64 (pos m) (pos d) ≡ pos (m - d)
difference m d h k =
    wrap_i64-eq (pos m -ℤ pos d) (omega (arith, -ℤ_parts (pos m) (pos d)))
    ∙ eq_of_parts _ _ (omega (arith, -ℤ_parts (pos m) (pos d)))

scaled_magnitude-eq :
    (m d s : ℕ)
    → m ≤ 2147483648
    → d < m
    → s ≤ 127
    → wrap_i32 (min_ℤ (tdiv (mul_i64 (sub_i64 (pos m) (pos d)) (pos s)) (pos 16)) (pos 32767))
      ≡ pos (min ((m - d) * s / 16) 32767)
scaled_magnitude-eq m d s h k l = rw (difference m d h k) (
    rw (mul_i64_small (pos (m - d)) (pos s) (omega arith) (omega arith))
      (rw (pos-*ℤ-pos (m - d) s) (rw (tdiv-pos ((m - d) * s) 16) (capped ((m - d) * s / 16)))))

-- The strength of a reading beyond the deadzone `d`, in exact arithmetic.
abbrev pub strength : ℕ → ℕ → ℕ → ℕ
strength d s m = min ((m - d) * s / 16) 32767

strength-zero : (d s m : ℕ) → m ≤ d → strength d s m ≡ 0
strength-zero d s m h = let none_left : m - d ≡ 0 = omega arith in rw none_left (omega arith)

scaled_magnitude-strength :
    (config : AimConfig) (d s : ℕ) (value : ℤ)
    → config.deadzone ≡ pos d
    → config.sensitivity ≡ pos s
    → s ≤ 127
    → magnitude value ≤ 2147483648
    → d < magnitude value
    → scaled_magnitude config value ≡ pos (strength d s (magnitude value))
unfolding scaled_magnitude
scaled_magnitude-strength config d s value ed es l h k =
    rw ed (rw es (scaled_magnitude-eq (magnitude value) d s h k l))

neg_i32_small : (n : ℕ) → n ≤ 32767 → neg_i32 (pos n) ≡ neg (pos n)
unfolding neg wrap_i32
neg_i32_small n h = ground arith

-- With a sensitivity of at most 127, a reading is scaled by its strength and keeps its sign.
pub scale-strength :
    (config : AimConfig) (d s : ℕ) (value : ℤ)
    → config.deadzone ≡ pos d
    → config.sensitivity ≡ pos s
    → s ≤ 127
    → IsI32 value
    → (pos_part (scale config value) ≡ strength d s (pos_part value))
      × (neg_part (scale config value) ≡ strength d s (neg_part value))
unfolding scale neg wrap_i32
scale-strength config d s (pos v) ed es l h = elim (dec_le v d) [
  | yes k ↦ ground (arith, strength-zero d s v k, strength-zero d s 0)
  | no k ↦ ground (
    arith,
    strength-zero d s 0,
    scaled_magnitude-strength config d s (pos v) ed es l (omega arith) (omega arith),
  )
]
scale-strength config d s (negsuc v) ed es l h = elim (dec_le (suc v) d) [
  | yes k ↦ ground (arith, strength-zero d s (suc v) k, strength-zero d s 0)
  | no k ↦ ground (
    arith,
    strength-zero d s 0,
    scaled_magnitude-strength config d s (negsuc v) ed es l (omega arith) (omega arith),
  )
]
