-- ===== src/Hid/Recovery/Count.antt =====
-- How many of the key codes below a bound have a property.
use wiiland.Prelude.{
  ℕ, zero, suc, ◌≤◌, ◌<◌, ◌≡◌, refl, ap, ◌∙◌, arith, Bool, true, false, not, ◌&&◌, ◌==◌, inl, inr,
  if_cases, Bool-cases, if◌then◌else◌,
}

unfoldable pub count_below : (ℕ → Bool) → ℕ → ℕ
count_below p zero = 0
count_below p (suc n) = let rest = count_below p n in if p n then suc rest else rest

pub count_below_le : (p : ℕ → Bool) (n : ℕ) → count_below p n ≤ n
unfolding count_below
count_below_le p zero = omega arith
count_below_le p (suc n) = ground (arith, count_below_le p n)

pub count_below_zero : (p : ℕ → Bool) (n k : ℕ) → count_below p n ≡ 0 → k < n → p k ≡ false
unfolding count_below
count_below_zero p zero k h l = absurd (omega arith)
count_below_zero p (suc n) k h l =
    if_cases (λ c. c ≡ 0 → p k ≡ false) (p n) (suc (count_below p n)) (count_below p n)
      (λ top e. absurd (omega arith))
      (λ out e. elim (Bool-cases (k == n)) [
        | inl here ↦ ap p (ground arith) ∙ out
        | inr away ↦ count_below_zero p n k e (ground arith)
      ])
      h

pub count_same :
    (p q : ℕ → Bool) (n : ℕ) → ((k : ℕ) → k < n → q k ≡ p k) → count_below q n ≡ count_below p n
unfolding count_below
count_same p q zero h = refl
count_same p q (suc n) h =
    rw (h n (omega arith)) (rw (count_same p q n (λ k l. h k (omega arith))) refl)

pub count_remove :
    (p q : ℕ → Bool) (n c : ℕ)
    → c < n
    → p c ≡ true
    → ((k : ℕ) → k < n → q k ≡ p k && not (k == c))
    → count_below p n ≡ suc (count_below q n)
unfolding count_below
count_remove p q zero c l e h = absurd (omega arith)
count_remove p q (suc n) c l e h = elim (Bool-cases (c == n)) [
  | inl here ↦
      let top : p n ≡ true = ap p (ground arith) ∙ e in
      let rest = count_same p q n (λ k m. ground (arith, h k (omega arith))) in
      ground (arith, h n (omega arith))
  | inr away ↦
      let rest = count_remove p q n c (ground arith) e (λ k m. h k (omega arith)) in
      ground (arith, h n (omega arith))
]
