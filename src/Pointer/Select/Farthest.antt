-- ===== src/Pointer/Select/Farthest.antt =====
-- The dual mode finds a pair that lies farthest apart (crates/wiiland-core/src/pointer.rs).
use mathlib.Core.List.{Memᴰ}
use wiiland.Prelude.{
  ℕ, suc, ◌*◌, ◌≤◌, ◌<◌, ◌≡◌, refl, arith, true, List, [], ◌∷◌, Bool-cases, inl, inr,
}
use wiiland.Prelude.Lists.{All, All-map, All-mem}
use wiiland.Prelude.Int.{
  ℤ, pos, negsuc, pos_part, neg_part, ltb_ℤ, ◌≤ℤ◌, ◌+ℤ◌, ◌-ℤ◌, ◌*ℤ◌, +ℤ_parts, tdiv,
}
use wiiland.Prelude.Width.{IsI32, wrap_i32-eq, wrap_i64-eq, sub_i64-eq, mul_i64-eq, magnitude}
use wiiland.Pointer.Select.{
  IrPoint, distance, Pair, better, against, all_pairs, midpoint, dual_point,
}

-- The squared distance in exact arithmetic.
abbrev pub squared : IrPoint → IrPoint → ℤ
squared p q = (p.x -ℤ q.x) *ℤ (p.x -ℤ q.x) +ℤ (p.y -ℤ q.y) *ℤ (p.y -ℤ q.y)

-- Coordinates whose squared distances fit an `i64`.
abbrev Coordinate : ℤ → Type 0
Coordinate v = (negsuc 1073741823 ≤ℤ v) × (v ≤ℤ pos 1073741823)

abbrev IsNear : IrPoint → Type 0
IsNear p = Coordinate p.x × Coordinate p.y

square_le : (n : ℕ) → n ≤ 2147483647 → n * n ≤ 2147483647 * 2147483647
square_le n h = grind arith

square_small :
    (a : ℤ)
    → magnitude a ≤ 2147483647
    → (neg_part (a *ℤ a) ≡ 0) × (pos_part (a *ℤ a) < 4611686018427387904)
unfolding ◌*ℤ◌
square_small (pos n) h = ground (arith, square_le n h)
square_small (negsuc n) h = ground (arith, square_le (suc n) h)

difference_small : (a b : ℤ) → Coordinate a → Coordinate b → magnitude (a -ℤ b) ≤ 2147483647
unfolding ◌-ℤ◌
difference_small a b h k = ground arith

IsI32-of_small : (a : ℤ) → magnitude a ≤ 2147483647 → IsI32 a
IsI32-of_small a h = ground arith

-- On such points the code's distance is the exact one, and is not negative.
distance-squared :
    (p q : IrPoint) → IsNear p → IsNear q → (distance p q ≡ squared p q) × (negsuc 0 ≤ℤ squared p q)
unfolding distance
distance-squared p q h k =
    let dx = p.x -ℤ q.x in
    let dy = p.y -ℤ q.y in
    let mx = difference_small p.x q.x h.0 k.0 in
    let my = difference_small p.y q.y h.1 k.1 in
    let sx = square_small dx mx in
    let sy = square_small dy my in
    (
      rw (sub_i64-eq p.x q.x (omega arith) (omega arith)) (
          rw (sub_i64-eq p.y q.y (omega arith) (omega arith)) (
            rw (mul_i64-eq dx dx (IsI32-of_small dx mx) (IsI32-of_small dx mx)) (
              rw (mul_i64-eq dy dy (IsI32-of_small dy my) (IsI32-of_small dy my))
                (wrap_i64-eq _ (omega (arith, +ℤ_parts (dx *ℤ dx) (dy *ℤ dy))))))),
      omega (arith, +ℤ_parts (dx *ℤ dx) (dy *ℤ dy)),
    )

-- Every two elements, in their order.
abbrev pub AllPairs {ℓ κ} : {A : Type ℓ} → (A → A → Type κ) → List A → Type κ
AllPairs P [] = Unit
AllPairs P (p ∷ rest) = All (P p) rest × AllPairs P rest

le_trans_ℤ : (a b c : ℤ) → a ≤ℤ b → b ≤ℤ c → a ≤ℤ c
le_trans_ℤ a b c h k = omega arith

raise :
    (m n : ℤ) (qs : List IrPoint)
    → m ≤ℤ n
    → AllPairs (λ p q. squared p q ≤ℤ m) qs
    → AllPairs (λ p q. squared p q ≤ℤ n) qs
raise m n [] h k = tt
raise m n (p ∷ rest) h k = (
  All-map _ (λ q. squared p q ≤ℤ n) rest (λ q j. le_trans_ℤ (squared p q) m n j h) k.0,
  raise m n rest h k.1,
)

module _ (ps : List IrPoint) where
  -- A pair of points of the list whose recorded distance is not above its own.
  record Kept (r : Pair) : Type 0 where
    a_of : Memᴰ r.a ps
    b_of : Memᴰ r.b ps
    honest : r.best ≤ℤ distance r.a r.b

  better-Kept :
      (r : Pair) (p q : IrPoint)
      → Memᴰ p ps
      → Memᴰ q ps
      → Kept r
      → Kept (better r p q)
        × (r.best ≤ℤ (better r p q).best)
        × (distance p q ≤ℤ (better r p q).best)
  unfolding better
  better-Kept r p q mp mq k = elim (Bool-cases (ltb_ℤ r.best (distance p q))) [
    | inl e ↦
        rw e (record { a_of = mp; b_of = mq; honest = omega arith }, ground arith, ground arith)
    | inr e ↦ rw e (k, ground arith, ground arith)
  ]

  -- What a loop from `r` to `t` does about the points `p` and `rest`.
  record Scanned (r t : Pair) (p : IrPoint) (rest : List IrPoint) : Type 0 where
    kept : Kept t
    raised : r.best ≤ℤ t.best
    beaten : All (λ q. distance p q ≤ℤ t.best) rest

  against-Scanned :
      (r : Pair) (p : IrPoint) (rest : List IrPoint)
      → Memᴰ p ps
      → All (λ q. Memᴰ q ps) rest
      → Kept r
      → Scanned r (against r p rest) p rest
  unfolding against
  against-Scanned r p [] mp mr k = record { kept = k; raised = ground arith; beaten = tt }
  against-Scanned r p (q ∷ rest) mp mr k =
      let step = better-Kept r p q mp mr.0 k in
      let later = against-Scanned (better r p q) p rest mp mr.1 step.0 in
      record { kept = later.kept; raised = ground arith; beaten = (ground arith, later.beaten) }

  all_pairs-Kept :
      (r : Pair) (qs : List IrPoint)
      → All (λ q. Memᴰ q ps) qs
      → Kept r
      → Kept (all_pairs r qs)
        × (r.best ≤ℤ (all_pairs r qs).best)
        × AllPairs (λ p q. distance p q ≤ℤ (all_pairs r qs).best) qs
  unfolding all_pairs
  all_pairs-Kept r [] m k = (k, ground arith, tt)
  all_pairs-Kept r (p ∷ rest) m k =
      let s = against-Scanned r p rest m.0 m.1 k in
      let later = all_pairs-Kept (against r p rest) rest m.1 s.kept in
      let best = (all_pairs (against r p rest) rest).best in
      (
        later.0,
        le_trans_ℤ r.best (against r p rest).best best s.raised later.1,
        (
          All-map _ (λ q. distance p q ≤ℤ best) rest
              (λ q h. le_trans_ℤ (distance p q) (against r p rest).best best h later.1) s.beaten,
          later.2,
        ),
      )

exact_pairs :
    (m : ℤ) (qs : List IrPoint)
    → All IsNear qs
    → AllPairs (λ p q. distance p q ≤ℤ m) qs
    → AllPairs (λ p q. squared p q ≤ℤ m) qs
exact_pairs m [] n h = tt
exact_pairs m (p ∷ rest) n h = (one rest n.1 h.0, exact_pairs m rest n.1 h.1)
  where
    one :
        (rs : List IrPoint)
        → All IsNear rs
        → All (λ q. distance p q ≤ℤ m) rs
        → All (λ q. squared p q ≤ℤ m) rs
    one [] i j = tt
    one (q ∷ rs) i j = (rw (← (distance-squared p q n.0 i.0).0) j.0, one rs i.1 j.1)

members : (ps : List IrPoint) → All (λ q. Memᴰ q ps) ps
members [] = tt
members (p ∷ rest) =
    (Memᴰ.head refl, All-map _ (λ q. Memᴰ q (p ∷ rest)) rest (λ q m. Memᴰ.tail m) (members rest))

-- The point half way between two points, each coordinate rounded toward zero.
abbrev pub half_way : IrPoint → IrPoint → IrPoint
half_way a b = record { valid = true; x = tdiv (a.x +ℤ b.x) (pos 2); y = tdiv (a.y +ℤ b.y) (pos 2) }

midpoint-half_way : (a b : IrPoint) → IsNear a → IsNear b → midpoint a b ≡ half_way a b
unfolding midpoint
midpoint-half_way a b h k =
    rw
      (
        wrap_i32-eq (a.x +ℤ b.x) (omega (arith, +ℤ_parts a.x b.x)),
        wrap_i32-eq (a.y +ℤ b.y) (omega (arith, +ℤ_parts a.y b.y)),
      )
      refl

-- With two or more valid points the dual mode answers with the point half way between two of them,
-- and no two points of the frame lie farther apart, by the exact squared distance (coordinates
-- within 2 ^ 30).
pub dual_point-farthest :
    (p q : IrPoint) (rest : List IrPoint)
    → All IsNear (p ∷ q ∷ rest)
    → (a : IrPoint) × (b : IrPoint) × Memᴰ a (p ∷ q ∷ rest)
      × Memᴰ b (p ∷ q ∷ rest)
      × (dual_point p (q ∷ rest) ≡ half_way a b)
      × AllPairs (λ u v. squared u v ≤ℤ squared a b) (p ∷ q ∷ rest)
unfolding dual_point
dual_point-farthest p q rest n =
    let ps = p ∷ q ∷ rest in
    let start : Pair = record { a = p; b = q; best = negsuc 0 } in
    let d = distance-squared p q n.0 n.1.0 in
    let begin : Kept ps start = record {
      a_of = Memᴰ.head refl;
      b_of = Memᴰ.tail (Memᴰ.head refl);
      honest = rw d.0 d.1;
    } in
    let r = all_pairs start ps in
    let k = all_pairs-Kept ps start ps (members ps) begin in
    let near_a = All-mem IsNear ps k.0.a_of n in
    let near_b = All-mem IsNear ps k.0.b_of n in
    let honest : r.best ≤ℤ squared r.a r.b =
      rw (← (distance-squared r.a r.b near_a near_b).0) k.0.honest in
    (
      r.a,
      r.b,
      k.0.a_of,
      k.0.b_of,
      midpoint-half_way r.a r.b near_a near_b,
      raise r.best (squared r.a r.b) ps honest (exact_pairs r.best ps n k.2),
    )
