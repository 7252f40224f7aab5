-- ===== src/Pointer/Select/Box.antt =====
-- Where the chosen IR point lies (crates/wiiland-core/src/pointer.rs).
use native.Mathlib.Nat.{add-zero}
use mathlib.Core.List.{Memᴰ}
use wiiland.Prelude.{
  ℕ, suc, ◌+◌, ◌≤◌, ◌<◌, ◌≡◌, refl, subst, arith, Bool, true, false, if◌then◌else◌, List, [], ◌∷◌,
  Option, none, some, Bool-cases, inl, inr, ◌≢◌,
}
use wiiland.Prelude.Lists.{length, All}
use wiiland.Prelude.Int.{ℤ, pos, negsuc, ltb_ℤ, ◌+ℤ◌, +ℤ_parts, tdiv, Within, ◌≤ℤ◌}
use wiiland.Prelude.Width.{wrap_i32-eq, add_i32, add_i64}
use wiiland.Prelude.Mean.{Sums, Sums-add, Sums-mean, mean_at_least, mean_at_most}
use wiiland.Config.Types.{IrTracking, first, centroid, dual}
use wiiland.Pointer.Select.{
  IrPoint, IrFrame, points, valid_points, Sum, sum_from, mean_point, Pair, better, against,
  all_pairs, distance, midpoint, dual_point, choose, select_ir_point,
}

-- A range whose values leave room for the sum of two of them.
abbrev IsRoomy : ℤ → ℤ → Type 0
IsRoomy lo hi = (negsuc 1073741823 ≤ℤ lo) × (lo ≤ℤ hi) × (hi ≤ℤ pos 1073741823)

-- A box: one range for each coordinate.
pub record Box : Type 0 where
  pub left : ℤ
  pub right : ℤ
  pub top : ℤ
  pub bottom : ℤ

abbrev IsFrameBox : Box → Type 0
IsFrameBox b = IsRoomy b.left b.right × IsRoomy b.top b.bottom

abbrev InBox : Box → IrPoint → Type 0
InBox b p = Within b.left b.right p.x × Within b.top b.bottom p.y

half-Within :
    (lo hi a b : ℤ)
    → IsRoomy lo hi
    → Within lo hi a
    → Within lo hi b
    → Within lo hi (tdiv (add_i32 a b) (pos 2))
half-Within lo hi a b box h k =
    let exact : add_i32 a b ≡ a +ℤ b = wrap_i32-eq (a +ℤ b) (omega (arith, +ℤ_parts a b)) in
    rw exact (
      mean_at_least 2 lo (a +ℤ b) (omega arith) (omega (arith, +ℤ_parts a b)),
      mean_at_most 2 hi (a +ℤ b) (omega arith) (omega (arith, +ℤ_parts a b)),
    )

none_yet : (lo hi : ℤ) → Sums 0 lo hi (pos 0)
none_yet lo hi = record { low = omega arith; high = omega arith; small = omega arith }

module _ (b : Box) (box : IsFrameBox b) where
  midpoint-InBox : (p q : IrPoint) → InBox b p → InBox b q → InBox b (midpoint p q)
  unfolding midpoint
  midpoint-InBox p q h k = (
    half-Within b.left b.right p.x q.x box.0 h.0 k.0,
    half-Within b.top b.bottom p.y q.y box.1 h.1 k.1,
  )

  abbrev PairInBox : Pair → Type 0
  PairInBox r = InBox b r.a × InBox b r.b

  better-PairInBox :
      (r : Pair) (p q : IrPoint) → PairInBox r → InBox b p → InBox b q → PairInBox (better r p q)
  unfolding better
  better-PairInBox r p q a h k = elim (Bool-cases (ltb_ℤ r.best (distance p q))) [
    | inl e ↦ rw e (h, k)
    | inr e ↦ rw e a
  ]

  against-PairInBox :
      (r : Pair) (p : IrPoint) (rest : List IrPoint)
      → PairInBox r
      → InBox b p
      → All (InBox b) rest
      → PairInBox (against r p rest)
  unfolding against
  against-PairInBox r p [] a h k = a
  against-PairInBox r p (q ∷ rest) a h k =
      against-PairInBox (better r p q) p rest (better-PairInBox r p q a h k.0) h k.1

  all_pairs-PairInBox :
      (r : Pair) (ps : List IrPoint) → PairInBox r → All (InBox b) ps → PairInBox (all_pairs r ps)
  unfolding all_pairs
  all_pairs-PairInBox r [] a h = a
  all_pairs-PairInBox r (p ∷ rest) a h =
      all_pairs-PairInBox (against r p rest) rest (against-PairInBox r p rest a h.0 h.1) h.1

  dual-InBox :
      (p : IrPoint) (rest : List IrPoint) → All (InBox b) (p ∷ rest) → InBox b (dual_point p rest)
  unfolding dual_point
  dual-InBox p [] h = h.0
  dual-InBox p (q ∷ rest) h =
      let r = all_pairs (record { a = p; b = q; best = negsuc 0 }) (p ∷ q ∷ rest) in
      let inside =
        all_pairs-PairInBox (record { a = p; b = q; best = negsuc 0 }) (p ∷ q ∷ rest) (h.0, h.1.0)
          h in
      midpoint-InBox r.a r.b inside.0 inside.1

  sum_from-Sums :
      (n : ℕ) (s : Sum) (ps : List IrPoint)
      → n + length ps ≤ 4
      → All (InBox b) ps
      → Sums n b.left b.right s.x
      → Sums n b.top b.bottom s.y
      → Sums (n + length ps) b.left b.right (sum_from s ps).x
        × Sums (n + length ps) b.top b.bottom (sum_from s ps).y
  unfolding sum_from
  sum_from-Sums n s [] room h sx sy = rw add-zero (sx, sy)
  sum_from-Sums n s (p ∷ rest) room h sx sy =
      let next : Sum = record { x = add_i64 s.x p.x; y = add_i64 s.y p.y } in
      let x' = Sums-add n b.left b.right s.x p.x (omega arith) (omega arith) h.0.0 sx in
      let y' = Sums-add n b.top b.bottom s.y p.y (omega arith) (omega arith) h.0.1 sy in
      let same : n + suc (length rest) ≡ suc n + length rest = omega arith in
      rw same (sum_from-Sums (suc n) next rest (omega arith) h.1 x' y')

  mean-InBox :
      (ps : List IrPoint)
      → 0 < length ps
      → length ps ≤ 4
      → All (InBox b) ps
      → InBox b (mean_point ps)
  unfolding mean_point
  mean-InBox ps some_point room h =
      let s =
        sum_from-Sums 0 (record { x = pos 0; y = pos 0 }) ps (omega arith) h
          (none_yet b.left b.right) (none_yet b.top b.bottom) in
      let from_zero : 0 + length ps ≡ length ps = omega arith in
      let sx =
        subst (λ m. Sums m b.left b.right (sum_from (record { x = pos 0; y = pos 0 }) ps).x)
          from_zero s.0 in
      let sy =
        subst (λ m. Sums m b.top b.bottom (sum_from (record { x = pos 0; y = pos 0 }) ps).y)
          from_zero s.1 in
      (
        Sums-mean (length ps) b.left b.right _ some_point (omega arith) (omega arith) sx,
        Sums-mean (length ps) b.top b.bottom _ some_point (omega arith) (omega arith) sy,
      )

-- Of the points of a frame none is valid, or some are and the answer lies in the box.
abbrev pub Chosen : Box → List IrPoint → Option IrPoint → Type 0
Chosen b ps none = All (λ p. p.valid ≡ false) ps
Chosen b ps (some p) = ((q : IrPoint) × Memᴰ q ps × (q.valid ≡ true)) × InBox b p

-- The same of the part of the array in use.
abbrev Picked : Box → List IrPoint → Option IrPoint → Type 0
Picked b ps none = ps ≡ []
Picked b ps (some p) = (ps ≢ []) × InBox b p

choose-Picked :
    (b : Box) (tracking : IrTracking) (ps : List IrPoint)
    → IsFrameBox b
    → length ps ≤ 4
    → All (InBox b) ps
    → Picked b ps (choose tracking ps)
unfolding choose
choose-Picked b first [] box room h = refl
choose-Picked b centroid [] box room h = refl
choose-Picked b dual [] box room h = refl
choose-Picked b first (p ∷ rest) box room h = ((λ e. cc), h.0)
choose-Picked b centroid (p ∷ rest) box room h =
    ((λ e. cc), mean-InBox b box (p ∷ rest) (omega arith) room h)
choose-Picked b dual (p ∷ rest) box room h = ((λ e. cc), dual-InBox b box p rest h)

-- Only valid points count: what holds of each of them holds of the part in use.
abbrev WhenValid : Box → IrPoint → Type 0
WhenValid b p = p.valid ≡ true → InBox b p

valid_points-All :
    (b : Box) (ps : List IrPoint) → All (WhenValid b) ps → All (InBox b) (valid_points ps)
valid_points-All b [] h = tt
valid_points-All b (p ∷ rest) h = elim (Bool-cases p.valid) [
  | inl e ↦ rw (e, valid_points) (h.0 e, valid_points-All b rest h.1)
  | inr e ↦ rw (e, valid_points) (valid_points-All b rest h.1)
]

valid_points-length : (ps : List IrPoint) → length (valid_points ps) ≤ length ps
valid_points-length [] = omega arith
valid_points-length (p ∷ rest) = ground (arith, valid_points-length rest)

-- The part in use is empty exactly when no point is valid.
empty_part : (ps : List IrPoint) → valid_points ps ≡ [] → All (λ p. p.valid ≡ false) ps
empty_part [] e = tt
empty_part (p ∷ rest) e = by_valid (λ f. empty_part rest f) p.valid refl e
  where
    by_valid :
        (valid_points rest ≡ [] → All (λ q. q.valid ≡ false) rest)
        → (v : Bool) → p.valid ≡ v
        → (if v then p ∷ valid_points rest else valid_points rest) ≡ []
        → All (λ q. q.valid ≡ false) (p ∷ rest)
    by_valid later true same f = absurd cc
    by_valid later false same f = (same, later f)

some_valid :
    (ps : List IrPoint) → valid_points ps ≢ [] → (q : IrPoint) × Memᴰ q ps × (q.valid ≡ true)
some_valid [] n = absurd (n refl)
some_valid (p ∷ rest) n = by_valid (λ m. some_valid rest m) p.valid refl n
  where
    by_valid :
        (valid_points rest ≢ [] → (q : IrPoint) × Memᴰ q rest × (q.valid ≡ true))
        → (v : Bool) → p.valid ≡ v
        → (if v then p ∷ valid_points rest else valid_points rest) ≢ []
        → (q : IrPoint) × Memᴰ q (p ∷ rest) × (q.valid ≡ true)
    by_valid later true same m = (p, Memᴰ.head refl, same)
    by_valid later false same m = let q = later m in (q.0, Memᴰ.tail q.1, q.2)

Picked-Chosen :
    (b : Box) (ps : List IrPoint) (answer : Option IrPoint)
    → Picked b (valid_points ps) answer
    → Chosen b ps answer
Picked-Chosen b ps none h = empty_part ps h
Picked-Chosen b ps (some p) h = (some_valid ps h.0, h.1)

-- Whatever the tracking mode, a frame without an answer has no valid point among its four, and a
-- frame with an answer has one; and the answer lies in any box that holds all the valid points, with
-- a range of its own for each coordinate (coordinates below 2 ^ 30 in magnitude).
pub select_ir_point-Chosen :
    (b : Box) (frame : IrFrame) (tracking : IrTracking)
    → IsFrameBox b
    → All (WhenValid b) (points frame)
    → Chosen b (points frame) (select_ir_point frame tracking)
unfolding select_ir_point
select_ir_point-Chosen b frame tracking box h =
    Picked-Chosen b (points frame) (select_ir_point frame tracking) (
      choose-Picked b tracking (valid_points (points frame)) box
        (valid_points-length (points frame)) (valid_points-All b (points frame) h))
