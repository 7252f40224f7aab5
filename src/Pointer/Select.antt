-- ===== src/Pointer/Select.antt =====
-- crates/wiiland-core/src/pointer.rs: the choice of one IR point from a frame of four.
pub mod Farthest
pub mod Box
use wiiland.Prelude.{
  ℕ, zero, suc, Bool, true, false, List, [], ◌∷◌, Option, none, some, if◌then◌else◌,
}
use wiiland.Prelude.Lists.{length}
use wiiland.Prelude.Int.{ℤ, pos, negsuc, ltb_ℤ, tdiv}
use wiiland.Prelude.Width.{wrap_i32, add_i32, div_i32, add_i64, sub_i64, mul_i64}
use wiiland.Config.Types.{IrTracking, first, centroid, dual}

pub record IrPoint : Type 0 where
  pub valid : Bool
  pub x : ℤ
  pub y : ℤ

-- The source's `[IrPoint; 4]`.
pub record IrFrame : Type 0 where
  pub point0 : IrPoint
  pub point1 : IrPoint
  pub point2 : IrPoint
  pub point3 : IrPoint

abbrev pub points : IrFrame → List IrPoint
points frame = frame.point0 ∷ frame.point1 ∷ frame.point2 ∷ frame.point3 ∷ []

-- The valid points, moved to the front of the array; the list is the part in use.
abbrev pub valid_points : List IrPoint → List IrPoint
valid_points [] = []
valid_points (p ∷ rest) = let kept = valid_points rest in if p.valid then p ∷ kept else kept

-- The centroid's running sums.
pub record Sum : Type 0 where
  pub x : ℤ
  pub y : ℤ

pub sum_from : Sum → List IrPoint → Sum
sum_from s [] = s
sum_from s (p ∷ rest) = sum_from (record { x = add_i64 s.x p.x; y = add_i64 s.y p.y }) rest

pub mean_point : List IrPoint → IrPoint
unfolding sum_from
mean_point ps =
    let s = sum_from (record { x = pos 0; y = pos 0 }) ps in
    record {
      valid = true;
      x = wrap_i32 (tdiv s.x (pos (length ps)));
      y = wrap_i32 (tdiv s.y (pos (length ps)));
    }

pub distance : IrPoint → IrPoint → ℤ
distance p q =
    let dx = sub_i64 p.x q.x in let dy = sub_i64 p.y q.y in add_i64 (mul_i64 dx dx) (mul_i64 dy dy)

-- The best pair found so far.
pub record Pair : Type 0 where
  pub a : IrPoint
  pub b : IrPoint
  pub best : ℤ

pub better : Pair → IrPoint → IrPoint → Pair
better r p q =
    let d = distance p q in if ltb_ℤ r.best d then record { a = p; b = q; best = d } else r

-- The inner loop, over the points after `p`, and the outer one.
pub against : Pair → IrPoint → List IrPoint → Pair
unfolding better
against r p [] = r
against r p (q ∷ rest) = against (better r p q) p rest

pub all_pairs : Pair → List IrPoint → Pair
unfolding against
all_pairs r [] = r
all_pairs r (p ∷ rest) = all_pairs (against r p rest) rest

pub midpoint : IrPoint → IrPoint → IrPoint
midpoint p q = record {
  valid = true;
  x = div_i32 (add_i32 p.x q.x) (pos 2);
  y = div_i32 (add_i32 p.y q.y) (pos 2);
}

-- The dual choice: the only point, or the middle of the pair that lies farthest apart.
pub dual_point : IrPoint → List IrPoint → IrPoint
unfolding all_pairs midpoint
dual_point p [] = p
dual_point p (q ∷ rest) =
    let r = all_pairs (record { a = p; b = q; best = negsuc 0 }) (p ∷ q ∷ rest) in midpoint r.a r.b

pub choose : IrTracking → List IrPoint → Option IrPoint
unfolding mean_point dual_point
choose tracking [] = none
choose first (p ∷ rest) = some p
choose centroid (p ∷ rest) = some (mean_point (p ∷ rest))
choose dual (p ∷ rest) = some (dual_point p rest)

unfoldable pub select_ir_point : IrFrame → IrTracking → Option IrPoint
unfolding choose
select_ir_point frame tracking = choose tracking (valid_points (points frame))
