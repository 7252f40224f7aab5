-- ===== src/Calibration/Window.antt =====
-- What a calibration window of crates/wiiland-core/src/calibration.rs yields: the mean of its samples.
use native.Mathlib.Nat.{add-zero}
use wiiland.Prelude.{ℕ, suc, ◌+◌, ◌≤◌, ◌<◌, ◌≡◌, refl, subst, arith, List, [], ◌∷◌, some}
use wiiland.Prelude.Lists.{length, All}
use wiiland.Prelude.Int.{ℤ, pos, tdiv, ◌≤ℤ◌, Within}
use wiiland.Prelude.Width.{IsI32, wrap_i32}
use wiiland.Prelude.Mean.{Sums, Sums-add, Sums-mean}
use wiiland.Config.Types.{SensorCalibration, all_axes}
use wiiland.Calibration.{Sample, CalibrationStats, new, add, finish, jitter, max_jitter}

-- The samples of a window, oldest first.
abbrev pub collect : CalibrationStats → List Sample → CalibrationStats
collect st [] = st
collect st (s ∷ rest) = collect (add st s) rest

abbrev pub IsSample : Sample → Type 0
IsSample s = IsI32 s.x × IsI32 s.y × IsI32 s.z

-- Between two corners, on each axis.
abbrev pub Inside : Sample → Sample → Sample → Type 0
Inside lo hi s = Within lo.x hi.x s.x × Within lo.y hi.y s.y × Within lo.z hi.z s.z

record Sound (n : ℕ) (lo hi : Sample) (st : CalibrationStats) : Type 0 where
  counted : st.samples ≡ n
  on_x : Sums n lo.x hi.x st.sum_x
  on_y : Sums n lo.y hi.y st.sum_y
  on_z : Sums n lo.z hi.z st.sum_z

new-Sound : (lo hi : Sample) → Sound 0 lo hi new
unfolding new
new-Sound lo hi = record { counted = refl; on_x = empty; on_y = empty; on_z = empty }
  where
    empty : {a b : ℤ} → Sums 0 a b (pos 0)
    empty = record { low = omega arith; high = omega arith; small = omega arith }

add-Sound :
    (n : ℕ) (lo hi s : Sample) (st : CalibrationStats)
    → n < 4294967295
    → IsSample s
    → Inside lo hi s
    → Sound n lo hi st
    → Sound (suc n) lo hi (add st s)
unfolding add
add-Sound n lo hi s st room i h k = record {
  counted = omega (arith, k.counted);
  on_x = Sums-add n lo.x hi.x st.sum_x s.x room i.0 h.0 k.on_x;
  on_y = Sums-add n lo.y hi.y st.sum_y s.y room i.1 h.1 k.on_y;
  on_z = Sums-add n lo.z hi.z st.sum_z s.z room i.2 h.2 k.on_z;
}

collect-Sound :
    (n : ℕ) (lo hi : Sample) (st : CalibrationStats) (xs : List Sample)
    → n + length xs ≤ 4294967295
    → All IsSample xs
    → All (Inside lo hi) xs
    → Sound n lo hi st
    → Sound (n + length xs) lo hi (collect st xs)
collect-Sound n lo hi st [] room i h k = rw add-zero k
collect-Sound n lo hi st (s ∷ rest) room i h k =
    let next = add-Sound n lo hi s st (omega arith) i.0 h.0 k in
    let later = collect-Sound (suc n) lo hi (add st s) rest (omega arith) i.1 h.1 next in
    subst (λ m. Sound m lo hi (collect (add st s) rest)) (omega arith) later

abbrev pub as_sample : SensorCalibration → Sample
as_sample c = record { x = c.x; y = c.y; z = c.z }

abbrev pub mean : CalibrationStats → SensorCalibration
mean st = record {
  x = wrap_i32 (tdiv st.sum_x (pos st.samples));
  y = wrap_i32 (tdiv st.sum_y (pos st.samples));
  z = wrap_i32 (tdiv st.sum_z (pos st.samples));
  axes = all_axes;
}

pub finish-eq_some :
    (st : CalibrationStats) (c : SensorCalibration)
    → finish st ≡ some c
    → (16 ≤ st.samples) × (jitter st ≤ℤ max_jitter) × (c ≡ mean st)
unfolding finish
finish-eq_some st c e = ground arith

pub finish_accepts :
    (st : CalibrationStats) → 16 ≤ st.samples → jitter st ≤ℤ max_jitter → finish st ≡ some (mean st)
unfolding finish
finish_accepts st h k = ground arith

finish-Inside :
    (n : ℕ) (lo hi : Sample) (st : CalibrationStats) (c : SensorCalibration)
    → IsSample lo
    → IsSample hi
    → Sound n lo hi st
    → finish st ≡ some c
    → Inside lo hi (as_sample c)
finish-Inside n lo hi st c a b k e =
    let (enough, _, is_mean) = finish-eq_some st c e in
    let p : 0 < n = omega (arith, k.counted) in
    rw (is_mean, k.counted)
      (
        Sums-mean n lo.x hi.x st.sum_x p a.0 b.0 k.on_x,
        Sums-mean n lo.y hi.y st.sum_y p a.1 b.1 k.on_y,
        Sums-mean n lo.z hi.z st.sum_z p a.2 b.2 k.on_z,
      )

-- The zero that a window yields lies, on each axis, in every range that holds all the samples,
-- for windows of fewer than 2 ^ 32 samples.
pub finish-collect :
    (lo hi : Sample) (xs : List Sample) (c : SensorCalibration)
    → length xs < 4294967296
    → IsSample lo
    → IsSample hi
    → All IsSample xs
    → All (Inside lo hi) xs
    → finish (collect new xs) ≡ some c
    → Inside lo hi (as_sample c)
finish-collect lo hi xs c room a b i h e =
    finish-Inside (length xs) lo hi (collect new xs) c a b
      (subst (λ m. Sound m lo hi (collect new xs)) (omega arith)
        (collect-Sound 0 lo hi new xs (omega arith) i h (new-Sound lo hi)))
      e
