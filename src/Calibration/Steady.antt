-- ===== src/Calibration/Steady.antt =====
-- Which calibration windows of crates/wiiland-core/src/calibration.rs are accepted.
use wiiland.Prelude.{ℕ, suc, ◌+◌, ◌≤◌, ◌<◌, ◌≡◌, ◌↔◌, refl, arith, List, [], ◌∷◌, some, false, ◌==◌}
use wiiland.Prelude.Lists.{length, All}
use wiiland.Prelude.Int.{ℤ, pos, ◌≤ℤ◌, ◌-ℤ◌, -ℤ_parts, min_ℤ, max_ℤ}
use wiiland.Prelude.Width.{wrap_i32, wrap_i32-eq, sub_i64-eq, i32_min, i32_max}
use wiiland.Config.Types.{SensorCalibration}
use wiiland.Calibration.{Sample, CalibrationStats, new, add, finish, jitter, max_jitter}
use wiiland.Calibration.Window.{collect, IsSample, Inside, finish-eq_some, finish_accepts, mean}

abbrev mins : CalibrationStats → Sample
mins st = record { x = st.min_x; y = st.min_y; z = st.min_z }

abbrev maxs : CalibrationStats → Sample
maxs st = record { x = st.max_x; y = st.max_y; z = st.max_z }

-- The box of the first state lies in that of the second.
abbrev Grows : CalibrationStats → CalibrationStats → Type 0
Grows s t = Inside (mins t) (maxs t) (mins s) × Inside (mins t) (maxs t) (maxs s)

-- A state whose box is not empty.
abbrev Lower : Sample → Sample → Type 0
Lower p q = (p.x ≤ℤ q.x) × (p.y ≤ℤ q.y) × (p.z ≤ℤ q.z)

record Widens (s t : CalibrationStats) : Type 0 where
  down : Lower (mins t) (mins s)
  up : Lower (maxs s) (maxs t)

add-Widens : (st : CalibrationStats) (s : Sample) → Widens st (add st s)
unfolding add
add-Widens st s = ground arith

Widens-trans : (r s t : CalibrationStats) → Widens r s → Widens s t → Widens r t
Widens-trans r s t a b = omega arith

collect-Widens : (st : CalibrationStats) (xs : List Sample) → Widens st (collect st xs)
collect-Widens st [] = omega arith
collect-Widens st (s ∷ rest) =
    Widens-trans st (add st s) _ (add-Widens st s) (collect-Widens (add st s) rest)

add-Inside : (st : CalibrationStats) (s : Sample) → Inside (mins (add st s)) (maxs (add st s)) s
unfolding add
add-Inside st s = ground arith

collect-Inside :
    (st : CalibrationStats) (xs : List Sample)
    → All (Inside (mins (collect st xs)) (maxs (collect st xs))) xs
collect-Inside st [] = tt
collect-Inside st (s ∷ rest) =
    (omega (arith, collect-Widens (add st s) rest, add-Inside st s), collect-Inside (add st s) rest)

-- The box stays within any that holds all the samples.
record Holds (lo hi : Sample) (st : CalibrationStats) : Type 0 where
  low : Lower lo (mins st)
  high : Lower (maxs st) hi

collect-Holds :
    (lo hi : Sample) (st : CalibrationStats) (xs : List Sample)
    → All (Inside lo hi) xs
    → Holds lo hi st
    → Holds lo hi (collect st xs)
unfolding add
collect-Holds lo hi st [] h k = k
collect-Holds lo hi st (s ∷ rest) h k = collect-Holds lo hi (add st s) rest h.1 (ground arith)

samples-collect :
    (n : ℕ) (st : CalibrationStats) (xs : List Sample)
    → n + length xs ≤ 4294967295
    → st.samples ≡ n
    → (collect st xs).samples ≡ n + length xs
unfolding add
samples-collect n st [] room e = omega arith
samples-collect n st (s ∷ rest) room e =
    omega (arith, samples-collect (suc n) (add st s) rest (omega arith) (omega arith))

-- A box of side at most 512.
abbrev IsNarrow : Sample → Sample → Type 0
IsNarrow lo hi =
    (hi.x -ℤ lo.x ≤ℤ max_jitter) × (hi.y -ℤ lo.y ≤ℤ max_jitter) × (hi.z -ℤ lo.z ≤ℤ max_jitter)

-- The extremes are `i32` values.
abbrev IsBox : CalibrationStats → Type 0
IsBox st = IsSample (mins st) × IsSample (maxs st)

cap_iff :
    (a b c : ℤ)
    → pos 0 ≤ℤ a
    → pos 0 ≤ℤ b
    → pos 0 ≤ℤ c
    → (wrap_i32 (min_ℤ (max_ℤ (max_ℤ a b) c) i32_max) ≤ℤ max_jitter)
      ↔ (a ≤ℤ max_jitter) × (b ≤ℤ max_jitter) × (c ≤ℤ max_jitter)
cap_iff a b c h k l =
    rw (wrap_i32-eq widest (ground arith)) ((λ e. ground arith), (λ e. ground arith))
  where
    widest : ℤ
    widest = min_ℤ (max_ℤ (max_ℤ a b) c) i32_max

positive : (n : ℕ) → 0 < n → (n == 0) ≡ false
positive n h = ground arith

jitter_iff :
    (st : CalibrationStats)
    → IsBox st
    → Lower (mins st) (maxs st)
    → 0 < st.samples
    → (jitter st ≤ℤ max_jitter) ↔ IsNarrow (mins st) (maxs st)
unfolding jitter
jitter_iff st b l p = rw (positive st.samples p) (
    rw (sub_i64-eq st.max_x st.min_x b.1.0 b.0.0) (
      rw (sub_i64-eq st.max_y st.min_y b.1.1 b.0.1) (
        rw (sub_i64-eq st.max_z st.min_z b.1.2 b.0.2) (
          cap_iff (st.max_x -ℤ st.min_x) (st.max_y -ℤ st.min_y) (st.max_z -ℤ st.min_z)
            (omega (arith, -ℤ_parts st.max_x st.min_x)) (omega (arith, -ℤ_parts st.max_y st.min_y))
            (omega (arith, -ℤ_parts st.max_z st.min_z))))))

abbrev corner : ℤ → Sample
corner v = record { x = v; y = v; z = v }

-- A window of at least one sample has a box, and its extremes are `i32` values.
record Filled (st : CalibrationStats) : Type 0 where
  ordered : Lower (mins st) (maxs st)
  bounded : IsBox st

collect-Filled : (xs : List Sample) → 0 < length xs → All IsSample xs → Filled (collect new xs)
unfolding new
collect-Filled [] p i = absurd (omega arith)
collect-Filled (s ∷ rest) p i =
    let whole = collect-Holds (corner i32_min) (corner i32_max) new (s ∷ rest) i (omega arith) in
    let first = (collect-Inside new (s ∷ rest)).0 in
    record { ordered = omega arith; bounded = omega arith }

abbrev pub IsAccepted : List Sample → Type 0
IsAccepted xs = (c : SensorCalibration) × (finish (collect new xs) ≡ some c)

-- The samples fit in a box of side at most 512.
abbrev pub IsSteady : List Sample → Type 0
IsSteady xs =
    (lo : Sample) × (hi : Sample) × IsSample lo
    × IsSample hi
    × All (Inside lo hi) xs
    × IsNarrow lo hi

narrower :
    (lo hi : Sample) (st : CalibrationStats)
    → Holds lo hi st
    → IsNarrow lo hi
    → IsNarrow (mins st) (maxs st)
narrower lo hi st k h = omega (
  arith,
  -ℤ_parts hi.x lo.x,
  -ℤ_parts hi.y lo.y,
  -ℤ_parts hi.z lo.z,
  -ℤ_parts st.max_x st.min_x,
  -ℤ_parts st.max_y st.min_y,
  -ℤ_parts st.max_z st.min_z,
)

module _ (xs : List Sample) (room : length xs < 4294967296) (i : All IsSample xs) where
  counted : (collect new xs).samples ≡ length xs
  unfolding new
  counted = omega (arith, samples-collect 0 new xs (omega arith) refl)

  accepted-IsSteady : IsAccepted xs → (16 ≤ length xs) × IsSteady xs
  accepted-IsSteady (c, e) =
      let st = collect new xs in
      let (enough, steady, _) = finish-eq_some st c e in
      let f = collect-Filled xs (omega (arith, counted)) i in
      (
        omega (arith, counted),
        (
          mins st,
          maxs st,
          f.bounded.0,
          f.bounded.1,
          collect-Inside new xs,
          (jitter_iff st f.bounded f.ordered (omega arith)).0 steady,
        ),
      )

  IsSteady-IsAccepted : (16 ≤ length xs) → IsSteady xs → IsAccepted xs
  unfolding new
  IsSteady-IsAccepted enough (lo, hi, a, b, inside, narrow) =
      let st = collect new xs in
      let f = collect-Filled xs (omega arith) i in
      let held = collect-Holds lo hi new xs inside (omega arith) in
      (
        mean st,
        finish_accepts st (omega (arith, counted)) (
            (jitter_iff st f.bounded f.ordered (omega (arith, counted))).1
              (narrower lo hi st held narrow)),
      )

  -- A window of fewer than 2 ^ 32 samples gives a calibration exactly when it has at least 16
  -- samples and they fit in a box of side at most 512.
  pub IsAccepted-iff : IsAccepted xs ↔ (16 ≤ length xs) × IsSteady xs
  IsAccepted-iff = (accepted-IsSteady, λ h. IsSteady-IsAccepted h.0 h.1)
