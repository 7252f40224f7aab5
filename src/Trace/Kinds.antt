-- ===== src/Trace/Kinds.antt =====
-- The numbers of the event kinds and what the filters of crates/wiiland-core/src/trace.rs let
-- through.
use wiiland.Prelude.{ℕ, suc, zero, ◌≡◌, refl, arith, none, some, true, false, ◌&&◌}
use wiiland.Trace.{
  from_raw, raw, keys, axes, ir_only, motion_plus_only, matches, TraceFilter, TraceConfig, from_str,
  name, enable, traces, all_events,
}

-- Decoding a number and encoding the kind gives the number back, for every number: a known kind has
-- the number that it is decoded from, and an unknown number is kept.
pub raw-from_raw : (n : ℕ) → raw (from_raw n) ≡ n
unfolding raw from_raw
raw-from_raw zero = refl
raw-from_raw (suc zero) = refl
raw-from_raw (suc (suc zero)) = refl
raw-from_raw (suc (suc (suc zero))) = refl
raw-from_raw (suc (suc (suc (suc zero)))) = refl
raw-from_raw (suc (suc (suc (suc (suc zero))))) = refl
raw-from_raw (suc (suc (suc (suc (suc (suc zero)))))) = refl
raw-from_raw (suc (suc (suc (suc (suc (suc (suc zero))))))) = refl
raw-from_raw (suc (suc (suc (suc (suc (suc (suc (suc zero)))))))) = refl
raw-from_raw (suc (suc (suc (suc (suc (suc (suc (suc (suc zero))))))))) = refl
raw-from_raw (suc (suc (suc (suc (suc (suc (suc (suc (suc (suc zero)))))))))) = refl
raw-from_raw (suc (suc (suc (suc (suc (suc (suc (suc (suc (suc (suc zero))))))))))) = refl
raw-from_raw (suc (suc (suc (suc (suc (suc (suc (suc (suc (suc (suc (suc zero)))))))))))) = refl
raw-from_raw (suc (suc (suc (suc (suc (suc (suc (suc (suc (suc (suc (suc (suc zero))))))))))))) =
    refl
raw-from_raw
      (suc (suc (suc (suc (suc (suc (suc (suc (suc (suc (suc (suc (suc (suc zero)))))))))))))) =
    refl
raw-from_raw
      (suc
        (suc (suc (suc (suc (suc (suc (suc (suc (suc (suc (suc (suc (suc (suc zero))))))))))))))) =
    refl
raw-from_raw
      (suc (
        suc (
          suc
            (suc (suc (suc (suc (suc (suc (suc (suc (suc (suc (suc (suc (suc zero)))))))))))))))) =
    refl
raw-from_raw
      (suc (
        suc (
          suc (
            suc
              (suc (suc (suc (suc (suc (suc (suc (suc (suc (suc (suc (suc (suc n))))))))))))))))) =
    refl

-- No event is both a key event and an axis event, so the filters `keys` and `axes` have no event in
-- common, and every IR or Motion Plus event is an axis event.
pub filters_apart :
    (n : ℕ)
    → ((matches keys n && matches axes n) ≡ false)
      × (matches ir_only n ≡ true → matches axes n ≡ true)
      × (matches motion_plus_only n ≡ true → matches axes n ≡ true)
unfolding matches
filters_apart zero = (refl, (λ e. ground arith), (λ e. ground arith))
filters_apart (suc zero) = (refl, (λ e. ground arith), (λ e. ground arith))
filters_apart (suc (suc zero)) = (refl, (λ e. ground arith), (λ e. ground arith))
filters_apart (suc (suc (suc zero))) = (refl, (λ e. ground arith), (λ e. ground arith))
filters_apart (suc (suc (suc (suc zero)))) = (refl, (λ e. ground arith), (λ e. ground arith))
filters_apart (suc (suc (suc (suc (suc zero))))) = (refl, (λ e. ground arith), (λ e. ground arith))
filters_apart (suc (suc (suc (suc (suc (suc zero)))))) =
    (refl, (λ e. ground arith), (λ e. ground arith))
filters_apart (suc (suc (suc (suc (suc (suc (suc zero))))))) =
    (refl, (λ e. ground arith), (λ e. ground arith))
filters_apart (suc (suc (suc (suc (suc (suc (suc (suc zero)))))))) =
    (refl, (λ e. ground arith), (λ e. ground arith))
filters_apart (suc (suc (suc (suc (suc (suc (suc (suc (suc zero))))))))) =
    (refl, (λ e. ground arith), (λ e. ground arith))
filters_apart (suc (suc (suc (suc (suc (suc (suc (suc (suc (suc zero)))))))))) =
    (refl, (λ e. ground arith), (λ e. ground arith))
filters_apart (suc (suc (suc (suc (suc (suc (suc (suc (suc (suc (suc zero))))))))))) =
    (refl, (λ e. ground arith), (λ e. ground arith))
filters_apart (suc (suc (suc (suc (suc (suc (suc (suc (suc (suc (suc (suc zero)))))))))))) =
    (refl, (λ e. ground arith), (λ e. ground arith))
filters_apart (suc (suc (suc (suc (suc (suc (suc (suc (suc (suc (suc (suc (suc zero))))))))))))) =
    (refl, (λ e. ground arith), (λ e. ground arith))
filters_apart
      (suc (suc (suc (suc (suc (suc (suc (suc (suc (suc (suc (suc (suc (suc zero)))))))))))))) =
    (refl, (λ e. ground arith), (λ e. ground arith))
filters_apart
      (suc
        (suc (suc (suc (suc (suc (suc (suc (suc (suc (suc (suc (suc (suc (suc zero))))))))))))))) =
    (refl, (λ e. ground arith), (λ e. ground arith))
filters_apart
      (suc (
        suc (
          suc
            (suc (suc (suc (suc (suc (suc (suc (suc (suc (suc (suc (suc (suc zero)))))))))))))))) =
    (refl, (λ e. ground arith), (λ e. ground arith))
filters_apart
      (suc (
        suc (
          suc (
            suc
              (suc (suc (suc (suc (suc (suc (suc (suc (suc (suc (suc (suc (suc n))))))))))))))))) =
    (refl, (λ e. ground arith), (λ e. ground arith))

from_str-name : (filter : TraceFilter) → from_str (name filter) ≡ some filter
unfolding from_str name
from_str-name all_events = refl
from_str-name _ = refl

-- A trace that is enabled with a filter shows what the filter matches, and without one what its
-- earlier filter matches; before that it shows nothing.
enable-traces :
    (self : TraceConfig) (f : TraceFilter) (n : ℕ)
    → (traces (enable self (some f)) n ≡ matches f n)
      × (traces (enable self none) n ≡ matches self.filter n)
      × (self.enabled ≡ false → traces self n ≡ false)
unfolding traces enable
enable-traces self f n = (refl, refl, λ e. ground arith)
