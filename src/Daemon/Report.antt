-- ===== src/Daemon/Report.antt =====
-- The arguments of the hardware report, `parse_args` of crates/wiilandd/src/report.rs.
pub mod Passed
use wiiland.Prelude.{
  ℕ, suc, ◌+◌, Bool, true, false, ◌&&◌, ◌||◌, ltb, List, [], ◌∷◌, Option, none, some, if◌then◌else◌,
}
use wiiland.Prelude.Lists.{any}
use wiiland.Prelude.Text.{Text, codes, eq_text, starts_with}

pub record ParsedArgs : Type 0 where
  pub device : Option Text
  pub extra : List Text
  pub trace_selectors : ℕ

pub data ArgError : Type 0 where
  conflicting : Text → ArgError
  multiple_trace_selectors : ArgError

pub data Parsed : Type 0 where
  ok : ParsedArgs → Parsed
  err : ArgError → Parsed

-- `matches!` with string literals.
abbrev pub one_of : Text → List Text → Bool
one_of arg texts = any (eq_text arg) texts

unfoldable pub is_conflicting : Text → Bool
is_conflicting arg =
    one_of arg (
      codes "-d"
      ∷ codes "--device"
      ∷ codes "-p"
      ∷ codes "--profile"
      ∷ codes "-n"
      ∷ codes "--dry-run"
      ∷ codes "-h"
      ∷ codes "--help"
      ∷ codes "--version"
      ∷ codes "-l"
      ∷ codes "--list"
      ∷ codes "--calibrate-aim"
      ∷ codes "--check-config"
      ∷ codes "--self-test"
      ∷ codes "--axis-map"
      ∷ codes "--validation-checklist"
      ∷ codes "--doctor"
      ∷ codes "--dump-config"
      ∷ [])
    || starts_with arg (codes "--device=")
    || starts_with arg (codes "--profile=")
    || starts_with arg (codes "--dry-run=")

unfoldable pub consumes_value : Text → Bool
consumes_value arg = one_of arg (
    codes "-c"
    ∷ codes "--config"
    ∷ codes "--backend"
    ∷ codes "--ir-speed"
    ∷ codes "--ir-deadzone"
    ∷ codes "--ir-smoothing"
    ∷ codes "--ir-tracking"
    ∷ codes "--ir-aim-mapping"
    ∷ codes "--pointer-speed"
    ∷ codes "--aim-mode"
    ∷ codes "--aim-source"
    ∷ codes "--aim-activation"
    ∷ codes "--aim-sensitivity"
    ∷ codes "--aim-deadzone"
    ∷ codes "--aim-smoothing"
    ∷ codes "--aim-invert-x"
    ∷ codes "--aim-invert-y"
    ∷ codes "--aim-calibration-duration"
    ∷ [])

unfoldable pub is_selector : Text → Bool
is_selector arg = eq_text arg (codes "--trace-events") || starts_with arg (codes "--trace-events=")

-- The loop over the arguments: those passed on, and the number of selectors, or the first conflict.
pub data Scanned : Type 0 where
  passed : List Text → ℕ → Scanned
  conflict : Text → Scanned

abbrev pub counted : Bool → ℕ → ℕ
counted selector selectors = if selector then suc selectors else selectors

abbrev pub keep : Text → Scanned → Scanned
keep arg (passed extra selectors) = passed (arg ∷ extra) selectors
keep arg (conflict other) = conflict other

-- One argument, and the loop after it.
abbrev pub scan_one : Text → Scanned → Scanned
scan_one arg later = if is_conflicting arg then conflict arg else keep arg later

pub scan : List Text → ℕ → Scanned
scan [] selectors = passed [] selectors
scan (arg ∷ []) selectors = scan_one arg (scan [] (counted (is_selector arg) selectors))
scan (arg ∷ value ∷ rest) selectors =
    let next = scan (value ∷ rest) (counted (is_selector arg) selectors) in
    let skip = keep value (scan rest (counted (is_selector arg) selectors)) in
    scan_one arg (if consumes_value arg then skip else next)

abbrev pub finished : Option Text → Scanned → Parsed
finished device (conflict arg) = err (conflicting arg)
finished device (passed extra selectors) =
    if ltb 1 selectors
    then err multiple_trace_selectors
    else ok (record { device = device; extra = extra; trace_selectors = selectors })

abbrev pub is_help : Text → Bool
is_help first = eq_text first (codes "-h") || eq_text first (codes "--help")

pub parse_args : List Text → Parsed
parse_args [] = finished none (scan [] 0)
parse_args (first ∷ rest) =
    let parsed = finished (some first) (scan rest 0) in
    if is_help first
    then ok (record { device = none; extra = first ∷ []; trace_selectors = 0 })
    else parsed
