-- ===== src/Daemon/Report/Passed.antt =====
-- What `parse_args` of crates/wiilandd/src/report.rs passes on, and when it answers with an error.
use mathlib.Core.List.{Memᴰ}
use wiiland.Prelude.{
  ℕ, ◌+◌, ◌≤◌, ◌<◌, ◌≡◌, refl, ap, arith, Bool, true, false, ltb, List, [], ◌∷◌, some,
  if◌then◌else◌, if_cases,
}
use wiiland.Prelude.Lists.{All}
use wiiland.Prelude.Text.{Text}
use wiiland.Daemon.Report.{
  conflicting, multiple_trace_selectors, Parsed, ok, err, is_conflicting, consumes_value,
  is_selector, Scanned, passed, conflict, counted, keep, scan_one, scan, finished, is_help,
  parse_args,
}

-- The arguments that are not the value of the one before.
pub options : List Text → List Text
options [] = []
options (arg ∷ []) = arg ∷ []
options (arg ∷ value ∷ rest) =
    let next = options (value ∷ rest) in
    let skip = options rest in arg ∷ (if consumes_value arg then skip else next)

abbrev pub selectors_of : List Text → ℕ
selectors_of [] = 0
selectors_of (arg ∷ args) = counted (is_selector arg) (selectors_of args)

-- No option is in conflict and all arguments are passed on, or some option is.
abbrev IsScan : List Text → List Text → ℕ → Scanned → Type 0
IsScan args opts n (passed extra m) =
    (extra ≡ args) × All (λ arg. is_conflicting arg ≡ false) opts × (m ≡ n + selectors_of opts)
IsScan args opts n (conflict arg) = Memᴰ arg opts × (is_conflicting arg ≡ true)

counted-add : (b : Bool) (n k : ℕ) → counted b n + k ≡ n + counted b k
counted-add true n k = omega arith
counted-add false n k = refl

keep-IsScan :
    (arg : Text) (args opts : List Text) (n : ℕ) (s : Scanned)
    → is_conflicting arg ≡ false
    → IsScan args opts (counted (is_selector arg) n) s
    → IsScan (arg ∷ args) (arg ∷ opts) n (keep arg s)
keep-IsScan arg args opts n (passed extra m) f h = (
  ap (λ l. arg ∷ l) h.0,
  (f, h.1),
  omega (arith, h.2, counted-add (is_selector arg) n (selectors_of opts)),
)
keep-IsScan arg args opts n (conflict other) f h = (Memᴰ.tail h.0, h.1)

keep_value-IsScan :
    (value : Text) (args opts : List Text) (n : ℕ) (s : Scanned)
    → IsScan args opts n s
    → IsScan (value ∷ args) opts n (keep value s)
keep_value-IsScan value args opts n (passed extra m) h = (ap (λ l. value ∷ l) h.0, h.1, h.2)
keep_value-IsScan value args opts n (conflict other) h = h

scan_one-IsScan :
    (arg : Text) (args opts : List Text) (n : ℕ) (later : Scanned)
    → IsScan args opts (counted (is_selector arg) n) later
    → IsScan (arg ∷ args) (arg ∷ opts) n (scan_one arg later)
scan_one-IsScan arg args opts n later h =
    if_cases (IsScan (arg ∷ args) (arg ∷ opts) n) (is_conflicting arg) (conflict arg)
      (keep arg later) (λ t. (Memᴰ.head refl, t)) (λ f. keep-IsScan arg args opts n later f h)

by_value :
    (b : Bool) (args near far : List Text) (n : ℕ) (next skip : Scanned)
    → IsScan args near n next
    → IsScan args far n skip
    → IsScan args (if b then far else near) n (if b then skip else next)
by_value true args near far n next skip h k = k
by_value false args near far n next skip h k = h

scan-IsScan : (args : List Text) (n : ℕ) → IsScan args (options args) n (scan args n)
unfolding scan options
scan-IsScan [] n = (refl, tt, omega arith)
scan-IsScan (arg ∷ []) n =
    scan_one-IsScan arg [] [] n (scan [] (counted (is_selector arg) n))
      (scan-IsScan [] (counted (is_selector arg) n))
scan-IsScan (arg ∷ value ∷ rest) n =
    let next = scan (value ∷ rest) (counted (is_selector arg) n) in
    let skip = scan rest (counted (is_selector arg) n) in
    scan_one-IsScan arg (value ∷ rest) _ n _ (
      by_value (consumes_value arg) (value ∷ rest) (options (value ∷ rest)) (options rest)
        (counted (is_selector arg) n) next (keep value skip)
        (scan-IsScan (value ∷ rest) (counted (is_selector arg) n))
        (keep_value-IsScan value rest (options rest) (counted (is_selector arg) n) skip
          (scan-IsScan rest (counted (is_selector arg) n))))

-- What an answer says of the first argument and of those after it.
abbrev pub IsAnswer : Text → List Text → Parsed → Type 0
IsAnswer first args (ok p) =
    (p.device ≡ some first)
    × (p.extra ≡ args)
    × All (λ arg. is_conflicting arg ≡ false) (options args)
    × (p.trace_selectors ≡ selectors_of (options args))
    × (p.trace_selectors ≤ 1)
IsAnswer first args (err (conflicting arg)) = Memᴰ arg (options args) × (is_conflicting arg ≡ true)
IsAnswer first args (err multiple_trace_selectors) =
    All (λ arg. is_conflicting arg ≡ false) (options args) × (1 < selectors_of (options args))

finished-IsAnswer :
    (first : Text) (args : List Text) (s : Scanned)
    → IsScan args (options args) 0 s
    → IsAnswer first args (finished (some first) s)
finished-IsAnswer first args (conflict arg) h = h
finished-IsAnswer first args (passed extra m) h =
    if_cases (IsAnswer first args) (ltb 1 m) (err multiple_trace_selectors)
      (ok (record { device = some first; extra = extra; trace_selectors = m }))
      (λ t. (h.1, (let more : 1 < m = ground arith in omega (arith, more, h.2))))
      (λ f. (refl, h.0, h.1, omega (arith, h.2), ground arith))

-- After a first argument that does not ask for help: an accepted line has it as the device and passes
-- all the others on in their order, none of the options among them is in conflict, and at most one
-- selects traces; a conflict that is reported is an option in conflict; and several selectors are
-- reported only where no option is in conflict and there are at least two.
pub parse_args-IsAnswer :
    (first : Text) (args : List Text)
    → is_help first ≡ false
    → IsAnswer first args (parse_args (first ∷ args))
unfolding parse_args
parse_args-IsAnswer first args f =
    rw f (finished-IsAnswer first args (scan args 0) (scan-IsScan args 0))
