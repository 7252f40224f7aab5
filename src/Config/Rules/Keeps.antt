-- ===== src/Config/Rules/Keeps.antt =====
-- What a device rule's line of crates/wiiland-core/src/config.rs keeps of the rules before it.
use wiiland.Prelude.{
  ◌+◌, ◌≤◌, ◌≡◌, refl, arith, Bool, true, false, leb, List, [], ◌∷◌, ◌++◌, Option, none, some, ◌||◌,
  if_cases, if_both,
}
use wiiland.Prelude.Lists.{length, length-append, any}
use wiiland.Prelude.Text.{Text}
use wiiland.Config.Types.{Profile, is_valid, DeviceRuleKind, DeviceRule, Config}
use wiiland.Config.Validate.{bad_rule}
use wiiland.Config.Rules.{
  max_device_rules, Outcome, accepted, refused, panicked, invalid_value, is_empty, is_rule,
  remove_first, kept, with_rules, place, set_middle,
}

abbrev pub Good : List DeviceRule → Type 0
Good rules = (length rules ≤ max_device_rules) × (any bad_rule rules ≡ false)

-- An outcome that accepts changes only the rules, and leaves good ones.
abbrev pub OnlyRules : Config → Outcome → Type 0
OnlyRules self (accepted next) =
    Good next.device_rules × (next ≡ record self { device_rules = next.device_rules })
OnlyRules self (refused why) = Unit
OnlyRules self panicked = Unit

any-append :
    (p : DeviceRule → Bool) (xs ys : List DeviceRule) → any p (xs ++ ys) ≡ any p xs || any p ys
any-append p [] ys = refl
any-append p (x ∷ xs) ys = ground (arith, any-append p xs ys)

abbrev GoodRest : List DeviceRule → Option (DeviceRule × List DeviceRule) → Type 0
GoodRest rules none = Unit
GoodRest rules (some q) =
    (length rules ≡ length q.1 + 1) × ((any bad_rule q.1 ≡ false) × (bad_rule q.0 ≡ false))

kept-GoodRest :
    (r : DeviceRule) (rules : List DeviceRule) (later : Option (DeviceRule × List DeviceRule))
    → bad_rule r ≡ false
    → GoodRest rules later
    → GoodRest (r ∷ rules) (kept r later)
kept-GoodRest r rules none b h = tt
kept-GoodRest r rules (some q) b h = (omega (arith, h.0), ((ground arith), h.1.1))

remove_first-GoodRest :
    (test : DeviceRule → Bool) (rules : List DeviceRule)
    → any bad_rule rules ≡ false
    → GoodRest rules (remove_first test rules)
unfolding remove_first
remove_first-GoodRest test [] h = tt
remove_first-GoodRest test (r ∷ rules) h =
    let rest : any bad_rule rules ≡ false = ground arith in
    let first : bad_rule r ≡ false = ground arith in
    if_both (GoodRest (r ∷ rules)) (test r) (some (r, rules)) _ (omega arith, (rest, first))
      (kept-GoodRest r rules _ first (remove_first-GoodRest test rules rest))

place-OnlyRules :
    (self : Config) (kind : DeviceRuleKind) (middle : Text) (p : Profile)
    (found : Option (DeviceRule × List DeviceRule))
    → Good self.device_rules
    → is_empty middle ≡ false
    → is_valid p ≡ true
    → GoodRest self.device_rules found
    → OnlyRules self (place self kind middle p found)
place-OnlyRules self kind middle p (some q) g m v h = (
  (
    omega (arith, g.0, h.0, length-append q.1 (record q.0 { profile = p } ∷ [])),
    ground (arith, h.1.0, h.1.1, any-append bad_rule q.1 (record q.0 { profile = p } ∷ [])),
  ),
  refl,
)
place-OnlyRules self kind middle p none g m v h =
    let r : DeviceRule = record { kind = kind; match_text = middle; profile = p } in
    if_cases (OnlyRules self) (leb max_device_rules (length self.device_rules))
      (refused invalid_value) (with_rules self (self.device_rules ++ r ∷ [])) (λ e. tt)
      (λ e. (
        (
          ground (arith, g.0, length-append self.device_rules (r ∷ [])),
          ground (arith, g.1, any-append bad_rule self.device_rules (r ∷ [])),
        ),
        refl,
      ))

pub set_middle-OnlyRules :
    (self : Config) (middle : Text) (p : Profile) (kind : DeviceRuleKind)
    → Good self.device_rules
    → is_valid p ≡ true
    → OnlyRules self (set_middle self middle p kind)
unfolding set_middle
set_middle-OnlyRules self middle p kind g v =
    if_cases (OnlyRules self) (is_empty middle) (refused invalid_value)
      (place self kind middle p (remove_first (is_rule kind middle) self.device_rules)) (λ e. tt)
      (λ e.
        place-OnlyRules self kind middle p (remove_first (is_rule kind middle) self.device_rules) g
          e v (remove_first-GoodRest (is_rule kind middle) self.device_rules g.1))
