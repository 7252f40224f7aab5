-- ===== src/Config/Rules/Select.antt =====
-- What a device rule of crates/wiiland-core/src/config.rs does, from its line to the device's
-- profile.
use wiiland.Prelude.{
  ◌+◌, ◌-◌, ◌≤◌, ◌≡◌, refl, sym, ap, ◌∙◌, subst, arith, Bool, true, leb, ltb, if_both, List, [],
  ◌∷◌, ◌++◌, Option, none, some, if◌then◌else◌, if_cases,
}
use wiiland.Prelude.Lists.{length, length-append}
use wiiland.Prelude.Text.{Text, eq_text_sound}
use wiiland.Config.Types.{Profile, DeviceRuleKind, syspath, devtype, DeviceRule, Config}
use wiiland.Config.Names.{parse_profile}
use wiiland.Config.Rules.{
  max_device_rules, Outcome, accepted, refused, panicked, invalid_value, prefix, kind_eq, is_rule,
  remove_first, kept, with_rules, place, is_empty, set_middle, middle_of, sliced, set_rule, matched,
  select_profile, profile_for_device,
}

abbrev rule_of : DeviceRuleKind → Text → Profile → DeviceRule
rule_of kind middle p = record { kind = kind; match_text = middle; profile = p }

kind_eq_sound : (k l : DeviceRuleKind) → kind_eq k l ≡ true → k ≡ l
kind_eq_sound syspath syspath h = refl
kind_eq_sound devtype devtype h = refl
kind_eq_sound _ _ h = ground arith

same_rule :
    (kind : DeviceRuleKind) (middle : Text) (p : Profile) (r : DeviceRule)
    → is_rule kind middle r ≡ true
    → record r { profile = p } ≡ rule_of kind middle p
unfolding is_rule
same_rule kind middle p r h =
    let e : r.kind ≡ kind = kind_eq_sound r.kind kind (ground arith) in
    let f : r.match_text ≡ middle = eq_text_sound r.match_text middle (ground arith) in cc

-- A list without its first match ends in the match, with another profile.
abbrev Removed :
    (DeviceRule → Bool) → List DeviceRule → Option (DeviceRule × List DeviceRule) → Type 0
Removed test rules none = Unit
Removed test rules (some q) = (test q.0 ≡ true) × (length rules ≡ length q.1 + 1)

kept-Removed :
    (test : DeviceRule → Bool) (r : DeviceRule) (rules : List DeviceRule)
    (later : Option (DeviceRule × List DeviceRule))
    → Removed test rules later
    → Removed test (r ∷ rules) (kept r later)
kept-Removed test r rules none h = tt
kept-Removed test r rules (some q) h = (h.0, omega (arith, h.1))

remove_first-Removed :
    (test : DeviceRule → Bool) (rules : List DeviceRule)
    → Removed test rules (remove_first test rules)
unfolding remove_first
remove_first-Removed test [] = tt
remove_first-Removed test (r ∷ rules) =
    if_cases (Removed test (r ∷ rules)) (test r) (some (r, rules)) _ (λ e. (e, omega arith))
      (λ e. kept-Removed test r rules _ (remove_first-Removed test rules))

select_profile-last :
    (p : Profile) (rules : List DeviceRule) (r : DeviceRule) (path kind : Option Text)
    → matched path kind r ≡ true
    → select_profile p (rules ++ r ∷ []) path kind ≡ r.profile
unfolding select_profile
select_profile-last p [] r path kind h = ground arith
select_profile-last p (first ∷ rules) r path kind h =
    select_profile-last (if matched path kind first then first.profile else p) rules r path kind h

-- The rules of an outcome end in the rule of the line, and are at most the maximum.
abbrev Ends : DeviceRule → Outcome → Type 0
Ends r (accepted next) =
    (length next.device_rules ≤ max_device_rules)
    × ((xs : List DeviceRule) × (next.device_rules ≡ xs ++ r ∷ []))
Ends r (refused why) = Unit
Ends r panicked = Unit

place-Ends :
    (self : Config) (kind : DeviceRuleKind) (middle : Text) (p : Profile)
    (found : Option (DeviceRule × List DeviceRule))
    → length self.device_rules ≤ max_device_rules
    → Removed (is_rule kind middle) self.device_rules found
    → Ends (rule_of kind middle p) (place self kind middle p found)
place-Ends self kind middle p (some q) h k = (
  omega (arith, k.1, length-append q.1 (record q.0 { profile = p } ∷ [])),
  (q.1, ap (λ r. q.1 ++ r ∷ []) (same_rule kind middle p q.0 k.0)),
)
place-Ends self kind middle p none h k =
    if_cases (Ends (rule_of kind middle p)) (leb max_device_rules (length self.device_rules))
      (refused invalid_value) (with_rules self (self.device_rules ++ rule_of kind middle p ∷ []))
      (λ e. tt)
      (λ e. (
        ground (arith, length-append self.device_rules (rule_of kind middle p ∷ [])),
        (self.device_rules, refl),
      ))

set_rule-Ends :
    (self : Config) (key value : Text) (kind : DeviceRuleKind) (p : Profile)
    → length self.device_rules ≤ max_device_rules
    → parse_profile value ≡ some p
    → Ends (rule_of kind (middle_of key kind) p) (set_rule self key value kind)
unfolding set_rule set_middle
set_rule-Ends self key value kind p h e =
    subst (λ o. Ends (rule_of kind (middle_of key kind) p) (sliced self key kind o)) (sym e)
      (if_both (Ends (rule_of kind (middle_of key kind) p))
        (ltb (length key - 8) (length (prefix kind) + 1)) panicked
        (set_middle self (middle_of key kind) p kind) tt
        (if_both (Ends (rule_of kind (middle_of key kind) p)) (is_empty (middle_of key kind))
          (refused invalid_value)
          (place self kind (middle_of key kind) p
            (remove_first (is_rule kind (middle_of key kind)) self.device_rules))
          tt
          (place-Ends self kind (middle_of key kind) p _ h
            (remove_first-Removed (is_rule kind (middle_of key kind)) self.device_rules))))

-- A line of a device rule that is accepted decides the profile of every device that its text
-- matches, whatever the rules before it say, and the rules stay within their maximum.
pub set_rule-profile_for_device :
    (self next : Config) (key value : Text) (kind : DeviceRuleKind) (p : Profile)
    (path type : Option Text)
    → length self.device_rules ≤ max_device_rules
    → parse_profile value ≡ some p
    → set_rule self key value kind ≡ accepted next
    → matched path type (record { kind = kind; match_text = middle_of key kind; profile = p })
      ≡ true
    → (profile_for_device next path type ≡ p) × (length next.device_rules ≤ max_device_rules)
unfolding profile_for_device
set_rule-profile_for_device self next key value kind p path type h e f m =
    let ends =
      subst (Ends (rule_of kind (middle_of key kind) p)) f
        (set_rule-Ends self key value kind p h e) in
    (
      ap (λ rules. select_profile next.profile rules path type) ends.1.1
          ∙ select_profile-last next.profile ends.1.0 (rule_of kind (middle_of key kind) p) path
              type m,
      ends.0,
    )
