-- ===== src/Config/Rules.antt =====
-- The device rules of crates/wiiland-core/src/config.rs: how a line adds one, and which profile a
-- device gets.
pub mod Select
pub mod Keeps
use wiiland.Prelude.{
  ℕ, ◌+◌, ◌-◌, ◌≤◌, ◌<◌, ◌≡◌, refl, sym, ap, ◌∙◌, arith, Bool, true, false, not, ◌&&◌, ltb, leb,
  List, [], ◌∷◌, ◌++◌, Option, none, some, if◌then◌else◌,
}
use wiiland.Prelude.Lists.{length, take}
use wiiland.Prelude.Text.{Text, codes, eq_text, includes, drop}
use wiiland.Config.Types.{Profile, DeviceRuleKind, syspath, devtype, DeviceRule, Config}
use wiiland.Config.Names.{parse_profile}

abbrev pub max_device_rules : ℕ
max_device_rules = 32

-- Why a line is refused.
pub data Refusal : Type 0 where
  invalid_value unknown_key no_equals line_too_long : Refusal

-- What a line does: the new configuration, an error, or a slice whose start is past its end,
-- at which Rust panics.
pub data Outcome : Type 0 where
  accepted : Config → Outcome
  refused : Refusal → Outcome
  panicked : Outcome

abbrev pub prefix : DeviceRuleKind → Text
prefix syspath = codes "device"
prefix devtype = codes "device-type"

abbrev kind_eq : DeviceRuleKind → DeviceRuleKind → Bool
kind_eq syspath syspath = true
kind_eq devtype devtype = true
kind_eq _ _ = false

unfoldable pub is_rule : DeviceRuleKind → Text → DeviceRule → Bool
is_rule kind middle r = kind_eq r.kind kind && eq_text r.match_text middle

abbrev pub kept :
    DeviceRule → Option (DeviceRule × List DeviceRule) → Option (DeviceRule × List DeviceRule)
kept r none = none
kept r (some q) = some (q.0, r ∷ q.1)

-- `position` and `remove`: the first element that passes, and the list without it.
unfoldable pub remove_first :
    (DeviceRule → Bool) → List DeviceRule → Option (DeviceRule × List DeviceRule)
remove_first p [] = none
remove_first p (r ∷ rules) =
    let later = remove_first p rules in if p r then some (r, rules) else kept r later

abbrev pub with_rules : Config → List DeviceRule → Outcome
with_rules self rules = accepted (record self { device_rules = rules })

abbrev pub place :
    Config → DeviceRuleKind → Text → Profile → Option (DeviceRule × List DeviceRule) → Outcome
place self kind middle p (some q) = with_rules self (q.1 ++ record q.0 { profile = p } ∷ [])
place self kind middle p none =
    if leb max_device_rules (length self.device_rules)
    then refused invalid_value
    else with_rules self
        (self.device_rules ++ record { kind = kind; match_text = middle; profile = p } ∷ [])

abbrev pub is_empty : Text → Bool
is_empty [] = true
is_empty _ = false

-- The part of `set_rule` below the slice, for the slice it found.
unfoldable pub set_middle : Config → Text → Profile → DeviceRuleKind → Outcome
unfolding remove_first is_rule
set_middle self middle p kind =
    if is_empty middle
    then refused invalid_value
    else place self kind middle p (remove_first (is_rule kind middle) self.device_rules)

-- `&key[prefix.len() + 1..key.len() - 8]`; in the keys that `set_key` gives it, both ends stand at a
-- dot, and so between characters.
abbrev pub middle_of : Text → DeviceRuleKind → Text
middle_of key kind =
    take (length key - 8 - (length (prefix kind) + 1)) (drop (length (prefix kind) + 1) key)

abbrev pub sliced : Config → Text → DeviceRuleKind → Option Profile → Outcome
sliced self key kind none = refused invalid_value
sliced self key kind (some p) =
    if ltb (length key - 8) (length (prefix kind) + 1)
    then panicked
    else set_middle self (middle_of key kind) p kind

unfoldable pub set_rule : Config → Text → Text → DeviceRuleKind → Outcome
unfolding set_middle parse_profile
set_rule self key value kind = sliced self key kind (parse_profile value)

abbrev has_text : Option Text → Text → Bool
has_text none t = false
has_text (some s) t = includes s t

abbrev asked : Option Text → Option Text → DeviceRuleKind → Option Text
asked path kind syspath = path
asked path kind devtype = kind

unfoldable pub matched : Option Text → Option Text → DeviceRule → Bool
matched path kind rule = has_text (asked path kind rule.kind) rule.match_text

-- The loop of `profile_for_device`: the last rule that matches decides.
pub select_profile : Profile → List DeviceRule → Option Text → Option Text → Profile
unfolding matched
select_profile selected [] path kind = selected
select_profile selected (rule ∷ rules) path kind =
    select_profile (if matched path kind rule then rule.profile else selected) rules path kind

pub profile_for_device : Config → Option Text → Option Text → Profile
unfolding select_profile
profile_for_device self path kind = select_profile self.profile self.device_rules path kind
