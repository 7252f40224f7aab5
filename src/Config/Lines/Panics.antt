-- ===== src/Config/Lines/Panics.antt =====
-- Which keys of a device rule make crates/wiiland-core/src/config.rs panic.
use wiiland.Prelude.{
  ◌+◌, ◌-◌, ◌<◌, ◌≡◌, ◌≢◌, ◌↔◌, ◌⊎◌, refl, ap, subst, ◌∙◌, arith, true, ◌&&◌, ◌==◌, ltb, leb, List,
  [], ◌∷◌, ◌++◌, Option, none, some, if_cases, if_both, inl, inr, and_parts,
}
use wiiland.Prelude.Int.{pos, negsuc}
use wiiland.Prelude.Lists.{length, All, append_assoc}
use wiiland.Prelude.Text.{Text, codes, eq_text, starts_with, ends_with, drop}
use wiiland.Config.Types.{
  Profile, DeviceRuleKind, syspath, devtype, DeviceRule, Config, DesktopAction,
}
use wiiland.Config.Names.{
  by_name, parse_profile, parse_ir_tracking, parse_ir_aim_mapping, parse_aim_mode, parse_aim_source,
  parse_aim_activation, parse_desktop_action,
}
use wiiland.Config.Rules.{
  max_device_rules, Outcome, accepted, refused, panicked, invalid_value, prefix, with_rules, place,
  is_empty, is_rule, remove_first, set_middle, middle_of, sliced, set_rule,
}
use wiiland.Config.Lines.{
  arms, bind_action, field_named, parse_bool, parse_int, put, run_arm, set_backend, set_binding,
  set_bool, set_cal, set_key, set_pattern, set_screen,
}
use wiiland.Config.Lines.Ranges.{by_name-All}

-- An outcome that is no panic.
abbrev Returns : Outcome → Type 0
Returns (accepted next) = Unit
Returns (refused why) = Unit
Returns panicked = ⊥

place-Returns :
    (self : Config) (kind : DeviceRuleKind) (middle : Text) (p : Profile)
    (found : Option (DeviceRule × List DeviceRule))
    → Returns (place self kind middle p found)
place-Returns self kind middle p (some q) = tt
place-Returns self kind middle p none =
    if_both Returns (leb max_device_rules (length self.device_rules)) (refused invalid_value)
      (with_rules self
        (self.device_rules ++ record { kind = kind; match_text = middle; profile = p } ∷ []))
      tt tt

set_middle-Returns :
    (self : Config) (middle : Text) (p : Profile) (kind : DeviceRuleKind)
    → Returns (set_middle self middle p kind)
unfolding set_middle
set_middle-Returns self middle p kind =
    if_both Returns (is_empty middle) (refused invalid_value)
      (place self kind middle p (remove_first (is_rule kind middle) self.device_rules)) tt
      (place-Returns self kind middle p (remove_first (is_rule kind middle) self.device_rules))

sliced-panicked :
    (self : Config) (key : Text) (kind : DeviceRuleKind) (o : Option Profile)
    → sliced self key kind o ≡ panicked
    → (o ≢ none) × (length key - 8 < length (prefix kind) + 1)
sliced-panicked self key kind none e = absurd cc
sliced-panicked self key kind (some p) e = (
  (λ f. absurd cc),
  if_cases (λ o. o ≡ panicked → length key - 8 < length (prefix kind) + 1)
      (ltb (length key - 8) (length (prefix kind) + 1)) panicked
      (set_middle self (middle_of key kind) p kind) (λ l f. ground arith)
      (λ l f. absurd (subst Returns f (set_middle-Returns self (middle_of key kind) p kind))) e,
)

starts_with-append : (s t : Text) → starts_with s t ≡ true → s ≡ t ++ drop (length t) s
unfolding starts_with
starts_with-append s [] h = refl
starts_with-append [] (y ∷ t) h = absurd cc
starts_with-append (x ∷ s) (y ∷ t) h =
    let parts = and_parts (x == y) (starts_with s t) h in
    let same : x ≡ y = ground arith in
    ap (λ c. c ∷ s) same ∙ ap (λ l. y ∷ l) (starts_with-append s t parts.1)

-- A prefix with its dot and fewer than eight bytes end in `.profile` only if the dot is shared.
shared :
    (kind : DeviceRuleKind) (rest : Text)
    → length rest < 8
    → ends_with (prefix kind ++ b'.' ∷ rest) (codes ".profile") ≡ true
    → rest ≡ codes "profile"
unfolding starts_with
shared syspath [] l h = absurd (ground arith)
shared syspath (a ∷ []) l h = absurd (ground arith)
shared syspath (a ∷ b ∷ []) l h = absurd (ground arith)
shared syspath (a ∷ b ∷ c ∷ []) l h = absurd (ground arith)
shared syspath (a ∷ b ∷ c ∷ d ∷ []) l h = absurd (ground arith)
shared syspath (a ∷ b ∷ c ∷ d ∷ e ∷ []) l h = absurd (ground arith)
shared syspath (a ∷ b ∷ c ∷ d ∷ e ∷ f ∷ []) l h = absurd (ground arith)
shared syspath (a ∷ b ∷ c ∷ d ∷ e ∷ f ∷ g ∷ []) l h = ground arith
shared syspath (a ∷ b ∷ c ∷ d ∷ e ∷ f ∷ g ∷ i ∷ rest) l h = absurd (omega arith)
shared devtype [] l h = absurd (ground arith)
shared devtype (a ∷ []) l h = absurd (ground arith)
shared devtype (a ∷ b ∷ []) l h = absurd (ground arith)
shared devtype (a ∷ b ∷ c ∷ []) l h = absurd (ground arith)
shared devtype (a ∷ b ∷ c ∷ d ∷ []) l h = absurd (ground arith)
shared devtype (a ∷ b ∷ c ∷ d ∷ e ∷ []) l h = absurd (ground arith)
shared devtype (a ∷ b ∷ c ∷ d ∷ e ∷ f ∷ []) l h = absurd (ground arith)
shared devtype (a ∷ b ∷ c ∷ d ∷ e ∷ f ∷ g ∷ []) l h = ground arith
shared devtype (a ∷ b ∷ c ∷ d ∷ e ∷ f ∷ g ∷ i ∷ rest) l h = absurd (omega arith)

shared_key :
    (kind : DeviceRuleKind) (rest : Text)
    → ends_with (prefix kind ++ b'.' ∷ rest) (codes ".profile") ≡ true
    → length (prefix kind ++ b'.' ∷ rest) - 8 < length (prefix kind) + 1
    → prefix kind ++ b'.' ∷ rest ≡ prefix kind ++ codes ".profile"
shared_key syspath rest h l =
    ap (λ r. prefix syspath ++ b'.' ∷ r) (shared syspath rest (omega (arith, l)) h)
shared_key devtype rest h l =
    ap (λ r. prefix devtype ++ b'.' ∷ r) (shared devtype rest (omega (arith, l)) h)

-- The pattern of a device rule with a slice whose start is past its end.
rule_key :
    (kind : DeviceRuleKind) (key : Text)
    → starts_with key (prefix kind ++ b'.' ∷ []) ≡ true
    → ends_with key (codes ".profile") ≡ true
    → length key - 8 < length (prefix kind) + 1
    → key ≡ prefix kind ++ codes ".profile"
rule_key kind key h k l =
    let n = length (prefix kind ++ b'.' ∷ []) in
    let e =
      starts_with-append key (prefix kind ++ b'.' ∷ []) h
      ∙ append_assoc (prefix kind) (b'.' ∷ []) (drop n key) in
    e
    ∙ shared_key kind (drop n key) (subst (λ t. ends_with t (codes ".profile") ≡ true) e k)
        (subst (λ t. length t - 8 < length (prefix kind) + 1) e l)

put-Returns {ℓ} : {A : Type ℓ} (f : A → Config) (v : Option A) → Returns (put f v)
put-Returns f none = tt
put-Returns f (some a) = tt

set_binding-Returns : (self : Config) (key value : Text) → Returns (set_binding self key value)
unfolding set_binding
set_binding-Returns self key value = by_action (parse_desktop_action value)
  where
    by_action : (o : Option DesktopAction) → Returns (bind_action self (drop 8 key) o)
    by_action none = tt
    by_action (some action) = put-Returns _ (field_named (drop 8 key))

-- No setter of a named key panics.
arms-Return : All (λ arm. (self : Config) (s : Text) → Returns (arm.1 self s)) arms
unfolding set_backend set_screen set_bool set_cal
arms-Return = (
  (λ self s.
      if_both Returns (eq_text s (codes "uinput")) (accepted self) (refused invalid_value) tt tt),
  (
    (λ self s. put-Returns _ (parse_profile s)),
    (
      (λ self s. put-Returns _ (parse_int s (pos 1) (pos 127))),
      (
        (λ self s. put-Returns _ (parse_int s (pos 1) (pos 127))),
        (
          (λ self s. put-Returns _ (parse_int s (pos 0) (pos 127))),
          (
            (λ self s. put-Returns _ (parse_int s (pos 0) (pos 95))),
            (
              (λ self s. put-Returns _ (parse_ir_tracking s)),
              (
                (λ self s. put-Returns _ (parse_ir_aim_mapping s)),
                (
                  (λ self s. put-Returns _ (parse_int s (pos 0) (pos 32767))),
                  (
                    (λ self s. put-Returns _ (parse_int s (pos 0) (pos 32767))),
                    (
                      (λ self s. put-Returns _ (parse_int s (pos 0) (pos 32767))),
                      (
                        (λ self s. put-Returns _ (parse_int s (pos 0) (pos 32767))),
                        (
                          (λ self s. put-Returns _ (parse_aim_mode s)),
                          (
                            (λ self s. put-Returns _ (parse_aim_source s)),
                            (
                              (λ self s. put-Returns _ (parse_aim_activation s)),
                              (
                                (λ self s. put-Returns _ (parse_int s (pos 1) (pos 127))),
                                (
                                  (λ self s. put-Returns _ (parse_int s (pos 0) (pos 32767))),
                                  (
                                    (λ self s. put-Returns _ (parse_int s (pos 0) (pos 95))),
                                    (
                                      (λ self s. put-Returns _ (parse_bool s)),
                                      (
                                        (λ self s. put-Returns _ (parse_bool s)),
                                        (
                                          (λ self s.
                                              put-Returns _
                                                (parse_int s (negsuc 32767) (pos 32767))),
                                          (
                                            (λ self s.
                                                put-Returns _
                                                  (parse_int s (negsuc 32767) (pos 32767))),
                                            (
                                              (λ self s.
                                                  put-Returns _
                                                    (parse_int s (negsuc 32767) (pos 32767))),
                                              (
                                                (λ self s.
                                                    put-Returns _
                                                      (parse_int s (negsuc 32767) (pos 32767))),
                                                (
                                                  (λ self s.
                                                      put-Returns _
                                                        (parse_int s (negsuc 32767) (pos 32767))),
                                                  (
                                                    (λ self s.
                                                        put-Returns _
                                                          (parse_int s (negsuc 32767) (pos 32767))),
                                                    (
                                                      (λ self s.
                                                          put-Returns _
                                                            (parse_int s (pos 1) (pos 30))),
                                                      tt,
                                                    ),
                                                  ),
                                                ),
                                              ),
                                            ),
                                          ),
                                        ),
                                      ),
                                    ),
                                  ),
                                ),
                              ),
                            ),
                          ),
                        ),
                      ),
                    ),
                  ),
                ),
              ),
            ),
          ),
        ),
      ),
    ),
  ),
)

-- A panic of `set_key` has a cause: a value that is a profile, and one of two keys.
abbrev Cause : Text → Text → Type 0
Cause key value =
    (parse_profile value ≢ none)
    × ((key ≡ codes "device.profile") ⊎ (key ≡ codes "device-type.profile"))

Returns-panicked {κ} : (o : Outcome) {C : Type κ} → Returns o → o ≡ panicked → C
Returns-panicked o h e = absurd (subst Returns e h)

set_pattern-panicked :
    (self : Config) (key value : Text) → set_pattern self key value ≡ panicked → Cause key value
unfolding set_pattern set_rule
set_pattern-panicked self key value =
    if_cases Panics (starts_with key (codes "desktop.")) _ _
      (λ t. Returns-panicked _ (set_binding-Returns self key value))
      (λ f.
        if_cases Panics (starts_with key (codes "device.") && ends_with key (codes ".profile")) _ _
          (λ t e.
            let both = and_parts (starts_with key (codes "device.")) _ t in
            let cause = sliced-panicked self key syspath (parse_profile value) e in
            (cause.0, inl (rule_key syspath key both.0 both.1 cause.1)))
          (λ g.
            if_cases Panics
              (starts_with key (codes "device-type.") && ends_with key (codes ".profile")) _ _
              (λ t e.
                let both = and_parts (starts_with key (codes "device-type.")) _ t in
                let cause = sliced-panicked self key devtype (parse_profile value) e in
                (cause.0, inr (rule_key devtype key both.0 both.1 cause.1)))
              (λ i e. absurd cc)))
  where
    Panics : Outcome → Type 0
    Panics o = o ≡ panicked → Cause key value

run_arm-panicked :
    (self : Config) (key value : Text) (o : Option (Config → Text → Outcome))
    → by_name arms key ≡ o
    → run_arm self key value o ≡ panicked
    → Cause key value
run_arm-panicked self key value none e h = set_pattern-panicked self key value h
run_arm-panicked self key value (some arm) e h =
    Returns-panicked (arm self value)
      (by_name-All (λ arm. (self : Config) (s : Text) → Returns (arm self s)) arms key arm
        arms-Return e self value)
      h

-- The slice of each of the two keys starts past its end.
sliced_short :
    (self : Config) (kind : DeviceRuleKind) (o : Option Profile)
    → o ≢ none
    → sliced self (prefix kind ++ codes ".profile") kind o ≡ panicked
sliced_short self kind none n = absurd (n refl)
sliced_short self syspath (some p) n = refl
sliced_short self devtype (some p) n = refl

Cause-panicked :
    (self : Config) (key value : Text) → Cause key value → set_key self key value ≡ panicked
unfolding set_key set_pattern set_rule by_name eq_text starts_with
Cause-panicked self key value (n, inl e) =
    ap (λ k. set_key self k value) e ∙ sliced_short self syspath (parse_profile value) n
Cause-panicked self key value (n, inr e) =
    ap (λ k. set_key self k value) e ∙ sliced_short self devtype (parse_profile value) n

-- A key and its value, whatever they are, panic exactly when the value is a profile and the key is
-- `device.profile` or `device-type.profile`: these start with the prefix of a device rule and end in
-- `.profile` with the dot shared, so that the slice between the two starts past its end.
pub set_key-panicked_iff :
    (self : Config) (key value : Text)
    → (set_key self key value ≡ panicked) ↔ (
        (parse_profile value ≢ none)
        × ((key ≡ codes "device.profile") ⊎ (key ≡ codes "device-type.profile")))
unfolding set_key
set_key-panicked_iff self key value =
    (run_arm-panicked self key value (by_name arms key) refl, Cause-panicked self key value)
