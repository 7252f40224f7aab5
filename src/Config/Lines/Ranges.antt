-- ===== src/Config/Lines/Ranges.antt =====
-- What a line of a configuration file keeps, for crates/wiiland-core/src/config.rs.
use wiiland.Prelude.{
  ℕ, ◌+◌, ◌-◌, ◌≡◌, refl, sym, subst, arith, true, ltb, List, [], ◌∷◌, Option, none, some, ◌&&◌,
  if_both, if_cases,
}
use wiiland.Prelude.Int.{ℤ, pos, negsuc}
use wiiland.Prelude.Lists.{All, length}
use wiiland.Prelude.Text.{Text, codes, drop, eq_text, parse_i64}
use wiiland.Config.Types.{Profile, is_valid, Config, DesktopAction, DeviceRuleKind, DeviceRule}
use wiiland.Config.Names.{
  by_name, parse_profile, parse_ir_tracking, parse_ir_aim_mapping, parse_aim_mode, parse_aim_source,
  parse_aim_activation, parse_desktop_action,
}
use wiiland.Config.Rules.{
  Outcome, accepted, refused, panicked, invalid_value, set_rule, set_middle, sliced, middle_of,
  prefix,
}
use wiiland.Config.Rules.Keeps.{Good, OnlyRules, set_middle-OnlyRules}
use wiiland.Config.Validate.{within, in_ranges, good_rules}
use wiiland.Config.Lines.{
  arms, bind_action, field_named, in_range, parse_bool, parse_int, put, set_backend, set_binding,
  set_bool, set_cal, set_int, set_screen,
}

-- The parts of a validated configuration that each line keeps.
abbrev pub IsSettled : Config → Type 0
IsSettled self = (is_valid self.profile && (in_ranges self && good_rules self)) ≡ true

-- A line keeps them when it accepts.
abbrev pub Keeps : Outcome → Type 0
Keeps (accepted self) = IsSettled self
Keeps (refused why) = Unit
Keeps panicked = Unit

put-Keeps {ℓ} :
    {A : Type ℓ} (f : A → Config) (v : Option A)
    → ((a : A) → v ≡ some a → IsSettled (f a))
    → Keeps (put f v)
put-Keeps f none h = tt
put-Keeps f (some a) h = h a refl

parse_int-within :
    (s : Text) (low high : ℕ) (v : ℤ)
    → parse_int s (pos low) (pos high) ≡ some v
    → within low high v ≡ true
unfolding parse_int
parse_int-within s low high v h = by_value (parse_i64 s) h
  where
    by_value : (o : Option ℤ) → in_range (pos low) (pos high) o ≡ some v → within low high v ≡ true
    by_value none e = ground arith
    by_value (some n) e = ground arith

set_int-Keeps :
    (low high : ℕ) (f : Config → ℤ → Config) (self : Config) (s : Text)
    → ((v : ℤ) → within low high v ≡ true → IsSettled (f self v))
    → Keeps (set_int low high f self s)
set_int-Keeps low high f self s h =
    put-Keeps (f self) (parse_int s (pos low) (pos high))
      (λ v e. h v (parse_int-within s low high v e))

some-injective {ℓ} : {A : Type ℓ} {a b : A} → some a ≡ some b → a ≡ b
some-injective e = cc

pub by_name-All {ℓ κ} :
    {A : Type ℓ} (P : A → Type κ) (arms : List (Text × A)) (s : Text) (a : A)
    → All (λ arm. P arm.1) arms
    → by_name arms s ≡ some a
    → P a
unfolding by_name
by_name-All P [] s a h e = absurd (cc)
by_name-All P (arm ∷ arms) s a h e =
    if_cases (λ o. o ≡ some a → P a) (eq_text s arm.0) (some arm.1) (by_name arms s)
      (λ _ f. subst P (some-injective f) h.0) (λ _ f. by_name-All P arms s a h.1 f) e

profile-valid : (s : Text) (p : Profile) → parse_profile s ≡ some p → is_valid p ≡ true
unfolding parse_profile by_name is_valid
profile-valid s p h = ground arith

is_sound_profile :
    (self : Config) (p : Profile)
    → IsSettled self
    → is_valid p ≡ true
    → IsSettled (record self { profile = p })
unfolding in_ranges good_rules
is_sound_profile self p h k = ground arith

pub arms-Keep : All (λ arm. (self : Config) (s : Text) → IsSettled self → Keeps (arm.1 self s)) arms
unfolding in_ranges good_rules set_backend set_screen set_bool set_cal
arms-Keep = (
  (λ self s h.
      if_both Keeps (eq_text s (codes "uinput")) (accepted self) (refused invalid_value) h tt),
  (
    (λ self s h.
        put-Keeps (λ v. record self { profile = v }) (parse_profile s)
          (λ p e. is_sound_profile self p h (profile-valid s p e))),
    (
      (λ self s h.
          set_int-Keeps 1 127 (λ self v. record self { pointer_speed = v }) self s
            (λ v e. ground arith)),
      (
        (λ self s h.
            set_int-Keeps 1 127 (λ self v. record self { ir_speed = v }) self s
              (λ v e. ground arith)),
        (
          (λ self s h.
              set_int-Keeps 0 127 (λ self v. record self { ir_deadzone = v }) self s
                (λ v e. ground arith)),
          (
            (λ self s h.
                set_int-Keeps 0 95 (λ self v. record self { ir_smoothing = v }) self s
                  (λ v e. ground arith)),
            (
              (λ self s h.
                  put-Keeps (λ v. record self { ir_tracking = v }) (parse_ir_tracking s)
                    (λ v e. h)),
              (
                (λ self s h.
                    put-Keeps (λ v. record self { ir_aim_mapping = v }) (parse_ir_aim_mapping s)
                      (λ v e. h)),
                (
                  (λ self s h. put-Keeps _ (parse_int s (pos 0) (pos 32767)) (λ v e. h)),
                  (
                    (λ self s h. put-Keeps _ (parse_int s (pos 0) (pos 32767)) (λ v e. h)),
                    (
                      (λ self s h. put-Keeps _ (parse_int s (pos 0) (pos 32767)) (λ v e. h)),
                      (
                        (λ self s h. put-Keeps _ (parse_int s (pos 0) (pos 32767)) (λ v e. h)),
                        (
                          (λ self s h.
                              put-Keeps (λ v. record self { aim_mode = v }) (parse_aim_mode s)
                                (λ v e. h)),
                          (
                            (λ self s h.
                                put-Keeps (λ v. record self { aim_source = v }) (parse_aim_source s)
                                  (λ v e. h)),
                            (
                              (λ self s h.
                                  put-Keeps (λ v. record self { aim_activation = v })
                                    (parse_aim_activation s) (λ v e. h)),
                              (
                                (λ self s h.
                                    set_int-Keeps 1 127
                                      (λ self v. record self { aim_sensitivity = v }) self s
                                      (λ v e. ground arith)),
                                (
                                  (λ self s h.
                                      set_int-Keeps 0 32767
                                        (λ self v. record self { aim_deadzone = v }) self s
                                        (λ v e. ground arith)),
                                  (
                                    (λ self s h.
                                        set_int-Keeps 0 95
                                          (λ self v. record self { aim_smoothing = v }) self s
                                          (λ v e. ground arith)),
                                    (
                                      (λ self s h. put-Keeps _ (parse_bool s) (λ v e. h)),
                                      (
                                        (λ self s h. put-Keeps _ (parse_bool s) (λ v e. h)),
                                        (
                                          (λ self s h.
                                              put-Keeps _ (parse_int s (negsuc 32767) (pos 32767))
                                                (λ v e. h)),
                                          (
                                            (λ self s h.
                                                put-Keeps _ (parse_int s (negsuc 32767) (pos 32767))
                                                  (λ v e. h)),
                                            (
                                              (λ self s h.
                                                  put-Keeps _
                                                    (parse_int s (negsuc 32767) (pos 32767))
                                                    (λ v e. h)),
                                              (
                                                (λ self s h.
                                                    put-Keeps _
                                                      (parse_int s (negsuc 32767) (pos 32767))
                                                      (λ v e. h)),
                                                (
                                                  (λ self s h.
                                                      put-Keeps _
                                                        (parse_int s (negsuc 32767) (pos 32767))
                                                        (λ v e. h)),
                                                  (
                                                    (λ self s h.
                                                        put-Keeps _
                                                          (parse_int s (negsuc 32767) (pos 32767))
                                                          (λ v e. h)),
                                                    (
                                                      (λ self s h.
                                                          set_int-Keeps 1 30
                                                            (λ self v. record self {
                                                            aim_calibration_duration = v;
                                                            })
                                                            self s (λ v e. ground arith)),
                                                      tt,
                                                    ),
                                                  ),
                                                ),
                                              ),
                                            ),
                                          ),
                                        ),
                                      ),
                                    ),
                                  ),
                                ),
                              ),
                            ),
                          ),
                        ),
                      ),
                    ),
                  ),
                ),
              ),
            ),
          ),
        ),
      ),
    ),
  ),
)

pub set_binding-Keeps :
    (self : Config) (key value : Text) → IsSettled self → Keeps (set_binding self key value)
unfolding set_binding in_ranges good_rules
set_binding-Keeps self key value h = by_action (parse_desktop_action value)
  where
    by_action : (o : Option DesktopAction) → Keeps (bind_action self (drop 8 key) o)
    by_action none = tt
    by_action (some action) =
        put-Keeps (λ f. record self { desktop_bindings = f action self.desktop_bindings })
          (field_named (drop 8 key)) (λ f e. h)

settled-Good : (self : Config) → IsSettled self → Good self.device_rules
unfolding good_rules
settled-Good self h = (ground arith, ground arith)

settle_rules :
    (self : Config) (rules : List DeviceRule)
    → IsSettled self
    → Good rules
    → IsSettled (record self { device_rules = rules })
unfolding in_ranges good_rules
settle_rules self rules h g = ground (arith, g.0, g.1)

only_rules : (self : Config) (o : Outcome) → IsSettled self → OnlyRules self o → Keeps o
only_rules self (accepted next) h k =
    subst IsSettled (sym k.1) (settle_rules self next.device_rules h k.0)
only_rules self (refused why) h k = tt
only_rules self panicked h k = tt

pub set_rule-Keeps :
    (self : Config) (key value : Text) (kind : DeviceRuleKind)
    → IsSettled self
    → Keeps (set_rule self key value kind)
unfolding set_rule
set_rule-Keeps self key value kind h = by_profile (parse_profile value) refl
  where
    by_profile : (o : Option Profile) → parse_profile value ≡ o → Keeps (sliced self key kind o)
    by_profile none e = tt
    by_profile (some p) e =
        if_both Keeps (ltb (length key - 8) (length (prefix kind) + 1)) panicked
          (set_middle self (middle_of key kind) p kind) tt
          (only_rules self (set_middle self (middle_of key kind) p kind) h (
            set_middle-OnlyRules self (middle_of key kind) p kind (settled-Good self h)
              (profile-valid value p e)))
