-- ===== src/Aim/Bounds.antt =====
-- The aim's output stays in the range of a virtual stick (crates/wiiland-core/src/aim.rs).
use wiiland.Prelude.{
  ◌≡◌, refl, inl, inr, arith, Bool, true, false, Option, none, some, if◌then◌else◌, Bool-cases,
}
use wiiland.Prelude.Int.{
  ℤ, pos, negsuc, pos_part, ◌≤ℤ◌, tdiv, Within, eqb_ℤ, leb_ℤ, neg, clamp, clamp-Within, parts_apart,
}
use wiiland.Prelude.Width.{IsI32, wrap_i32, wrap_i32-eq, wrap_i32-IsI32, mul_i64, sub_i64, add_i64}
use wiiland.Prelude.Blend.{blend, blend-Within}
use wiiland.Config.Types.{IrRectangle, Config}
use wiiland.Config.Validate.{validate}
use wiiland.Pointer.Select.{IrPoint}
use wiiland.Aim.State.{AimVector, AimResult, AimConfig, from_config, AimState, is_active, reset}
use wiiland.Aim.Scale.{scale-strength}
use wiiland.Aim.{invert, on_screen, scale, smooth, emit, scale_ir_absolute_axis}

-- The ranges that a validated configuration has.
pub record IsAimConfig (config : AimConfig) : Type 0 where
  pub sensitivity : Within (pos 1) (pos 127) config.sensitivity
  pub deadzone : Within (pos 0) (pos 32767) config.deadzone
  pub smoothing : Within (pos 0) (pos 95) config.smoothing

-- The range of a stick, without its least value.
abbrev IsStick : ℤ → Type 0
IsStick = Within (negsuc 32766) (pos 32767)

nonneg-eq : (a : ℤ) → pos 0 ≤ℤ a → a ≡ pos (pos_part a)
nonneg-eq (pos n) h = refl
nonneg-eq (negsuc n) h = absurd (omega arith)

pub scale-IsStick :
    (config : AimConfig) (value : ℤ)
    → IsAimConfig config
    → IsI32 value
    → IsStick (scale config value)
scale-IsStick config value c h =
    let d = nonneg-eq config.deadzone (omega arith) in
    let s = nonneg-eq config.sensitivity (omega arith) in
    let low_sign = parts_apart config.sensitivity in
    let parts =
      scale-strength config (pos_part config.deadzone) (pos_part config.sensitivity) value d s
        (omega arith) h in
    omega arith

-- What the bounds promise of a state, and of a result.
pub record IsBounded (self : AimState) : Type 0 where
  pub config : IsAimConfig self.config
  pub last_x : IsStick self.last_x
  pub last_y : IsStick self.last_y

abbrev IsStickVector : AimVector → Type 0
IsStickVector v = IsStick v.x × IsStick v.y

abbrev pub OutputFits : Option AimVector → Type 0
OutputFits none = Unit {0}
OutputFits (some v) = IsStickVector v

abbrev pub Fits : AimState × AimResult → Type 0
Fits r = IsBounded r.0 × OutputFits r.1.output

invert-IsStick : (on : Bool) (v : ℤ) → IsStick v → IsStick (invert on v)
unfolding neg wrap_i32
invert-IsStick true v h = ground arith
invert-IsStick false v h = h

blend-IsStick :
    (a b smoothing : ℤ)
    → Within (pos 0) (pos 95) smoothing
    → IsStick a
    → IsStick b
    → IsStick (blend a b smoothing)
blend-IsStick a b (pos n) k h i =
    blend-Within (negsuc 32766) (pos 32767) a b n (omega arith) (omega arith) (omega arith) h i
blend-IsStick a b (negsuc n) k h i = absurd (omega arith)

smooth-IsBounded :
    (self : AimState) (v : AimVector)
    → IsBounded self
    → IsStickVector v
    → IsBounded (smooth self v).0 × IsStickVector (smooth self v).1
unfolding smooth
smooth-IsBounded self v b h = elim (Bool-cases (eqb_ℤ self.config.smoothing (pos 0))) [
  | inl e ↦ rw e (record { config = b.config; last_x = h.0; last_y = h.1 }, h)
  | inr e ↦
      let x = blend-IsStick self.last_x v.x self.config.smoothing b.config.smoothing b.last_x h.0 in
      let y = blend-IsStick self.last_y v.y self.config.smoothing b.config.smoothing b.last_y h.1 in
      rw e (record { config = b.config; last_x = x; last_y = y }, (x, y))
]

pub reset-IsBounded : (self : AimState) → IsBounded self → IsBounded (reset self)
unfolding reset
reset-IsBounded self b = record { config = b.config; last_x = omega arith; last_y = omega arith }

pub emit-Fits :
    (self : AimState) (v : AimVector) → IsBounded self → IsStickVector v → Fits (emit self v)
unfolding emit
emit-Fits self v b h = elim (Bool-cases (is_active self)) [
  | inl e ↦ rw e (
      smooth-IsBounded self
        (record { x = invert self.config.invert_x v.x; y = invert self.config.invert_y v.y }) b
        (invert-IsStick self.config.invert_x v.x h.0, invert-IsStick self.config.invert_y v.y h.1))
  | inr e ↦ rw e (reset-IsBounded self b, omega arith)
]

clamped-IsStick : (t : ℤ) → IsStick (wrap_i32 (clamp (negsuc 32766) (pos 32767) t))
clamped-IsStick t =
    let inside = clamp-Within (negsuc 32766) (pos 32767) t (omega arith) in
    rw (wrap_i32-eq (clamp (negsuc 32766) (pos 32767) t) (omega arith)) inside

-- The value is clamped on the way out.
absolute-IsStick : (v lo hi : ℤ) → IsStick (scale_ir_absolute_axis v lo hi)
unfolding scale_ir_absolute_axis
absolute-IsStick v lo hi =
    elim (leb_ℤ (tdiv (sub_i64 hi lo) (pos 2)) (pos 0))
      as (λ b.
        IsStick (if b then pos 0 else wrap_i32 (clamp (negsuc 32766) (pos 32767) quotient))) [
          | true ↦ omega arith
          | false ↦ clamped-IsStick quotient
        ]
  where
    quotient : ℤ
    quotient =
        tdiv (mul_i64 (sub_i64 v (tdiv (add_i64 lo hi) (pos 2))) (pos 32767))
          (tdiv (sub_i64 hi lo) (pos 2))

IsI32-of_IsStick : (v : ℤ) → IsStick v → IsI32 v
IsI32-of_IsStick v h = omega arith

pub on_screen-IsStick :
    (self : AimState) (point : IrPoint) (screen : Option IrRectangle)
    → IsAimConfig self.config
    → IsStickVector (on_screen self point screen)
on_screen-IsStick self point (some s) c = (
  scale-IsStick self.config _ c (IsI32-of_IsStick _ (absolute-IsStick point.x s.left s.right)),
  scale-IsStick self.config _ c (IsI32-of_IsStick _ (absolute-IsStick point.y s.top s.bottom)),
)
on_screen-IsStick self point none c = elim (Bool-cases self.ir_active) [
  | inl e ↦ rw e (
    scale-IsStick self.config _ c (wrap_i32-IsI32 _),
    scale-IsStick self.config _ c (wrap_i32-IsI32 _),
  )
  | inr e ↦ rw e (omega arith)
]

-- A test between two results that both fit.
pub if-Fits :
    (test : Bool) (r s : AimState × AimResult) → Fits r → Fits s → Fits (if test then r else s)
if-Fits true r s h k = h
if-Fits false r s h k = k

-- A configuration that `validate` accepts gives the aim options in their ranges.
pub validate-IsAimConfig :
    (config : Config) → validate config ≡ true → IsAimConfig (from_config config)
unfolding validate from_config
validate-IsAimConfig config h = record {
  sensitivity = ground arith;
  deadzone = ground arith;
  smoothing = ground arith;
}
