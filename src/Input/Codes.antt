-- ===== src/Input/Codes.antt =====
-- The stable button numbers of crates/wiiland-core/src/input.rs: a round trip both ways.
use wiiland.Prelude.{
  ℕ, ◌<◌, ◌≡◌, refl, sym, ap, ◌∙◌, ◌↔◌, Bool, true, false, none, some, arith, ◌==◌,
}
use wiiland.Prelude.Lists.{get_elem?-some_lt, every_below, every_below_at}
use wiiland.Input.{Button, left, all, from_code, code}

pub from_code-code : (u : Button) → from_code (code u) ≡ some u
unfolding from_code code
from_code-code left = refl
from_code-code _ = refl

abbrev decodes_to_itself : ℕ → Bool
decodes_to_itself n = elim (from_code n) [ none ↦ false | some u ↦ code u == n ]

table : every_below decodes_to_itself 28 ≡ true
unfolding every_below from_code code
table = refl

code_of_entry : (n : ℕ) (u : Button) → n < 28 → from_code n ≡ some u → code u ≡ n
code_of_entry n u h e = ground (arith, every_below_at decodes_to_itself 28 n h table)

from_code_small : (n : ℕ) (u : Button) → from_code n ≡ some u → n < 28
unfolding from_code
from_code_small n u e = get_elem?-some_lt all n u e

-- Decoding a number gives a button exactly when the number is that button's.
pub from_code-code_iff : (n : ℕ) (u : Button) → (from_code n ≡ some u) ↔ (code u ≡ n)
from_code-code_iff n u =
    (λ e. code_of_entry n u (from_code_small n u e) e, λ e. ap from_code (sym e) ∙ from_code-code u)
