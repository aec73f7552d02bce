-- ===== src/Prelude/Modulo.antt =====
-- The remainder of a sum that passes the modulus at most once.
use Prim.Native.Nat.{ℕ, ◌+◌, ◌-◌, ◌*◌, ◌%◌, ◌≤◌, ◌<◌}
use mathlib.Core.Path.{◌≡◌, ◌∙◌}
use mathlib.Core.Logic.{◌⊎◌, inl, inr}
use native.Mathlib.Decide.{dec_lt}
use native.Mathlib.Nat.{mod-add-mod, mod-eq_of_lt, mod-eq-sub-mod}
use native.Mathlib.Omega.{arith}

pub mod_once : (c a : ℕ) → a < 2 * c → ((a < c) × (a % c ≡ a)) ⊎ ((c ≤ a) × (a % c ≡ a - c))
mod_once c a h = elim (dec_lt a c) [
  | yes p ↦ inl (p, mod-eq_of_lt p)
  | no p ↦ inr (
    omega arith,
    mod-eq-sub-mod {n = a} {m = c} (omega arith) ∙ mod-eq_of_lt {n = a - c} {m = c} (omega arith),
  )
]

-- The remainder may be taken before the last steps.
pub mod_later : (c a b : ℕ) → (a % c + b) % c ≡ (a + b) % c
mod_later c a b = mod-add-mod a c b
