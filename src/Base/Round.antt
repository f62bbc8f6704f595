-- ===== src/Base/Round.antt =====
-- Indices that go round at a capacity.
use Prim.Native.Nat.{ℕ, ◌+◌, ◌-◌, ◌%◌, ◌*◌, ◌≤◌, ◌<◌}
use mathlib.Core.Path.{◌≡◌, ◌∙◌}
use mathlib.Core.Logic.{◌⊎◌, inl, inr}
use native.Mathlib.Decide.{dec_lt}
use native.Mathlib.Omega.{arith}
use native.Mathlib.Nat.{mod-eq_of_lt, mod-eq-sub-mod}

-- A number below twice the modulus is reduced by one subtraction at most.
pub mod_cases :
    (x cap : ℕ) → x < 2 * cap → ((x < cap) × (x % cap ≡ x)) ⊎ ((cap ≤ x) × (x % cap ≡ x - cap))
mod_cases x cap h = elim (dec_lt x cap) [
  | yes p ↦ inl (p, mod-eq_of_lt p)
  | no p ↦ inr (
    omega arith,
    mod-eq-sub-mod {n = x} {m = cap} (omega arith) ∙ mod-eq_of_lt {n = x - cap} (omega arith),
  )
]

-- Two places of a window that is no longer than the array are different cells.
pub add-mod_inj :
    {cap : ℕ} (h i k : ℕ) → h < cap → i < cap → k < cap → (h + i) % cap ≡ (h + k) % cap → i ≡ k
add-mod_inj {cap} h i k hh hi hk e =
    omega (arith, mod_cases (h + i) cap (omega arith), mod_cases (h + k) cap (omega arith))
