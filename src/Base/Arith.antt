-- ===== src/Base/Arith.antt =====
-- Division with remainder by a variable.
use Prim.Native.Nat.{ℕ, ◌+◌, ◌*◌, ◌/◌, ◌%◌, ◌^◌, ◌<◌}
use mathlib.Core.Path.{◌≡◌, ◌∙◌, sym, ap}
use native.Mathlib.Nat.{div-add-mod', mul-add-div_right, div-eq_of_lt, mul-add-mod_self_right}
use native.Mathlib.Nat.{mod-eq_of_lt}
use native.Mathlib.Numerals.{towards_suc}
use native.Mathlib.Omega.{arith}

pub quotient_lem : (n q r : ℕ) → r < n → (q * n + r) / n ≡ q
quotient_lem n q r h = omega (arith, mul-add-div_right {m = n} (omega arith) q r, div-eq_of_lt h)

pub remainder_lem : (n q r : ℕ) → r < n → (q * n + r) % n ≡ r
remainder_lem n q r h = mul-add-mod_self_right q n r ∙ mod-eq_of_lt h

-- A quotient and a remainder determine the number.
pub div_mod_unique : (n q r p s : ℕ) → r < n → s < n → q * n + r ≡ p * n + s → (q ≡ p) × (r ≡ s)
div_mod_unique n q r p s hr hs e = (
  sym (quotient_lem n q r hr) ∙ ap (λ t. t / n) e ∙ quotient_lem n p s hs,
  sym (remainder_lem n q r hr) ∙ ap (λ t. t % n) e ∙ remainder_lem n p s hs,
)

pub div_mod_eq : (a n : ℕ) → (a / n) * n + a % n ≡ a
div_mod_eq a n = div-add-mod' a n

pub pow_step : (n : ℕ) → 2 ^ (n + 1) ≡ 2 * 2 ^ n
pow_step n = simp towards_suc (omega arith)
