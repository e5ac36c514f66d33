-- ===== src/Base/And.antt =====
-- `&` of C at variables: it does not exceed its mask.
use Prim.Native.Nat.{ℕ, zero, suc, ◌/◌, ◌≤◌, min, bit_and}
use Prim.Native.Nat.{digits, bit_and-bitwise}
use native.Mathlib.Omega.{arith}

abbrev and_digits : ℕ → ℕ → ℕ → ℕ
and_digits n a b = digits (λ b. 0) min n a b

and_digits-le : (n a b : ℕ) → and_digits n a b ≤ b
and_digits-le zero a b = omega arith
and_digits-le (suc n) zero b = omega arith
and_digits-le (suc n) (suc a) b = omega (arith, and_digits-le n (suc a / 2) (b / 2))

pub bit_and-le : (a b : ℕ) → bit_and a b ≤ b
bit_and-le a b = simp bit_and-bitwise (and_digits-le a a b)
