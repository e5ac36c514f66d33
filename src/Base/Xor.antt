-- ===== src/Base/Xor.antt =====
-- `^` of C at variables: the laws of exclusive or, by recursion on the lowest bit.
use Prim.Native.Nat.{ℕ, zero, suc, ◌+◌, ◌*◌, ◌/◌, ◌%◌, ◌^◌, ◌<◌, ◌≤◌, bit_xor}
use Prim.Native.Nat.{digits, bitwise, differ, bit_xor-bitwise}
use mathlib.Core.Path.{◌≡◌, refl, ◌∙◌, sym, ap}
use native.Mathlib.Nat.{le_refl}
use native.Mathlib.Omega.{arith}

abbrev xor_digits : ℕ → ℕ → ℕ → ℕ
xor_digits n a b = digits (λ b. b) differ n a b

xor_digits_fuel : (n m a b : ℕ) → a ≤ n → a ≤ m → xor_digits n a b ≡ xor_digits m a b
xor_digits_fuel zero zero a b p q = refl
xor_digits_fuel zero (suc m) zero b p q = refl
xor_digits_fuel zero (suc m) (suc a) b p q = absurd (omega arith)
xor_digits_fuel (suc n) zero zero b p q = refl
xor_digits_fuel (suc n) zero (suc a) b p q = absurd (omega arith)
xor_digits_fuel (suc n) (suc m) zero b p q = refl
xor_digits_fuel (suc n) (suc m) (suc a) b p q =
    rw (xor_digits_fuel n m (suc a / 2) (b / 2) (omega arith) (omega arith))

differ-mod : (a b : ℕ) → a < 2 → b < 2 → differ a b ≡ (a + b) % 2
differ-mod zero zero p q = refl
differ-mod zero (suc zero) p q = refl
differ-mod (suc zero) zero p q = refl
differ-mod (suc zero) (suc zero) p q = refl
differ-mod zero (suc (suc b)) p q = absurd (omega arith)
differ-mod (suc zero) (suc (suc b)) p q = absurd (omega arith)
differ-mod (suc (suc a)) b p q = absurd (omega arith)

bitwise_step :
    (a b : ℕ)
    → bitwise (λ b. b) differ (suc a) b
      ≡ bitwise (λ b. b) differ (suc a / 2) (b / 2) * 2 + (suc a % 2 + b % 2) % 2
bitwise_step a b = omega (
  arith,
  xor_digits_fuel a (suc a / 2) (suc a / 2) (b / 2) (omega arith) (le_refl _),
  differ-mod (suc a % 2) (b % 2) (omega arith) (omega arith),
)

pub bit_xor_step : (a b : ℕ) → bit_xor a b ≡ bit_xor (a / 2) (b / 2) * 2 + (a % 2 + b % 2) % 2
bit_xor_step zero b = simp bit_xor-bitwise (omega arith)
bit_xor_step (suc a) b = simp bit_xor-bitwise (bitwise_step a b)

zero-bit_xor : (b : ℕ) → bit_xor 0 b ≡ b
zero-bit_xor b = bit_xor-bitwise 0 b

xor_comm_fuel : (n a b : ℕ) → a + b ≤ n → bit_xor a b ≡ bit_xor b a
xor_comm_fuel zero a b h = let e : a ≡ 0 = omega arith in let f : b ≡ 0 = omega arith in rw (e, f)
xor_comm_fuel (suc n) a b h =
    omega (arith, bit_xor_step a b, bit_xor_step b a, xor_comm_fuel n (a / 2) (b / 2) (omega arith))

pub xor_comm : (a b : ℕ) → bit_xor a b ≡ bit_xor b a
xor_comm a b = xor_comm_fuel (a + b) a b (le_refl _)

pub xor-zero : (a : ℕ) → bit_xor a 0 ≡ a
xor-zero a = xor_comm a 0 ∙ zero-bit_xor a

pub zero-xor : (b : ℕ) → bit_xor 0 b ≡ b
zero-xor b = zero-bit_xor b

pub xor_halves :
    (a b : ℕ)
    → (bit_xor a b / 2 ≡ bit_xor (a / 2) (b / 2)) × (bit_xor a b % 2 ≡ (a % 2 + b % 2) % 2)
xor_halves a b = omega (arith, bit_xor_step a b)

xor_assoc_fuel : (n a b c : ℕ) → a + b + c ≤ n → bit_xor (bit_xor a b) c ≡ bit_xor a (bit_xor b c)
xor_assoc_fuel zero a b c h =
    let e : a ≡ 0 = omega arith in
    let f : b ≡ 0 = omega arith in let g : c ≡ 0 = omega arith in rw (e, f, g)
xor_assoc_fuel (suc n) a b c h =
    bit_xor_step (bit_xor a b) c
    ∙ ap (λ t. bit_xor t (c / 2) * 2 + (bit_xor a b % 2 + c % 2) % 2) (xor_halves a b).0
    ∙ (omega (
      arith,
      xor_assoc_fuel n (a / 2) (b / 2) (c / 2) (omega arith),
      xor_halves a b,
      xor_halves b c,
    ))
    ∙ ap (λ t. bit_xor (a / 2) t * 2 + (a % 2 + bit_xor b c % 2) % 2) (sym (xor_halves b c).0)
    ∙ sym (bit_xor_step a (bit_xor b c))

pub xor_assoc : (a b c : ℕ) → bit_xor (bit_xor a b) c ≡ bit_xor a (bit_xor b c)
xor_assoc a b c = xor_assoc_fuel (a + b + c) a b c (le_refl _)

xor_self_fuel : (n a : ℕ) → a ≤ n → bit_xor a a ≡ 0
xor_self_fuel zero a h = let e : a ≡ 0 = omega arith in rw e
xor_self_fuel (suc n) a h = omega (arith, bit_xor_step a a, xor_self_fuel n (a / 2) (omega arith))

pub xor_self : (a : ℕ) → bit_xor a a ≡ 0
xor_self a = xor_self_fuel a a (le_refl _)

-- Exclusive or does not leave a word of `n` bits.
pub xor-lt : (n a b : ℕ) → a < 2 ^ n → b < 2 ^ n → bit_xor a b < 2 ^ n
xor-lt zero a b h k =
    let e : a ≡ 0 = omega arith in let f : b ≡ 0 = omega arith in rw (e, f) (omega arith)
xor-lt (suc n) a b h k = omega (
  arith,
  bit_xor_step a b,
  pow-suc_lem n,
  xor-lt n (a / 2) (b / 2) (omega (arith, pow-suc_lem n)) (omega (arith, pow-suc_lem n)),
)
  where
    pow-suc_lem : (n : ℕ) → 2 ^ suc n ≡ 2 * 2 ^ n
    pow-suc_lem n = omega arith
