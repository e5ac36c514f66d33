-- ===== src/Bitmap/Bytes.antt =====
-- The 256 values of a byte and its 8 bits, run through.
use aetherfs.Base.{
  ℕ, zero, suc, ◌+◌, ◌^◌, ◌<◌, ◌≤◌, ◌≡◌, refl, sym, ap, Bool, true, false, ◌&&◌, ◌||◌, not, ◌==◌,
  ltb, arith, if◌then◌else◌, ==→eq,
}
use aetherfs.Bitmap.{byte_test, byte_set, byte_clear, popcount}
use native.Mathlib.Decide.{ℕ_discrete}

-- Whether a test holds of every number below the bound.
unfoldable pub every : ℕ → (ℕ → Bool) → Bool
every zero f = true
every (suc n) f = f n && every n f

pub every-at : (n : ℕ) (f : ℕ → Bool) (i : ℕ) → every n f ≡ true → i < n → f i ≡ true
unfolding every
every-at zero f i h lt = absurd (omega arith)
every-at (suc n) f i h lt = elim (ℕ_discrete i n) [
  | yes e ↦ ground (arith, ap f e)
  | no ne ↦ ground (arith, every-at n f i)
]

same : Bool → Bool → Bool
same true b = b
same false b = not b

same→eq : (a b : Bool) → same a b ≡ true → a ≡ b
unfolding same
same→eq true true h = refl
same→eq true false h = sym h
same→eq false true h = h
same→eq false false h = refl

test_set : ℕ → ℕ → ℕ → Bool
unfolding same
test_set b i j = same (byte_test (byte_set b (2 ^ i)) (2 ^ j)) ((i == j) || byte_test b (2 ^ j))

all_test_set : every 256 (λ b. every 8 (λ i. every 8 (test_set b i))) ≡ true
unfolding every test_set same
all_test_set = refl

pub byte_test-byte_set :
    (b i j : ℕ)
    → b < 256
    → i < 8
    → j < 8
    → byte_test (byte_set b (2 ^ i)) (2 ^ j) ≡ ((i == j) || byte_test b (2 ^ j))
unfolding test_set
byte_test-byte_set b i j hb hi hj = same→eq _ _ (
    every-at 8 (test_set b i) j
      (every-at 8 (λ k. every 8 (test_set b k)) i
        (every-at 256 (λ c. every 8 (λ k. every 8 (test_set c k))) b all_test_set hb) hi)
      hj)

test_clear : ℕ → ℕ → ℕ → Bool
unfolding same
test_clear b i j =
    same (byte_test (byte_clear b (2 ^ i)) (2 ^ j)) (not (i == j) && byte_test b (2 ^ j))

all_test_clear : every 256 (λ b. every 8 (λ i. every 8 (test_clear b i))) ≡ true
unfolding every test_clear same
all_test_clear = refl

pub byte_test-byte_clear :
    (b i j : ℕ)
    → b < 256
    → i < 8
    → j < 8
    → byte_test (byte_clear b (2 ^ i)) (2 ^ j) ≡ (not (i == j) && byte_test b (2 ^ j))
unfolding test_clear
byte_test-byte_clear b i j hb hi hj = same→eq _ _ (
    every-at 8 (test_clear b i) j
      (every-at 8 (λ k. every 8 (test_clear b k)) i
        (every-at 256 (λ c. every 8 (λ k. every 8 (test_clear c k))) b all_test_clear hb) hi)
      hj)

count_set : ℕ → ℕ → Bool
unfolding popcount
count_set b i =
    popcount 8 (byte_set b (2 ^ i))
    == (if byte_test b (2 ^ i) then popcount 8 b else popcount 8 b + 1)

all_count_set : every 256 (λ b. every 8 (count_set b)) ≡ true
unfolding every count_set popcount
all_count_set = refl

pub popcount-byte_set :
    (b i : ℕ)
    → b < 256
    → i < 8
    → popcount 8 (byte_set b (2 ^ i))
      ≡ (if byte_test b (2 ^ i) then popcount 8 b else popcount 8 b + 1)
unfolding count_set
popcount-byte_set b i hb hi =
    ==→eq _ _
      (every-at 8 (count_set b) i (every-at 256 (λ c. every 8 (count_set c)) b all_count_set hb) hi)

stays_byte : ℕ → ℕ → Bool
stays_byte b i =
    ltb (byte_set b (2 ^ i)) 256 && (ltb (byte_clear b (2 ^ i)) 256 && ltb (popcount 8 b) 9)

all_stay : every 256 (λ b. every 8 (stays_byte b)) ≡ true
unfolding every stays_byte popcount
all_stay = refl

pub bytes_stay :
    (b i : ℕ)
    → b < 256
    → i < 8
    → (byte_set b (2 ^ i) < 256) × (byte_clear b (2 ^ i) < 256) × (popcount 8 b ≤ 8)
unfolding stays_byte
bytes_stay b i hb hi =
    let h =
      every-at 8 (stays_byte b) i (every-at 256 (λ c. every 8 (stays_byte c)) b all_stay hb) hi in
    ground arith
