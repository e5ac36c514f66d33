-- ===== src/Format/Crc.antt =====
-- `aetherfs_crc32c` of aetherfs_format.h, bit by bit.
use aetherfs.Base.{
  ℕ, zero, suc, ◌/◌, ◌%◌, ◌^◌, ◌<◌, ◌≡◌, refl, ap, List, [], ◌∷◌, ◌++◌, arith, ◌==◌, bit_xor,
  if◌then◌else◌, replicate, xor-lt,
}

-- `c = (c >> 1) ^ ((c & 1U) ? 0xEDB88320U : 0U)`.
unfoldable pub crc_bit : ℕ → ℕ
crc_bit c = bit_xor (c / 2) (if c % 2 == 1 then 0xEDB88320 else 0)

unfoldable pub crc_bits : ℕ → ℕ → ℕ
crc_bits zero c = c
crc_bits (suc n) c = crc_bits n (crc_bit c)

-- The `while (len--)` loop over the bytes.
unfoldable pub crc_loop : ℕ → List ℕ → ℕ
crc_loop c [] = c
crc_loop c (byte ∷ bytes) = crc_loop (crc_bits 8 (bit_xor c byte)) bytes

unfoldable pub crc32c : ℕ → List ℕ → ℕ
crc32c crc bytes = bit_xor (crc_loop (bit_xor crc 0xFFFFFFFF) bytes) 0xFFFFFFFF

-- With the seed `AETHERFS_CRC_SEED`.
unfoldable pub crc32c_data : List ℕ → ℕ
crc32c_data bytes = crc32c 0xFFFFFFFF bytes

abbrev pub AreBytes : List ℕ → Type 0
AreBytes [] = Unit {0}
AreBytes (b ∷ bs) = (b < 256) × AreBytes bs

crc_bit-lt : (c : ℕ) → c < 2 ^ 32 → crc_bit c < 2 ^ 32
unfolding crc_bit
crc_bit-lt c h = xor-lt 32 (c / 2) _ (omega arith) (ground arith)

crc_bits-lt : (n c : ℕ) → c < 2 ^ 32 → crc_bits n c < 2 ^ 32
unfolding crc_bits
crc_bits-lt zero c h = h
crc_bits-lt (suc n) c h = crc_bits-lt n (crc_bit c) (crc_bit-lt c h)

crc_loop-lt : (bs : List ℕ) (c : ℕ) → AreBytes bs → c < 2 ^ 32 → crc_loop c bs < 2 ^ 32
unfolding crc_loop
crc_loop-lt [] c h k = k
crc_loop-lt (b ∷ bs) c h k = crc_loop-lt bs _ h.1 (crc_bits-lt 8 _ (xor-lt 32 c b k (omega arith)))

-- The checksum of bytes is a 32-bit word.
pub crc32c_data-lt : (bs : List ℕ) → AreBytes bs → crc32c_data bs < 2 ^ 32
unfolding crc32c_data crc32c
crc32c_data-lt bs h =
    xor-lt 32 _ 0xFFFFFFFF
      (crc_loop-lt bs _ h (xor-lt 32 0xFFFFFFFF 0xFFFFFFFF (omega arith) (omega arith)))
      (omega arith)

crc_loop_zeros : (n : ℕ) (bs : List ℕ) → crc_loop 0 (replicate n 0 ++ bs) ≡ crc_loop 0 bs
unfolding crc_loop crc_bits crc_bit
crc_loop_zeros zero bs = refl
crc_loop_zeros (suc n) bs = crc_loop_zeros n bs

-- The seed cancels the initial inversion, so zero bytes at the front do not change the checksum.
pub crc32c_data_leading_zeros :
    (n : ℕ) (bs : List ℕ) → crc32c_data (replicate n 0 ++ bs) ≡ crc32c_data bs
unfolding crc32c_data crc32c
crc32c_data_leading_zeros n bs = ap (λ c. bit_xor c 0xFFFFFFFF) (crc_loop_zeros n bs)
