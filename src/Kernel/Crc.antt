-- ===== src/Kernel/Crc.antt =====
-- kernel/aetherfs.h: `aetherfs_crc32c` and `aetherfs_crc32` of the kernel module, which are not those
-- of the format header.
use aetherfs.Base.{
  ℕ, ◌*◌, ◌/◌, ◌%◌, ◌≡◌, refl, sym, ◌∙◌, ap, List, [], ◌∷◌, ◌++◌, arith, bit_xor, xor_halves,
  if◌then◌else◌, ◌==◌, xor_comm, xor_assoc, xor_self, xor-zero,
}
use aetherfs.Format.Crc.{crc_bit}

-- One bit of a shift for each byte.
unfoldable pub kernel_crc_loop : ℕ → List ℕ → ℕ
kernel_crc_loop c [] = c
kernel_crc_loop c (byte ∷ bytes) = kernel_crc_loop (crc_bit (bit_xor c byte)) bytes

-- `~c` of a 32-bit word.
unfoldable pub kernel_crc32c : ℕ → List ℕ → ℕ
kernel_crc32c crc bytes = bit_xor (kernel_crc_loop crc bytes) 0xFFFFFFFF

unfoldable pub kernel_crc32 : List ℕ → ℕ
kernel_crc32 bytes = kernel_crc32c 0xFFFFFFFF bytes

shift_xor : (c b : ℕ) → bit_xor c (2 * b) / 2 ≡ bit_xor (c / 2) b
shift_xor c b =
    let e : 2 * b / 2 ≡ b = omega arith in (xor_halves c (2 * b)).0 ∙ ap (bit_xor (c / 2)) e

low_xor : (c b : ℕ) → bit_xor c (2 * b) % 2 ≡ c % 2
low_xor c b = omega (arith, (xor_halves c (2 * b)).1)

-- A byte comes out of the shift as its half, if it is even.
crc_bit_xor : (c b : ℕ) → crc_bit (bit_xor c (2 * b)) ≡ bit_xor (crc_bit c) b
unfolding crc_bit
crc_bit_xor c b =
    let mask = if c % 2 == 1 then 0xEDB88320 else 0 in
    ap (λ t. bit_xor t (if bit_xor c (2 * b) % 2 == 1 then 0xEDB88320 else 0)) (shift_xor c b)
    ∙ ap (λ t. bit_xor (bit_xor (c / 2) b) (if t == 1 then 0xEDB88320 else 0)) (low_xor c b)
    ∙ xor_assoc (c / 2) b mask
    ∙ ap (bit_xor (c / 2)) (xor_comm b mask)
    ∙ sym (xor_assoc (c / 2) mask b)

cancel : (c b : ℕ) → bit_xor (bit_xor c b) b ≡ c
cancel c b = xor_assoc c b b ∙ ap (bit_xor c) (xor_self b) ∙ xor-zero c

pair_cancels :
    (c b : ℕ) (bytes : List ℕ)
    → kernel_crc_loop c (2 * b ∷ b ∷ bytes) ≡ kernel_crc_loop c (0 ∷ 0 ∷ bytes)
unfolding kernel_crc_loop
pair_cancels c b bytes =
    ap (λ t. kernel_crc_loop (crc_bit t) bytes)
      (ap (λ t. bit_xor t b) (crc_bit_xor c b)
        ∙ cancel (crc_bit c) b
        ∙ sym (xor-zero (crc_bit c))
        ∙ ap (λ t. bit_xor (crc_bit t) 0) (sym (xor-zero c)))

loop_append :
    (c : ℕ) (before after : List ℕ)
    → kernel_crc_loop c (before ++ after) ≡ kernel_crc_loop (kernel_crc_loop c before) after
unfolding kernel_crc_loop
loop_append c [] after = refl
loop_append c (b ∷ before) after = loop_append (crc_bit (bit_xor c b)) before after

-- The checksum of the kernel does not tell a byte and its half, in this order, from two zero bytes,
-- wherever they stand in the data.
pub kernel_crc32_collides :
    (before after : List ℕ) (b : ℕ)
    → kernel_crc32 (before ++ 2 * b ∷ b ∷ after) ≡ kernel_crc32 (before ++ 0 ∷ 0 ∷ after)
unfolding kernel_crc32 kernel_crc32c
kernel_crc32_collides before after b =
    ap (λ t. bit_xor t 0xFFFFFFFF)
      (loop_append 0xFFFFFFFF before (2 * b ∷ b ∷ after)
        ∙ pair_cancels (kernel_crc_loop 0xFFFFFFFF before) b after
        ∙ sym (loop_append 0xFFFFFFFF before (0 ∷ 0 ∷ after)))
