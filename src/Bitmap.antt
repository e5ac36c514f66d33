-- ===== src/Bitmap.antt =====
-- aetherfsprogs/image.c: the inode bitmap, `aetherfs_image_bitmap_*`.
pub mod Bytes
pub mod Laws
use aetherfs.Base.{
  ℕ, zero, suc, ◌+◌, ◌-◌, ◌/◌, ◌%◌, ◌^◌, Bool, not, List, [], ◌∷◌, ◌==◌, get_or, set, u32, bit_and,
  bit_or,
}
use aetherfs.Format.Structs.Bitmap.{BitmapBlock}

-- `1U << (bit % 8U)`.
abbrev pub bit_mask : ℕ → ℕ
bit_mask bit = 2 ^ (bit % 8)

-- The operations on the byte that holds the bit.
abbrev pub byte_test : ℕ → ℕ → Bool
byte_test byte mask = not (bit_and byte mask == 0)

abbrev pub byte_set : ℕ → ℕ → ℕ
byte_set byte mask = bit_or byte mask

abbrev pub byte_clear : ℕ → ℕ → ℕ
byte_clear byte mask = bit_and byte (255 - mask)

-- `__builtin_popcount` of a value of `n` bits.
unfoldable pub popcount : ℕ → ℕ → ℕ
popcount zero x = 0
popcount (suc n) x = x % 2 + popcount n (x / 2)

unfoldable pub popcounts : List ℕ → ℕ
popcounts [] = 0
popcounts (b ∷ bs) = popcount 8 b + popcounts bs

unfoldable pub bitmap_count_set : BitmapBlock → ℕ
bitmap_count_set bitmap = u32 (popcounts bitmap.bb_bits)

unfoldable pub bitmap_test : BitmapBlock → ℕ → Bool
bitmap_test bitmap bit = byte_test (get_or bitmap.bb_bits (bit / 8) 0) (bit_mask bit)

unfoldable pub bitmap_set : BitmapBlock → ℕ → BitmapBlock
bitmap_set bitmap bit = record bitmap {
  bb_bits =
      set bitmap.bb_bits (bit / 8) (byte_set (get_or bitmap.bb_bits (bit / 8) 0) (bit_mask bit));
}

unfoldable pub bitmap_clear : BitmapBlock → ℕ → BitmapBlock
bitmap_clear bitmap bit = record bitmap {
  bb_bits =
      set bitmap.bb_bits (bit / 8) (byte_clear (get_or bitmap.bb_bits (bit / 8) 0) (bit_mask bit));
}
