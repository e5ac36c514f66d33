-- ===== src/Format/Structs/Bitmap.antt =====
-- `struct aetherfs_bitmap_block` and its checksum.
use aetherfs.Base.{ℕ, List, [], ◌∷◌, ◌++◌, get_or, drop, take}
use aetherfs.Format.Codec.{encode, decode}
use aetherfs.Format.Crc.{crc32c_data}
use aetherfs.Format.{bitmap_bytes}

-- `bb_bits` has `AETHERFS_BITMAP_BYTES` bytes.
pub record BitmapBlock : Type 0 where
  pub bb_checksum : ℕ
  pub bb_total_bits : ℕ
  pub bb_set_bits : ℕ
  pub bb_reserved : ℕ
  pub bb_bits : List ℕ

unfoldable pub bitmap_block_bytes : BitmapBlock → List ℕ
bitmap_block_bytes s =
    encode (4 ∷ 4 ∷ 4 ∷ 4 ∷ [])
      (s.bb_checksum ∷ s.bb_total_bits ∷ s.bb_set_bits ∷ s.bb_reserved ∷ [])
    ++ s.bb_bits

abbrev bitmap_of_parts : List ℕ → List ℕ → BitmapBlock
bitmap_of_parts vs bits = record {
  bb_checksum = get_or vs 0 0;
  bb_total_bits = get_or vs 1 0;
  bb_set_bits = get_or vs 2 0;
  bb_reserved = get_or vs 3 0;
  bb_bits = bits;
}

unfoldable pub bitmap_block_of_bytes : List ℕ → BitmapBlock
bitmap_block_of_bytes bs =
    bitmap_of_parts (decode (4 ∷ 4 ∷ 4 ∷ 4 ∷ []) bs) (take bitmap_bytes (drop 16 bs))

unfoldable pub bitmap_checksum : BitmapBlock → ℕ
unfolding bitmap_block_bytes
bitmap_checksum s = crc32c_data (bitmap_block_bytes (record s { bb_checksum = 0 }))
