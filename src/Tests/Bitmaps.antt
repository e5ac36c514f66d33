-- ===== src/Tests/Bitmaps.antt =====
-- A bitmap of two bytes.
use aetherfs.Base.{◌+◌, ◌≡◌, ◌||◌, ◌&&◌, not, refl, [], ◌∷◌, arith, ◌==◌, if◌then◌else◌}
use aetherfs.Format.Structs.Bitmap.{BitmapBlock}
use aetherfs.Bitmap.{bitmap_test, bitmap_set, bitmap_clear, bitmap_count_set}
use aetherfs.Bitmap.Laws.{
  IsBitmap, bitmap_test-bitmap_set, bitmap_test-bitmap_clear, bitmap_count_set-bitmap_set,
}

abbrev two_bytes : BitmapBlock
two_bytes = record {
  bb_checksum = 0;
  bb_total_bits = 16;
  bb_set_bits = 2;
  bb_reserved = 0;
  bb_bits = 5 ∷ 0 ∷ [];
}

two_bytes-IsBitmap : IsBitmap two_bytes 16
two_bytes-IsBitmap = record { bytes = (omega arith, (omega arith, tt)); size = refl }

bitmap_test-bitmap_set_example :
    bitmap_test (bitmap_set two_bytes 9) 9 ≡ ((9 == 9) || bitmap_test two_bytes 9)
bitmap_test-bitmap_set_example =
    bitmap_test-bitmap_set two_bytes 16 9 9 two_bytes-IsBitmap (omega arith)

bitmap_test-bitmap_clear_example :
    bitmap_test (bitmap_clear two_bytes 2) 0 ≡ (not (2 == 0) && bitmap_test two_bytes 0)
bitmap_test-bitmap_clear_example =
    bitmap_test-bitmap_clear two_bytes 16 2 0 two_bytes-IsBitmap (omega arith)

bitmap_count_set-bitmap_set_example : bitmap_count_set (bitmap_set two_bytes 9) ≡ (
    if bitmap_test two_bytes 9 then bitmap_count_set two_bytes else bitmap_count_set two_bytes + 1)
bitmap_count_set-bitmap_set_example =
    bitmap_count_set-bitmap_set two_bytes 16 9 two_bytes-IsBitmap (omega arith) (omega arith)
