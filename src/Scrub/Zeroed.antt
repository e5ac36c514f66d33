-- ===== src/Scrub/Zeroed.antt =====
-- The inode table and the bitmap of inodes that mkfs.c makes: one inode in use, and zeroes.
use aetherfs.Base.{
  ℕ, zero, suc, ◌+◌, ◌-◌, ◌*◌, ◌/◌, ◌%◌, ◌^◌, ◌≤◌, ◌≡◌, ◌∙◌, refl, sym, ap, Bool, true, false, ◌||◌,
  not, List, [], ◌∷◌, ◌++◌, arith, ◌==◌, drop, replicate, length, get_or-replicate,
  length-replicate,
}
use aetherfs.Format.{max_inodes, bitmap_bytes, def_block_size}
use aetherfs.Format.Codec.{of_le_bytes, decode, length-encode, sizes}
use aetherfs.Format.Structs.Inode.{Inode, inode_widths, inode_fields, inode_bytes, inode_of_bytes}
use aetherfs.Format.Structs.Bitmap.{BitmapBlock}
use aetherfs.Bitmap.{bitmap_test, byte_test}
use aetherfs.Bitmap.Bytes.{every, every-at}
use aetherfs.Bitmap.Laws.{IsBitmap, bitmap_test-bitmap_set}
use aetherfs.Mkfs.{init_inode_bitmap}
use aetherfs.Mkfs.Seals.{replicate-AreBytes}
use aetherfs.Scrub.{inode_at}
use aetherfs.Volume.{padded}

drop-replicate : (k m : ℕ) → drop {A = ℕ} k (replicate m 0) ≡ replicate (m - k) 0
drop-replicate zero m = let e : m - 0 ≡ m = omega arith in rw e
drop-replicate (suc k) zero = let e : 0 - suc k ≡ 0 = omega arith in rw e
drop-replicate (suc k) (suc m) =
    let e : suc m - suc k ≡ m - k = omega arith in rw (e, drop-replicate k m)

drop-append_more : (k : ℕ) (xs ys : List ℕ) → drop (length xs + k) (xs ++ ys) ≡ drop k ys
drop-append_more k [] ys = let e : 0 + k ≡ k = omega arith in rw e
drop-append_more k (x ∷ xs) ys =
    let e : suc (length xs) + k ≡ suc (length xs + k) = omega arith in
    rw (e, drop-append_more k xs ys)

zero_mode : (m : ℕ) → (inode_of_bytes (replicate m 0)).i_mode ≡ 0
unfolding inode_of_bytes decode of_le_bytes
zero_mode zero = refl
zero_mode (suc zero) = refl
zero_mode (suc (suc m)) = refl

length-inode_bytes : (s : Inode) → length (inode_bytes s) ≡ 512
unfolding inode_bytes sizes
length-inode_bytes s = length-encode inode_widths (inode_fields s)

-- All inodes of a new image but the first are zero.
pub fresh_mode :
    (s : Inode) (index : ℕ) → 1 ≤ index → (inode_at (padded (inode_bytes s)) index).i_mode ≡ 0
fresh_mode s index h =
    let rest = def_block_size - length (inode_bytes s) in
    let k = 512 * index - 512 in
    let place : 512 * index ≡ length (inode_bytes s) + k = omega (arith, length-inode_bytes s) in
    rw (
      place,
      drop-append_more k (inode_bytes s) (replicate rest 0),
      drop-replicate k rest,
      zero_mode (rest - k),
    )

clear_bit : ℕ → Bool
clear_bit i = not (byte_test 0 (2 ^ i))

all_clear : every 8 clear_bit ≡ true
unfolding every clear_bit
all_clear = refl

zeroed : BitmapBlock
zeroed = record {
  bb_checksum = 0;
  bb_total_bits = max_inodes;
  bb_set_bits = 0;
  bb_reserved = 0;
  bb_bits = replicate bitmap_bytes 0;
}

false_of_not : (b : Bool) → not b ≡ true → b ≡ false
false_of_not true h = sym h
false_of_not false h = refl

zeroed_test : (j : ℕ) → bitmap_test zeroed j ≡ false
unfolding bitmap_test zeroed clear_bit
zeroed_test j =
    ap (λ b. byte_test b (2 ^ (j % 8))) (get_or-replicate {A = ℕ} bitmap_bytes (j / 8) 0)
    ∙ false_of_not (byte_test 0 (2 ^ (j % 8)))
        (every-at 8 clear_bit (j % 8) all_clear (omega arith))

zeroed-IsBitmap : IsBitmap zeroed max_inodes
unfolding zeroed
zeroed-IsBitmap = record {
  bytes = replicate-AreBytes bitmap_bytes;
  size = omega (arith, length-replicate {A = ℕ} bitmap_bytes 0);
}

or_false : (b : Bool) → (b || false) ≡ b
or_false true = refl
or_false false = refl

-- Of a new image, the inode in use is the first.
pub fresh_test : (j : ℕ) → bitmap_test init_inode_bitmap j ≡ (0 == j)
unfolding init_inode_bitmap bitmap_test zeroed
fresh_test j =
    bitmap_test-bitmap_set zeroed max_inodes 0 j zeroed-IsBitmap (omega arith)
    ∙ ap (λ t. (0 == j) || t) (zeroed_test j)
    ∙ or_false (0 == j)
