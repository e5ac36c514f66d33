-- ===== src/Mkfs/Seals.antt =====
-- The values of a new image fit their fields: the bytes of a structure, the checksum over them, the
-- uuid.
use aetherfs.Base.{
  ℕ, zero, suc, ◌/◌, ◌^◌, ◌<◌, ◌≡◌, refl, Bool, true, List, [], ◌∷◌, ◌++◌, ok, arith, ltb, length,
  length-set, Bool-cases, inl, inr, ==→eq, subst, ◌∙◌, replicate, get_or, set, bit_and, bit_or,
  ◌==◌,
}
use aetherfs.Format.Codec.{le_bytes, encode, encode_all, of_le_bytes}
use aetherfs.Format.Crc.{AreBytes, crc32c_data-lt}
use aetherfs.Format.Structs.Super.{
  IntentLog, journal_checksum, intent_log_bytes, Super, super_checksum, super_bytes,
}
use aetherfs.Format.Structs.Checkpoint.{
  CheckpointRoot, checkpoint_root_checksum, checkpoint_root_bytes,
}
use aetherfs.Format.Structs.Inode.{Inode, inode_checksum, inode_bytes}
use aetherfs.Format.Structs.Extent.{ExtentNode, extent_node_checksum, extent_node_bytes}
use aetherfs.Format.Structs.Bitmap.{BitmapBlock, bitmap_checksum, bitmap_block_bytes}
use aetherfs.Format.{bitmap_bytes}
use aetherfs.Bitmap.{bitmap_set}
use aetherfs.Bitmap.Bytes.{every, every-at}
use aetherfs.Mkfs.{fill_uuid, stamp, init_inode_bitmap}

pub append-AreBytes : (xs ys : List ℕ) → AreBytes xs → AreBytes ys → AreBytes (xs ++ ys)
append-AreBytes [] ys h k = k
append-AreBytes (x ∷ xs) ys h k = (h.0, append-AreBytes xs ys h.1 k)

le_bytes-AreBytes : (n v : ℕ) → AreBytes (le_bytes n v)
unfolding le_bytes
le_bytes-AreBytes zero v = tt
le_bytes-AreBytes (suc n) v = (omega arith, le_bytes-AreBytes n (v / 256))

pub encode-AreBytes : (ws vs : List ℕ) → AreBytes (encode ws vs)
unfolding encode
encode-AreBytes [] vs = tt
encode-AreBytes (w ∷ ws) [] =
    append-AreBytes (le_bytes w 0) _ (le_bytes-AreBytes w 0) (encode-AreBytes ws [])
encode-AreBytes (w ∷ ws) (v ∷ vs) =
    append-AreBytes (le_bytes w v) _ (le_bytes-AreBytes w v) (encode-AreBytes ws vs)

pub encode_all-AreBytes : (ws : List ℕ) (vss : List (List ℕ)) → AreBytes (encode_all ws vss)
unfolding encode_all
encode_all-AreBytes ws [] = tt
encode_all-AreBytes ws (vs ∷ vss) =
    append-AreBytes (encode ws vs) _ (encode-AreBytes ws vs) (encode_all-AreBytes ws vss)

pub super_checksum-lt : (s : Super) → super_checksum s < 2 ^ 32
unfolding super_checksum super_bytes
super_checksum-lt s = crc32c_data-lt _ (encode-AreBytes _ _)

pub journal_checksum-lt : (s : IntentLog) → journal_checksum s < 2 ^ 32
unfolding journal_checksum intent_log_bytes
journal_checksum-lt s = crc32c_data-lt _ (encode-AreBytes _ _)

pub checkpoint_root_checksum-lt : (s : CheckpointRoot) → checkpoint_root_checksum s < 2 ^ 32
unfolding checkpoint_root_checksum checkpoint_root_bytes
checkpoint_root_checksum-lt s = crc32c_data-lt _ (encode-AreBytes _ _)

pub inode_checksum-lt : (s : Inode) → inode_checksum s < 2 ^ 32
unfolding inode_checksum inode_bytes
inode_checksum-lt s = crc32c_data-lt _ (encode-AreBytes _ _)

pub extent_node_checksum-lt : (s : ExtentNode) → extent_node_checksum s < 2 ^ 32
unfolding extent_node_checksum extent_node_bytes
extent_node_checksum-lt s =
    crc32c_data-lt _
      (append-AreBytes (encode _ _) _ (encode-AreBytes _ _) (encode_all-AreBytes _ _))

of_le_bytes-lt : (n : ℕ) (bs : List ℕ) → AreBytes bs → length bs ≡ n → of_le_bytes bs < 256 ^ n
unfolding of_le_bytes
of_le_bytes-lt zero [] h e = omega arith
of_le_bytes-lt (suc n) [] h e = absurd (omega arith)
of_le_bytes-lt zero (b ∷ bs) h e = absurd (omega arith)
of_le_bytes-lt (suc n) (b ∷ bs) h e = omega (arith, of_le_bytes-lt n bs h.1 (omega arith), h.0)

get_or-lt : (bs : List ℕ) (i : ℕ) → AreBytes bs → get_or bs i 0 < 256
get_or-lt [] i h = omega arith
get_or-lt (b ∷ bs) zero h = h.0
get_or-lt (b ∷ bs) (suc i) h = get_or-lt bs i h.1

pub set-AreBytes : (bs : List ℕ) (i v : ℕ) → AreBytes bs → v < 256 → AreBytes (set bs i v)
set-AreBytes [] i v h k = tt
set-AreBytes (b ∷ bs) zero v h k = (k, h.1)
set-AreBytes (b ∷ bs) (suc i) v h k = (h.0, set-AreBytes bs i v h.1 k)

pub replicate-AreBytes : (n : ℕ) → AreBytes (replicate n 0)
replicate-AreBytes zero = tt
replicate-AreBytes (suc n) = (omega arith, replicate-AreBytes n)

bitmap_checksum-lt : (s : BitmapBlock) → AreBytes s.bb_bits → bitmap_checksum s < 2 ^ 32
unfolding bitmap_checksum bitmap_block_bytes
bitmap_checksum-lt s h =
    crc32c_data-lt _ (append-AreBytes (encode _ _) s.bb_bits (encode-AreBytes _ _) h)

pub init_bitmap_checksum-lt : init_inode_bitmap.bb_checksum < 2 ^ 32
unfolding init_inode_bitmap bitmap_set
init_bitmap_checksum-lt =
    bitmap_checksum-lt _
      (set-AreBytes (replicate bitmap_bytes 0) 0 1 (replicate-AreBytes bitmap_bytes) (omega arith))

version_byte : ℕ → Bool
version_byte b = ltb (bit_or (bit_and b 15) 64) 256

variant_byte : ℕ → Bool
variant_byte b = ltb (bit_or (bit_and b 63) 128) 256

all_version_byte : every 256 version_byte ≡ true
unfolding every version_byte
all_version_byte = refl

all_variant_byte : every 256 variant_byte ≡ true
unfolding every variant_byte
all_variant_byte = refl

-- The uuid of a new image is a number of sixteen bytes.
pub fill_uuid-lt :
    (random uuid : List ℕ)
    → AreBytes random
    → fill_uuid (ok random) ≡ ok uuid
    → of_le_bytes uuid < 256 ^ 16
unfolding fill_uuid version_byte variant_byte
fill_uuid-lt random uuid h eq =
    let mid = stamp random 6 15 64 in
    let mid_bytes : AreBytes mid = set-AreBytes random 6 _ h (
      ground (
        arith,
        every-at 256 version_byte (get_or random 6 0) all_version_byte (get_or-lt random 6 h),
      )) in
    let end = stamp mid 8 63 128 in
    let end_bytes : AreBytes end = set-AreBytes mid 8 _ mid_bytes (
      ground (
        arith,
        every-at 256 variant_byte (get_or mid 8 0) all_variant_byte (get_or-lt mid 8 mid_bytes),
      )) in
    let size : length end ≡ length random = length-set mid 8 _ ∙ length-set random 6 _ in
    elim (Bool-cases (length random == 16)) [
      | inr differs ↦ absurd (ground arith)
      | inl same ↦
          let whole : length random ≡ 16 = ==→eq (length random) 16 same in
          let is : end ≡ uuid = ground arith in
          subst (λ u. of_le_bytes u < 256 ^ 16) is (of_le_bytes-lt 16 end end_bytes (size ∙ whole))
    ]
