-- ===== src/Scrub/Reads.antt =====
-- What aetherfsprogs/image.c reads are bytes, and the fields decoded from them fit their widths.
use aetherfs.Base.{
  ℕ, zero, suc, ◌+◌, ◌^◌, ◌<◌, ◌≡◌, subst, List, [], ◌∷◌, ok, einval, eilseq, arith, ltb, ◌/=◌,
  fail_if, ◌>>◌, seq_ok, bind_ok, ok_inj, Bool-cases, inl, inr, get_or, take, drop, map,
}
use aetherfs.Format.{
  data_start_block, max_inodes, checksums_per_block, extent_log_max, root_dir_block,
  superblock_block,
}
use aetherfs.Format.Crc.{AreBytes}
use aetherfs.Format.Codec.{of_le_bytes, decode, decode_all}
use aetherfs.Format.Structs.Extent.{
  ExtentNode, extent_widths, extent_of_fields, extent_node_of_bytes, extent_node_checksum,
}
use aetherfs.Image.{Image, image_read_block}
use aetherfs.Image.Device.{Disk}
use aetherfs.Mkfs.{no_extent}
use aetherfs.Volume.{read_extent_node}
use aetherfs.Base.{Option-cases, Result-cases, get_elem?, some, none}
use aetherfs.Image.{read_physical_member, member_read_block, read_replicas, offset_of}
use aetherfs.Pool.{pool_role_mask_for_bootstrap_block, pool_map_data_block}
use aetherfs.Pool.Mask.{mask_nth, mask_count}

pub take-lt : (n : ℕ) (bs : List ℕ) → AreBytes bs → of_le_bytes (take n bs) < 256 ^ n
unfolding of_le_bytes
take-lt zero bs h = omega arith
take-lt (suc n) [] h = omega (arith, take-lt n [] tt)
take-lt (suc n) (b ∷ bs) h = omega (arith, take-lt n bs h.1, h.0)

pub drop-AreBytes : (n : ℕ) (bs : List ℕ) → AreBytes bs → AreBytes (drop n bs)
drop-AreBytes zero bs h = h
drop-AreBytes (suc n) [] h = tt
drop-AreBytes (suc n) (b ∷ bs) h = drop-AreBytes n bs h.1

-- The length of an extent that is read from bytes is a 64-bit number.
e_len-lt :
    (n i : ℕ) (bs : List ℕ)
    → AreBytes bs
    → (get_or (map extent_of_fields (decode_all extent_widths n bs)) i no_extent).e_len < 2 ^ 64
unfolding decode_all decode aetherfs.Format.Codec.sizes
e_len-lt zero i bs h = omega arith
e_len-lt (suc n) zero bs h =
    take-lt 8 (drop 8 (drop 8 (drop 8 bs)))
      (drop-AreBytes 8 (drop 8 (drop 8 bs)) (drop-AreBytes 8 (drop 8 bs) (drop-AreBytes 8 bs h)))
e_len-lt (suc n) (suc i) bs h = e_len-lt n i (drop 40 bs) (drop-AreBytes 40 bs h)

module _ (D : Disk) where
  open D use {Fd, pread}

  -- What is read from the image are bytes.
  abbrev pub ReadsBytes : Image Fd → Type 0
  ReadsBytes image = (b : ℕ) (x : List ℕ) → image_read_block D image b ≡ ok x → AreBytes x

  -- What the system reads are bytes.
  abbrev pub IsByteDisk : Type 0
  IsByteDisk = (fd : Fd) (o : ℕ) (x : List ℕ) → pread fd o ≡ ok x → AreBytes x

  member_bytes :
      (image : Image Fd) (member block : ℕ) (x : List ℕ)
      → IsByteDisk
      → read_physical_member D image member block ≡ ok x
      → AreBytes x
  unfolding read_physical_member member_read_block
  member_bytes image member block x disk h =
      elim (Bool-cases (ltb member image.pool.member_count)) [
        | inr out ↦ absurd (ground arith)
        | inl in_pool ↦ elim (Option-cases (get_elem? image.fds member)) [
          | inl none_is ↦ absurd (ground arith)
          | inr (none, is) ↦ absurd (ground arith)
          | inr (some fd, is) ↦ disk fd (offset_of block) x (ground arith)
        ]
      ]

  replicas_bytes :
      (image : Image Fd) (mask block n ordinal : ℕ) (x : List ℕ)
      → IsByteDisk
      → read_replicas D image mask block n ordinal ≡ ok x
      → AreBytes x
  unfolding read_replicas
  replicas_bytes image mask block zero ordinal x disk h = absurd (ground arith)
  replicas_bytes image mask block (suc n) ordinal x disk h =
      elim (Option-cases (mask_nth mask ordinal)) [
        | inl none_is ↦ absurd (ground arith)
        | inr (member, is) ↦ elim (Result-cases (read_physical_member D image member block)) [
          | inl (e, failed) ↦ replicas_bytes image mask block n (ordinal + 1) x disk (ground arith)
          | inr (buf, read) ↦ member_bytes image member block x disk (ground arith)
        ]
      ]

  pub IsByteDisk-ReadsBytes : (image : Image Fd) → IsByteDisk → ReadsBytes image
  unfolding image_read_block
  IsByteDisk-ReadsBytes image disk block x h = elim (Bool-cases (ltb block data_start_block)) [
    | inl low ↦
        let mask = pool_role_mask_for_bootstrap_block image.pool block in
        replicas_bytes image mask block (mask_count mask) 0 x disk (ground arith)
    | inr high ↦ elim (Result-cases (pool_map_data_block image.pool block)) [
      | inl (e, failed) ↦ absurd (ground arith)
      | inr (mapping, mapped) ↦
          member_bytes image mapping.member_index mapping.member_block x disk (ground arith)
    ]
  ]

  pub node_len-lt :
      (image : Image Fd) (b i : ℕ) (node : ExtentNode)
      → ReadsBytes image
      → read_extent_node D image b ≡ ok node
      → (get_or node.en_extents i no_extent).e_len < 2 ^ 64
  unfolding read_extent_node extent_node_of_bytes
  node_len-lt image b i node bytes h =
      let (x, read, rest) = bind_ok (image_read_block D image b) _ node h in
      let found = extent_node_of_bytes x in
      let sealed = fail_if (found.en_checksum /= extent_node_checksum found) eilseq in
      let few = fail_if (ltb extent_log_max found.en_count) einval in
      let (_, is) = seq_ok (sealed >> few) (ok found) node rest in
      subst (λ t. (get_or t.en_extents i no_extent).e_len < 2 ^ 64) (ok_inj is)
        (e_len-lt extent_log_max i (drop 16 x) (drop-AreBytes 16 x (bytes b x read)))
