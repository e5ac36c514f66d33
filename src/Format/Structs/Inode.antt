-- ===== src/Format/Structs/Inode.antt =====
-- `struct aetherfs_inode` and its checksum.
use aetherfs.Base.{ℕ, ◌≡◌, ap, List, [], ◌∷◌, ◌++◌, get_or}
use aetherfs.Format.Codec.{encode, decode, Fits, decode-encode}
use aetherfs.Format.Crc.{crc32c_data}

-- An inode of 512 bytes.
pub record Inode : Type 0 where
  pub i_mode : ℕ
  pub i_links_count : ℕ
  pub i_uid : ℕ
  pub i_gid : ℕ
  pub i_size : ℕ
  pub i_blocks : ℕ
  pub i_atime : ℕ
  pub i_ctime : ℕ
  pub i_mtime : ℕ
  pub i_extent_root : ℕ
  pub i_nlink : ℕ
  pub i_flags : ℕ
  pub i_xattr : ℕ
  pub i_reflink : ℕ
  pub i_parent : ℕ
  pub i_snapshot_id : ℕ
  pub i_checksum : ℕ
  pub i_inline_len : ℕ
  pub i_data_gen : ℕ
  pub i_data : ℕ
  pub i_inline : ℕ

abbrev pub inode_widths : List ℕ
inode_widths =
    2 ∷ 2 ∷ 4 ∷ 4 ∷ 8 ∷ 8 ∷ 8 ∷ 8 ∷ 8 ∷ 8 ∷ 4 ∷ 4 ∷ 8 ∷ 8 ∷ 8 ∷ 8 ∷ 4 ∷ 4 ∷ 8 ∷ 24 ∷ 372 ∷ []

abbrev pub inode_fields : Inode → List ℕ
inode_fields s =
    s.i_mode ∷ s.i_links_count ∷ s.i_uid ∷ s.i_gid ∷ s.i_size ∷ s.i_blocks ∷ s.i_atime ∷ s.i_ctime
    ∷ s.i_mtime ∷ s.i_extent_root ∷ s.i_nlink ∷ s.i_flags ∷ s.i_xattr ∷ s.i_reflink ∷ s.i_parent
    ∷ s.i_snapshot_id ∷ s.i_checksum ∷ s.i_inline_len ∷ s.i_data_gen ∷ s.i_data ∷ s.i_inline ∷ []

abbrev pub inode_of_fields : List ℕ → Inode
inode_of_fields vs = record {
  i_mode = get_or vs 0 0;
  i_links_count = get_or vs 1 0;
  i_uid = get_or vs 2 0;
  i_gid = get_or vs 3 0;
  i_size = get_or vs 4 0;
  i_blocks = get_or vs 5 0;
  i_atime = get_or vs 6 0;
  i_ctime = get_or vs 7 0;
  i_mtime = get_or vs 8 0;
  i_extent_root = get_or vs 9 0;
  i_nlink = get_or vs 10 0;
  i_flags = get_or vs 11 0;
  i_xattr = get_or vs 12 0;
  i_reflink = get_or vs 13 0;
  i_parent = get_or vs 14 0;
  i_snapshot_id = get_or vs 15 0;
  i_checksum = get_or vs 16 0;
  i_inline_len = get_or vs 17 0;
  i_data_gen = get_or vs 18 0;
  i_data = get_or vs 19 0;
  i_inline = get_or vs 20 0;
}

-- `memcpy` to a block and back.
unfoldable pub inode_bytes : Inode → List ℕ
inode_bytes s = encode inode_widths (inode_fields s)

unfoldable pub inode_of_bytes : List ℕ → Inode
inode_of_bytes bs = inode_of_fields (decode inode_widths bs)

pub inode_of_bytes-bytes :
    (s : Inode) (rest : List ℕ)
    → Fits inode_widths (inode_fields s)
    → inode_of_bytes (inode_bytes s ++ rest) ≡ s
unfolding inode_bytes inode_of_bytes
inode_of_bytes-bytes s rest h =
    ap inode_of_fields (decode-encode inode_widths (inode_fields s) rest h)

unfoldable pub inode_checksum : Inode → ℕ
unfolding inode_bytes
inode_checksum s = crc32c_data (inode_bytes (record s { i_checksum = 0 }))
