-- ===== src/Format/Structs/Checkpoint.antt =====
-- `struct aetherfs_checkpoint_root` and its checksum.
use aetherfs.Base.{ℕ, ◌≡◌, ap, List, [], ◌∷◌, ◌++◌, get_or}
use aetherfs.Format.Codec.{encode, decode, Fits, decode-encode}
use aetherfs.Format.Crc.{crc32c_data}

-- The descriptor of the bootstrap layout.
pub record CheckpointRoot : Type 0 where
  pub cr_magic : ℕ
  pub cr_version : ℕ
  pub cr_checksum : ℕ
  pub cr_generation : ℕ
  pub cr_ag_count : ℕ
  pub cr_region_count : ℕ
  pub cr_super_block : ℕ
  pub cr_root_inode_block : ℕ
  pub cr_root_dir_block : ℕ
  pub cr_journal_block : ℕ
  pub cr_inode_bitmap_block : ℕ
  pub cr_free_space_root : ℕ
  pub cr_metadata_tree_root : ℕ
  pub cr_extent_tree_root : ℕ
  pub cr_snapshot_root : ℕ
  pub cr_scrub_journal : ℕ
  pub cr_health_journal : ℕ
  pub cr_metadata_region_start : ℕ
  pub cr_metadata_region_end : ℕ
  pub cr_data_region_start : ℕ
  pub cr_data_region_end : ℕ
  pub cr_special_metadata_root : ℕ
  pub cr_cache_root : ℕ
  pub cr_parity_root : ℕ
  pub cr_reserved : ℕ

abbrev pub checkpoint_root_widths : List ℕ
checkpoint_root_widths =
    4 ∷ 4 ∷ 4 ∷ 4 ∷ 4 ∷ 4 ∷ 8 ∷ 8 ∷ 8 ∷ 8 ∷ 8 ∷ 8 ∷ 8 ∷ 8 ∷ 8 ∷ 8 ∷ 8 ∷ 8 ∷ 8 ∷ 8 ∷ 8 ∷ 8 ∷ 8 ∷ 8
    ∷ 3928 ∷ []

abbrev pub checkpoint_root_fields : CheckpointRoot → List ℕ
checkpoint_root_fields s =
    s.cr_magic ∷ s.cr_version ∷ s.cr_checksum ∷ s.cr_generation ∷ s.cr_ag_count ∷ s.cr_region_count
    ∷ s.cr_super_block ∷ s.cr_root_inode_block ∷ s.cr_root_dir_block ∷ s.cr_journal_block
    ∷ s.cr_inode_bitmap_block ∷ s.cr_free_space_root ∷ s.cr_metadata_tree_root
    ∷ s.cr_extent_tree_root ∷ s.cr_snapshot_root ∷ s.cr_scrub_journal ∷ s.cr_health_journal
    ∷ s.cr_metadata_region_start ∷ s.cr_metadata_region_end ∷ s.cr_data_region_start
    ∷ s.cr_data_region_end ∷ s.cr_special_metadata_root ∷ s.cr_cache_root ∷ s.cr_parity_root
    ∷ s.cr_reserved ∷ []

abbrev pub checkpoint_root_of_fields : List ℕ → CheckpointRoot
checkpoint_root_of_fields vs = record {
  cr_magic = get_or vs 0 0;
  cr_version = get_or vs 1 0;
  cr_checksum = get_or vs 2 0;
  cr_generation = get_or vs 3 0;
  cr_ag_count = get_or vs 4 0;
  cr_region_count = get_or vs 5 0;
  cr_super_block = get_or vs 6 0;
  cr_root_inode_block = get_or vs 7 0;
  cr_root_dir_block = get_or vs 8 0;
  cr_journal_block = get_or vs 9 0;
  cr_inode_bitmap_block = get_or vs 10 0;
  cr_free_space_root = get_or vs 11 0;
  cr_metadata_tree_root = get_or vs 12 0;
  cr_extent_tree_root = get_or vs 13 0;
  cr_snapshot_root = get_or vs 14 0;
  cr_scrub_journal = get_or vs 15 0;
  cr_health_journal = get_or vs 16 0;
  cr_metadata_region_start = get_or vs 17 0;
  cr_metadata_region_end = get_or vs 18 0;
  cr_data_region_start = get_or vs 19 0;
  cr_data_region_end = get_or vs 20 0;
  cr_special_metadata_root = get_or vs 21 0;
  cr_cache_root = get_or vs 22 0;
  cr_parity_root = get_or vs 23 0;
  cr_reserved = get_or vs 24 0;
}

-- `memcpy` to a block and back.
unfoldable pub checkpoint_root_bytes : CheckpointRoot → List ℕ
checkpoint_root_bytes s = encode checkpoint_root_widths (checkpoint_root_fields s)

unfoldable pub checkpoint_root_of_bytes : List ℕ → CheckpointRoot
checkpoint_root_of_bytes bs = checkpoint_root_of_fields (decode checkpoint_root_widths bs)

pub checkpoint_root_of_bytes-bytes :
    (s : CheckpointRoot) (rest : List ℕ)
    → Fits checkpoint_root_widths (checkpoint_root_fields s)
    → checkpoint_root_of_bytes (checkpoint_root_bytes s ++ rest) ≡ s
unfolding checkpoint_root_bytes checkpoint_root_of_bytes
checkpoint_root_of_bytes-bytes s rest h =
    ap checkpoint_root_of_fields
      (decode-encode checkpoint_root_widths (checkpoint_root_fields s) rest h)

unfoldable pub checkpoint_root_checksum : CheckpointRoot → ℕ
unfolding checkpoint_root_bytes
checkpoint_root_checksum s = crc32c_data (checkpoint_root_bytes (record s { cr_checksum = 0 }))
