-- ===== src/Mkfs.antt =====
-- aetherfsprogs/mkfs.c: the structures of a new image, and the order in which they are written.
pub mod Target
pub mod Check
pub mod Writes
pub mod Seals
pub mod Valid
pub mod Run
use aetherfs.Base.{
  ℕ, zero, suc, ◌+◌, ◌-◌, ◌*◌, ◌/◌, ◌%◌, Bool, true, false, List, [], ◌∷◌, ◌++◌, Option, none, some,
  Result, Rc, ok, err, eio, ◌==◌, ltb, if◌then◌else◌, u32, u64, sub64, length, replicate, get_or,
  set, take, bit_and, bit_or, min,
}
use aetherfs.Format.{
  magic, version, def_block_size, blocks_per_ag, max_inodes, bitmap_bytes, extent_log_max,
  pool_label_block, superblock_block, root_inode_block, root_dir_block, journal_block,
  inode_bitmap_block, free_extent_block, checkpoint_root_block, data_start_block, bootstrap_blocks,
  root_ino, checkpoint_root_magic, checkpoint_root_version, cow_mode, overwrite_mode, append_mode,
  feature_cow, feature_append, file_type_dir,
}
use aetherfs.Format.Codec.{of_le_bytes}
use aetherfs.Format.Structs.Super.{
  Super, IntentLog, super_bytes, super_checksum, intent_log_bytes, journal_checksum,
}
use aetherfs.Format.Structs.Checkpoint.{
  CheckpointRoot, checkpoint_root_bytes, checkpoint_root_checksum,
}
use aetherfs.Format.Structs.Inode.{Inode, inode_bytes, inode_checksum}
use aetherfs.Format.Structs.Extent.{Extent, ExtentNode, extent_node_bytes, extent_node_checksum}
use aetherfs.Format.Structs.Bitmap.{BitmapBlock, bitmap_block_bytes, bitmap_checksum}
use aetherfs.Format.Structs.Dirent.{DirEntry, dir_entry_bytes, dir_rec_len, dirent_checksum}
use aetherfs.Bitmap.{bitmap_set}
use aetherfs.Image.{offset_of}
use aetherfs.Image.Device.{Disk}
use aetherfs.Volume.{padded}

-- The fields of `struct aetherfs_mkfs_options` that the code reads, but for the path.
pub record MkfsOptions : Type 0 where
  pub blocks : ℕ
  pub block_size : ℕ
  pub mode : ℕ
  pub force : Bool

-- What the system answers: sixteen random bytes, the clock, the ids of the user, `fsync`.
pub record System : Type 0 where
  pub random : Result (List ℕ)
  pub clock : Option ℕ
  pub uid : ℕ
  pub gid : ℕ
  pub fsync : Rc

unfoldable pub mode_features : ℕ → ℕ
mode_features mode =
    if mode == append_mode
    then feature_append
    else (if mode == overwrite_mode then 0 else feature_cow)

-- `uuid[index] = (uuid[index] & keep) | put`.
abbrev pub stamp : List ℕ → ℕ → ℕ → ℕ → List ℕ
stamp uuid index keep put = set uuid index (bit_or (bit_and (get_or uuid index 0) keep) put)

unfoldable pub fill_uuid : Result (List ℕ) → Result (List ℕ)
fill_uuid (err e) = err e
fill_uuid (ok uuid) =
    if length uuid == 16 then ok (stamp (stamp uuid 6 15 64) 8 63 128) else err eio

unfoldable pub init_super : MkfsOptions → ℕ → Super
init_super options blocks =
    let draft : Super = record {
      s_magic = magic;
      s_version = version;
      s_blocksize = options.block_size;
      s_blocks_count = blocks;
      s_free_blocks = sub64 blocks data_start_block;
      s_blocks_per_ag = min (u32 blocks) blocks_per_ag;
      s_ag_count = u32 (u64 (blocks + blocks_per_ag - 1) / blocks_per_ag);
      s_device_count = 1;
      s_mode = options.mode;
      s_features = mode_features options.mode;
      s_checksum = 0;
      s_uuid = 0;
      s_checkpoint_num = 1;
      s_checkpoint_mask = 1;
      s_checkpoint_0 = checkpoint_root_block;
      s_checkpoint_rest = 0;
      s_journal_addr = journal_block;
      s_root_inode = root_inode_block;
      s_generation = 1;
      s_inodes_count = max_inodes;
      s_meta_tree = inode_bitmap_block;
      s_extent_tree = 0;
      s_free_tree = free_extent_block;
      s_snap_tree = 0;
      s_scrub_journal = 0;
      s_health_journal = 0;
      s_reserved2 = 0;
    } in
    record draft { s_checksum = super_checksum draft }

unfoldable pub init_checkpoint_root : Super → ℕ → CheckpointRoot
init_checkpoint_root super blocks =
    let draft : CheckpointRoot = record {
      cr_magic = checkpoint_root_magic;
      cr_version = checkpoint_root_version;
      cr_checksum = 0;
      cr_generation = super.s_generation;
      cr_ag_count = super.s_ag_count;
      cr_region_count = 2;
      cr_super_block = superblock_block;
      cr_root_inode_block = super.s_root_inode;
      cr_root_dir_block = root_dir_block;
      cr_journal_block = super.s_journal_addr;
      cr_inode_bitmap_block = super.s_meta_tree;
      cr_free_space_root = super.s_free_tree;
      cr_metadata_tree_root = super.s_meta_tree;
      cr_extent_tree_root = super.s_extent_tree;
      cr_snapshot_root = super.s_snap_tree;
      cr_scrub_journal = super.s_scrub_journal;
      cr_health_journal = super.s_health_journal;
      cr_metadata_region_start = superblock_block;
      cr_metadata_region_end = checkpoint_root_block;
      cr_data_region_start = data_start_block;
      cr_data_region_end = blocks;
      cr_special_metadata_root = 0;
      cr_cache_root = 0;
      cr_parity_root = 0;
      cr_reserved = 0;
    } in
    record draft { cr_checksum = checkpoint_root_checksum draft }

-- `ts`: the seconds of the clock, or 0.
abbrev pub timestamp : Option ℕ → ℕ
timestamp none = 0
timestamp (some now) = u64 now

unfoldable pub init_root_inode : System → Inode
init_root_inode system =
    let draft : Inode = record {
      i_mode = 16877;
      i_links_count = 2;
      i_uid = u32 system.uid;
      i_gid = u32 system.gid;
      i_size = def_block_size;
      i_blocks = 1;
      i_atime = timestamp system.clock;
      i_ctime = timestamp system.clock;
      i_mtime = timestamp system.clock;
      i_extent_root = root_dir_block;
      i_nlink = 2;
      i_flags = feature_cow;
      i_xattr = 0;
      i_reflink = 0;
      i_parent = root_ino;
      i_snapshot_id = 0;
      i_checksum = 0;
      i_inline_len = 0;
      i_data_gen = 0;
      i_data = 0;
      i_inline = 0;
    } in
    record draft { i_checksum = inode_checksum draft }

-- An entry of the root directory for a name, with its checksum.
unfoldable pub dir_entry_sealed : ℕ → List ℕ → List ℕ
dir_entry_sealed rec_len name =
    let draft : DirEntry = record {
      ino = root_ino;
      rec_len = rec_len;
      name_len = length name;
      file_type = file_type_dir;
      checksum = 0;
    } in
    dir_entry_bytes
      (record draft { checksum = dirent_checksum (dir_entry_bytes draft name) (length name) }) name

-- `.` and `..`, the second up to the end of the block.
unfoldable pub init_root_dir : List ℕ
init_root_dir = padded (
    dir_entry_sealed (dir_rec_len 1) (46 ∷ [])
    ++ 0 ∷ []
    ++ dir_entry_sealed (def_block_size - dir_rec_len 1) (46 ∷ 46 ∷ []))

unfoldable pub init_journal : IntentLog
init_journal =
    let draft : IntentLog = record {
      il_start = journal_block;
      il_end = journal_block;
      il_head = journal_block;
      il_commit = journal_block;
      il_total = 0;
      il_outstanding = 0;
      il_checksum = 0;
      il_reserved = 0;
    } in
    record draft { il_checksum = journal_checksum draft }

unfoldable pub init_inode_bitmap : BitmapBlock
init_inode_bitmap =
    let zeroed : BitmapBlock = record {
      bb_checksum = 0;
      bb_total_bits = max_inodes;
      bb_set_bits = 0;
      bb_reserved = 0;
      bb_bits = replicate bitmap_bytes 0;
    } in
    let draft = record (bitmap_set zeroed 0) { bb_set_bits = 1 } in
    record draft { bb_checksum = bitmap_checksum draft }

abbrev pub no_extent : Extent
no_extent = record {
  e_lstart = 0;
  e_pstart = 0;
  e_csum_start = 0;
  e_len = 0;
  e_flags = 0;
  e_reserved = 0;
}

unfoldable pub init_free_extents : ℕ → ExtentNode
init_free_extents blocks =
    let draft : ExtentNode = record {
      en_next = 0;
      en_count = 1;
      en_checksum = 0;
      en_extents =
          record no_extent { e_pstart = data_start_block; e_len = sub64 blocks data_start_block }
          ∷ replicate (extent_log_max - 1) no_extent;
    } in
    record draft { en_checksum = extent_node_checksum draft }

-- The blocks that are cleared first.
unfoldable pub zero_blocks : ℕ → ℕ → List (ℕ × List ℕ)
zero_blocks zero reserved = []
zero_blocks (suc n) reserved = (reserved, replicate def_block_size 0) ∷ zero_blocks n (reserved + 1)

-- The superblock, with the uuid and its checksum filled in.
unfoldable pub bootstrap_super : MkfsOptions → ℕ → List ℕ → Super
bootstrap_super options blocks uuid =
    let super = record (init_super options blocks) { s_uuid = of_le_bytes uuid } in
    record super { s_checksum = super_checksum super }

-- The blocks that are written then, in their order.
unfoldable pub bootstrap_writes : System → MkfsOptions → ℕ → List ℕ → List (ℕ × List ℕ)
bootstrap_writes system options blocks uuid =
    let super = bootstrap_super options blocks uuid in
    (superblock_block, padded (super_bytes super))
    ∷ (root_inode_block, padded (inode_bytes (init_root_inode system)))
    ∷ (root_dir_block, init_root_dir)
    ∷ (journal_block, padded (intent_log_bytes init_journal))
    ∷ (inode_bitmap_block, bitmap_block_bytes init_inode_bitmap)
    ∷ (free_extent_block, extent_node_bytes (init_free_extents blocks))
    ∷ (checkpoint_root_block, padded (checkpoint_root_bytes (init_checkpoint_root super blocks)))
    ∷ []

module _ (D : Disk) where
  open D use {Fd, pwrite}

  -- Whole blocks written one after the other, up to the first failure.
  unfoldable pub write_blocks : Fd → List (ℕ × List ℕ) → Rc × Fd
  write_blocks fd [] = (ok tt, fd)
  write_blocks fd ((block, bytes) ∷ more) =
      let w = pwrite fd (offset_of block) bytes in
      elim w.0 [ err e ↦ (err e, w.1) | ok _ ↦ write_blocks w.1 more ]

  unfoldable pub write_bootstrap : System → MkfsOptions → ℕ → Fd → Rc × Fd
  write_bootstrap system options blocks fd =
      let cleared = write_blocks fd (zero_blocks bootstrap_blocks 0) in
      elim cleared.0 [
        | err e ↦ (err e, cleared.1)
        | ok _ ↦ elim (fill_uuid system.random) [
          | err e ↦ (err e, cleared.1)
          | ok uuid ↦
              let written = write_blocks cleared.1 (bootstrap_writes system options blocks uuid) in
              elim written.0 [ err e ↦ (err e, written.1) | ok _ ↦ (system.fsync, written.1) ]
        ]
      ]
