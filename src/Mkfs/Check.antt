-- ===== src/Mkfs/Check.antt =====
-- aetherfsprogs/mkfs.c: the validation of a new image, and `aetherfs_run_mkfs`.
use aetherfs.Base.{
  ℕ, zero, suc, ◌+◌, ◌-◌, ◌/◌, Bool, true, false, ◌||◌, not, List, [], ◌∷◌, ◌++◌, Result, Rc, ok,
  err, einval, ebade, euclean, eopnotsupp, ◌>>=◌, ◌>>◌, fail_if, ◌==◌, ◌/=◌, ltb, if◌then◌else◌,
  get_or, u32, u64, sub64, drop, Option, none, some,
}
use aetherfs.Format.{
  magic, version, def_block_size, blocks_per_ag, max_inodes, superblock_block, root_inode_block,
  root_dir_block, journal_block, inode_bitmap_block, free_extent_block, checkpoint_root_block,
  data_start_block, extent_log_max, root_ino, checkpoint_root_magic, checkpoint_root_version,
}
use aetherfs.Format.Structs.Super.{
  Super, IntentLog, super_of_bytes, super_checksum, intent_log_of_bytes, journal_checksum,
}
use aetherfs.Format.Structs.Checkpoint.{
  CheckpointRoot, checkpoint_root_of_bytes, checkpoint_root_checksum,
}
use aetherfs.Format.Structs.Inode.{Inode, inode_of_bytes, inode_checksum}
use aetherfs.Format.Structs.Extent.{Extent, ExtentNode, extent_node_of_bytes, extent_node_checksum}
use aetherfs.Format.Structs.Bitmap.{BitmapBlock, bitmap_block_of_bytes, bitmap_checksum}
use aetherfs.Format.Structs.Dirent.{dir_entry_of_bytes, dir_entry_name, dirent_checksum}
use aetherfs.Bitmap.{bitmap_count_set}
use aetherfs.Image.{offset_of}
use aetherfs.Image.Device.{Disk}
use aetherfs.Mkfs.{MkfsOptions, System, no_extent, write_bootstrap}
use aetherfs.Mkfs.Target.{Target, prepare_target}

unfoldable pub validate_super : ℕ → Super → Rc
validate_super blocks super =
    fail_if (super.s_magic /= magic) einval
    >> fail_if (super.s_version /= version) einval
    >> fail_if (super.s_blocksize /= def_block_size) einval
    >> fail_if (super.s_blocks_count /= blocks) einval
    >> fail_if (super.s_free_blocks /= sub64 blocks data_start_block) einval
    >> fail_if (super.s_checkpoint_0 /= checkpoint_root_block) einval
    >> fail_if (super.s_inodes_count /= max_inodes) einval
    >> fail_if (super.s_meta_tree /= inode_bitmap_block) einval
    >> fail_if (super.s_extent_tree /= 0) einval
    >> fail_if (super.s_free_tree /= free_extent_block) einval
    >> fail_if (super.s_snap_tree /= 0) einval
    >> fail_if (super.s_checksum /= super_checksum super) ebade

unfoldable pub validate_checkpoint_root : ℕ → CheckpointRoot → Rc
validate_checkpoint_root blocks root =
    fail_if (root.cr_magic /= checkpoint_root_magic) einval
    >> fail_if (root.cr_version /= checkpoint_root_version) einval
    >> fail_if (root.cr_generation /= 1) einval
    >> fail_if (root.cr_ag_count /= u32 (u64 (blocks + blocks_per_ag - 1) / blocks_per_ag)) einval
    >> fail_if (root.cr_region_count /= 2) einval
    >> fail_if (root.cr_super_block /= superblock_block) einval
    >> fail_if (root.cr_root_inode_block /= root_inode_block) einval
    >> fail_if (root.cr_root_dir_block /= root_dir_block) einval
    >> fail_if (root.cr_journal_block /= journal_block) einval
    >> fail_if (root.cr_inode_bitmap_block /= inode_bitmap_block) einval
    >> fail_if (root.cr_free_space_root /= free_extent_block) einval
    >> fail_if (root.cr_metadata_tree_root /= inode_bitmap_block) einval
    >> fail_if (root.cr_extent_tree_root /= 0) einval
    >> fail_if (root.cr_snapshot_root /= 0) einval
    >> fail_if (root.cr_metadata_region_start /= superblock_block) einval
    >> fail_if (root.cr_metadata_region_end /= checkpoint_root_block) einval
    >> fail_if (root.cr_data_region_start /= data_start_block) einval
    >> fail_if (root.cr_data_region_end /= blocks) einval
    >> fail_if
        (not (root.cr_special_metadata_root == 0)
          || (not (root.cr_cache_root == 0) || not (root.cr_parity_root == 0)))
        einval
    >> fail_if (root.cr_checksum /= checkpoint_root_checksum root) ebade

unfoldable pub validate_root_inode : Inode → Rc
validate_root_inode inode =
    fail_if (inode.i_checksum /= inode_checksum inode) ebade
    >> fail_if (inode.i_mode /= 16877) einval
    >> fail_if (inode.i_extent_root /= root_dir_block) einval

-- `memcmp(entry->name, name, strlen(name)) != 0`.
unfoldable pub bytes_differ : List ℕ → List ℕ → Bool
bytes_differ [] ys = false
bytes_differ (x ∷ xs) [] = true
bytes_differ (x ∷ xs) (y ∷ ys) = x /= y || bytes_differ xs ys

-- One of the two entries of the root directory, in the memory that starts at it.
unfoldable pub validate_root_entry : ℕ → List ℕ → List ℕ → Rc
validate_root_entry name_len name memory =
    let entry = dir_entry_of_bytes memory in
    fail_if (entry.ino /= root_ino) einval
    >> fail_if (entry.name_len /= name_len || bytes_differ name (dir_entry_name memory name_len))
        einval
    >> fail_if (entry.checksum /= dirent_checksum memory entry.name_len) ebade

-- `beyond` is the memory after the block: nothing bounds the `rec_len` of the first entry.
unfoldable pub validate_root_dir : List ℕ → List ℕ → Rc
validate_root_dir beyond block =
    let memory = block ++ beyond in
    validate_root_entry 1 (46 ∷ []) memory
    >> validate_root_entry 2 (46 ∷ 46 ∷ []) (drop (dir_entry_of_bytes memory).rec_len memory)

unfoldable pub validate_journal : IntentLog → Rc
validate_journal journal =
    fail_if (journal.il_checksum /= journal_checksum journal) ebade
    >> fail_if (journal.il_outstanding /= 0) euclean

unfoldable pub validate_bitmap : ℕ → ℕ → BitmapBlock → Rc
validate_bitmap expected_bits expected_set_bits bitmap =
    let actual_set_bits = bitmap_count_set bitmap in
    fail_if (bitmap.bb_total_bits /= expected_bits) einval
    >> fail_if (bitmap.bb_set_bits /= actual_set_bits) ebade
    >> fail_if (actual_set_bits /= expected_set_bits) einval
    >> fail_if (bitmap.bb_checksum /= bitmap_checksum bitmap) ebade

-- The loop over the free extents: how many blocks they have.
unfoldable pub free_extents_total : List Extent → ℕ → ℕ → ℕ → ℕ → ℕ → Result ℕ
free_extents_total extents blocks zero index last_end free_blocks = ok free_blocks
free_extents_total extents blocks (suc n) index last_end free_blocks =
    let extent = get_or extents index no_extent in
    let start = extent.e_pstart in
    let len = extent.e_len in
    fail_if (len == 0) einval
    >> fail_if (ltb start data_start_block || ltb start last_end) einval
    >> fail_if (ltb blocks (u64 (start + len))) einval
    >> free_extents_total extents blocks n (index + 1) (u64 (start + len)) (u64 (free_blocks + len))

unfoldable pub validate_free_extents : ℕ → ExtentNode → Rc
validate_free_extents blocks node =
    fail_if (node.en_checksum /= extent_node_checksum node) ebade
    >> fail_if (node.en_next /= 0) einval
    >> fail_if (node.en_count == 0 || ltb extent_log_max node.en_count) einval
    >> free_extents_total node.en_extents blocks node.en_count 0 data_start_block 0
    >>= λ free_blocks. fail_if (free_blocks /= sub64 blocks data_start_block) einval

module _ (D : Disk) where
  open D use {Fd, pread}

  -- A block is read and looked at.
  abbrev pub check_block : Fd → ℕ → (List ℕ → Rc) → Rc
  check_block fd block check = pread fd (offset_of block) >>= check

  -- The validations, in the order of `aetherfs_run_mkfs`.
  unfoldable pub validate_bootstrap : List ℕ → ℕ → Fd → Rc
  validate_bootstrap beyond blocks fd =
      check_block fd superblock_block (λ b. validate_super blocks (super_of_bytes b))
      >> check_block fd root_inode_block (λ b. validate_root_inode (inode_of_bytes b))
      >> check_block fd root_dir_block (λ b. validate_root_dir beyond b)
      >> check_block fd journal_block (λ b. validate_journal (intent_log_of_bytes b))
      >> check_block fd inode_bitmap_block
          (λ b. validate_bitmap max_inodes 1 (bitmap_block_of_bytes b))
      >> check_block fd free_extent_block
          (λ b. validate_free_extents blocks (extent_node_of_bytes b))
      >> check_block fd checkpoint_root_block
          (λ b. validate_checkpoint_root blocks (checkpoint_root_of_bytes b))

  -- The result, and the file as it is left where it could be opened.
  unfoldable pub run_mkfs : System → Target Fd → List ℕ → MkfsOptions → Rc × Option Fd
  run_mkfs system target beyond options =
      if options.block_size /= def_block_size then (err eopnotsupp, none) else (elim target.opened [
        | err e ↦ (err e, none)
        | ok fd ↦
            let prepared = prepare_target D target options fd in
            elim prepared.0 [
              | err e ↦ (err e, some prepared.1)
              | ok blocks ↦
                  let written = write_bootstrap D system options blocks prepared.1 in
                  (written.0 >> validate_bootstrap beyond blocks written.1, some written.1)
            ]
      ])
