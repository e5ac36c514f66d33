-- ===== src/Volume.antt =====
-- aetherfsprogs/image.c: the bootstrap structures of an image, their validation, `aetherfs_image_load`
-- and the functions that write them.

pub mod Nodes
pub mod Sound
pub mod Loads
pub mod Accepted
use aetherfs.Base.{
  ℕ, zero, suc, ◌+◌, ◌-◌, ◌^◌, Bool, ◌||◌, not, List, [], ◌∷◌, ◌++◌, Result, Rc, ok, err, einval,
  eilseq, ◌>>=◌, ◌>>◌, fail_if, ltb, leb, ◌==◌, ◌/=◌, get_or, length, replicate, take, bit_and, u32,
  u64, sub64,
}
use aetherfs.Format.{
  magic, version, def_block_size, bootstrap_blocks, checkpoint_root_block, max_inodes,
  inode_bitmap_block, free_extent_block, root_dir_block, superblock_block, journal_block,
  checkpoint_root_magic, checkpoint_root_version, data_start_block, extent_log_max,
  checksums_per_block, pool_magic, pool_version, max_devices, profile_tiered, root_inode_block,
}
use aetherfs.Format.Structs.Super.{
  Super, IntentLog, super_bytes, super_of_bytes, super_checksum, intent_log_bytes,
  intent_log_of_bytes, journal_checksum,
}
use aetherfs.Format.Structs.Checkpoint.{
  CheckpointRoot, checkpoint_root_of_bytes, checkpoint_root_checksum,
}
use aetherfs.Format.Structs.Extent.{
  ExtentNode, extent_node_bytes, extent_node_of_bytes, extent_node_checksum, ChecksumBlock,
  checksum_block_bytes, checksum_block_of_bytes, checksum_block_checksum,
}
use aetherfs.Format.Structs.Label.{PoolLabel, PoolMember, pool_label_checksum}
use aetherfs.Format.Structs.Bitmap.{BitmapBlock, bitmap_block_of_bytes, bitmap_checksum}
use aetherfs.Bitmap.{bitmap_count_set}
use aetherfs.Pool.{Pool, no_pool_member}
use aetherfs.Image.{Image, image_read_block, image_write_block}
use aetherfs.Image.Device.{Disk}

-- The members of a label, from `index` on, `n` of them.
unfoldable pub label_members_validate : List PoolMember → ℕ → ℕ → Rc
label_members_validate members zero index = ok tt
label_members_validate members (suc n) index =
    let member = get_or members index no_pool_member in
    fail_if (member.pm_index /= index) einval
    >> fail_if (ltb member.pm_total_blocks bootstrap_blocks) einval
    >> fail_if (ltb (sub64 member.pm_total_blocks data_start_block) member.pm_data_blocks) einval
    >> label_members_validate members n (index + 1)

-- `mask & ~limit_mask`, of a 32-bit mask.
abbrev pub outside : ℕ → ℕ → ℕ
outside limit_mask mask = bit_and mask (2 ^ 32 - 1 - limit_mask)

unfoldable pub pool_label_validate : PoolLabel → Rc
pool_label_validate label =
    let count = label.pl_member_count in
    let limit_mask = 2 ^ count - 1 in
    fail_if (label.pl_magic /= pool_magic) einval
    >> fail_if (label.pl_version /= pool_version) einval
    >> fail_if (label.pl_checksum /= pool_label_checksum label) eilseq
    >> fail_if (count == 0 || ltb max_devices count) einval
    >> fail_if (leb count label.pl_member_index) einval
    >> fail_if (ltb profile_tiered label.pl_profile) einval
    >> fail_if (label.pl_stripe_blocks == 0) einval
    >> fail_if (ltb label.pl_logical_blocks data_start_block) einval
    >> fail_if (label.pl_logical_blocks /= u64 (label.pl_logical_data_blocks + data_start_block))
        einval
    >> fail_if
        (not (outside limit_mask label.pl_metadata_mask == 0)
          || (not (outside limit_mask label.pl_data_mask == 0)
              || (not (outside limit_mask label.pl_log_mask == 0)
                  || not (outside limit_mask label.pl_cache_mask == 0))))
        einval
    >> label_members_validate label.pl_members count 0

-- `struct aetherfs_image` as far as loading goes. `inode_table` and `root_dir` are blocks of bytes.
pub record Loaded : Type 0 where
  pub blocks : ℕ
  pub super : Super
  pub checkpoint_root : CheckpointRoot
  pub journal : IntentLog
  pub inode_bitmap : BitmapBlock
  pub free_extents : ExtentNode
  pub inode_table : List ℕ
  pub root_dir : List ℕ

unfoldable pub image_validate_super : Pool → Super → Rc
image_validate_super pool super =
    fail_if (super.s_magic /= magic) einval
    >> fail_if (super.s_version /= version) einval
    >> fail_if (super.s_blocksize /= def_block_size) einval
    >> fail_if (super.s_checksum /= super_checksum super) eilseq
    >> fail_if (ltb super.s_blocks_count bootstrap_blocks) einval
    >> fail_if (super.s_blocks_count /= pool.label.pl_logical_blocks) einval
    >> fail_if (super.s_device_count /= pool.member_count) einval
    >> fail_if (super.s_checkpoint_0 /= checkpoint_root_block) einval
    >> fail_if (super.s_inodes_count /= max_inodes) einval
    >> fail_if (super.s_meta_tree /= inode_bitmap_block) einval
    >> fail_if (super.s_extent_tree /= 0) einval
    >> fail_if (super.s_free_tree /= free_extent_block) einval
    >> fail_if (super.s_snap_tree /= 0) einval

unfoldable pub image_validate_checkpoint_root : ℕ → Super → CheckpointRoot → Rc
image_validate_checkpoint_root blocks super root =
    fail_if (root.cr_magic /= checkpoint_root_magic) einval
    >> fail_if (root.cr_version /= checkpoint_root_version) einval
    >> fail_if (root.cr_checksum /= checkpoint_root_checksum root) eilseq
    >> fail_if (root.cr_generation /= super.s_generation) einval
    >> fail_if (root.cr_ag_count /= super.s_ag_count) einval
    >> fail_if (root.cr_region_count /= 2) einval
    >> fail_if (root.cr_super_block /= superblock_block) einval
    >> fail_if (root.cr_root_inode_block /= super.s_root_inode) einval
    >> fail_if (root.cr_root_dir_block /= root_dir_block) einval
    >> fail_if (root.cr_journal_block /= super.s_journal_addr) einval
    >> fail_if (root.cr_inode_bitmap_block /= super.s_meta_tree) einval
    >> fail_if (root.cr_free_space_root /= super.s_free_tree) einval
    >> fail_if (root.cr_metadata_tree_root /= super.s_meta_tree) einval
    >> fail_if (root.cr_extent_tree_root /= super.s_extent_tree) einval
    >> fail_if (root.cr_snapshot_root /= super.s_snap_tree) einval
    >> fail_if (root.cr_scrub_journal /= super.s_scrub_journal) einval
    >> fail_if (root.cr_health_journal /= super.s_health_journal) einval
    >> fail_if (root.cr_metadata_region_start /= superblock_block) einval
    >> fail_if (root.cr_metadata_region_end /= checkpoint_root_block) einval
    >> fail_if (root.cr_data_region_start /= data_start_block) einval
    >> fail_if (root.cr_data_region_end /= blocks) einval
    >> fail_if
        (not (root.cr_special_metadata_root == 0)
          || (not (root.cr_cache_root == 0) || not (root.cr_parity_root == 0)))
        einval

unfoldable pub image_validate_bitmap : BitmapBlock → ℕ → Rc
image_validate_bitmap bitmap expected_bits =
    fail_if (bitmap.bb_total_bits /= expected_bits) einval
    >> fail_if (bitmap.bb_checksum /= bitmap_checksum bitmap) eilseq
    >> fail_if (bitmap.bb_set_bits /= bitmap_count_set bitmap) eilseq

-- `uint8_t block[4096] = {0}` with a structure copied to its front.
abbrev pub padded : List ℕ → List ℕ
padded bytes = bytes ++ replicate (def_block_size - length bytes) 0

module _ (D : Disk) where
  open D use {Fd}

  unfoldable pub read_extent_node : Image Fd → ℕ → Result ExtentNode
  read_extent_node image blocknr = image_read_block D image blocknr >>= λ block.
      let node = extent_node_of_bytes block in
      fail_if (node.en_checksum /= extent_node_checksum node) eilseq
      >> fail_if (ltb extent_log_max node.en_count) einval
      >> ok node

  -- A function that writes a structure also sets the checksum of the caller's copy.
  unfoldable pub write_extent_node : Image Fd → ℕ → ExtentNode → (Rc × Image Fd) × ExtentNode
  write_extent_node image blocknr node =
      let sealed = record node { en_checksum = extent_node_checksum node } in
      (image_write_block D image blocknr (extent_node_bytes sealed), sealed)

  unfoldable pub read_checksum_block : Image Fd → ℕ → Result ChecksumBlock
  read_checksum_block image blocknr = image_read_block D image blocknr >>= λ bytes.
      let block = checksum_block_of_bytes bytes in
      fail_if (block.cb_checksum /= checksum_block_checksum block) eilseq
      >> fail_if (ltb checksums_per_block block.cb_entries) einval
      >> ok block

  unfoldable pub write_checksum_block :
      Image Fd → ℕ → ChecksumBlock → (Rc × Image Fd) × ChecksumBlock
  write_checksum_block image blocknr block =
      let sealed = record block { cb_checksum = checksum_block_checksum block } in
      (image_write_block D image blocknr (checksum_block_bytes sealed), sealed)

  unfoldable pub image_load : Image Fd → Result Loaded
  image_load image = image_read_block D image superblock_block >>= λ super_block.
      let super = super_of_bytes super_block in
      image_validate_super image.pool super
      >> image_read_block D image super.s_checkpoint_0
      >>= λ root_block.
          let root = checkpoint_root_of_bytes root_block in
          image_validate_checkpoint_root super.s_blocks_count super root
          >> image_read_block D image root.cr_journal_block
          >>= λ journal_bytes.
              let journal = intent_log_of_bytes journal_bytes in
              fail_if (journal.il_checksum /= journal_checksum journal) eilseq
              >> image_read_block D image root.cr_inode_bitmap_block
              >>= λ bitmap_bytes.
                  let bitmap = bitmap_block_of_bytes bitmap_bytes in
                  image_validate_bitmap bitmap max_inodes
                  >> read_extent_node image root.cr_free_space_root
                  >>= λ free_extents.
                      image_read_block D image root.cr_root_inode_block >>= λ inode_table.
                      image_read_block D image root.cr_root_dir_block >>= λ root_dir. ok (record {
                        blocks = super.s_blocks_count;
                        super = super;
                        checkpoint_root = root;
                        journal = journal;
                        inode_bitmap = bitmap;
                        free_extents = free_extents;
                        inode_table = inode_table;
                        root_dir = root_dir;
                      })

  unfoldable pub image_write_super : Image Fd → Super → (Rc × Image Fd) × Super
  image_write_super image super =
      let sealed = record super { s_checksum = super_checksum super } in
      (image_write_block D image superblock_block (padded (super_bytes sealed)), sealed)

  unfoldable pub image_write_journal : Image Fd → IntentLog → (Rc × Image Fd) × IntentLog
  image_write_journal image journal =
      let sealed = record journal { il_checksum = journal_checksum journal } in
      (image_write_block D image journal_block (padded (intent_log_bytes sealed)), sealed)

  unfoldable pub image_write_inode_table : Image Fd → List ℕ → Rc × Image Fd
  image_write_inode_table image inode_table = image_write_block D image root_inode_block inode_table

  unfoldable pub image_write_free_extents : Image Fd → ExtentNode → (Rc × Image Fd) × ExtentNode
  image_write_free_extents image free_extents =
      write_extent_node image free_extent_block free_extents
