-- ===== src/Volume/Sound.antt =====
-- What the validations of aetherfsprogs/image.c say of the structures that pass them.
use aetherfs.Base.{
  ℕ, ◌≤◌, ◌≡◌, ok, einval, eilseq, arith, fail_if, ◌>>◌, ◌/=◌, ltb, seq_ok, /=→eq, Rc, Errno,
  ge→ltb, ◌==◌, ◌||◌, not,
}
use aetherfs.Format.{
  magic, version, def_block_size, bootstrap_blocks, checkpoint_root_block, max_inodes,
  inode_bitmap_block, free_extent_block, checkpoint_root_magic, checkpoint_root_version,
  root_dir_block, superblock_block, data_start_block,
}
use aetherfs.Format.Structs.Super.{Super, super_checksum}
use aetherfs.Format.Structs.Checkpoint.{CheckpointRoot, checkpoint_root_checksum}
use aetherfs.Format.Structs.Bitmap.{BitmapBlock, bitmap_checksum}
use aetherfs.Bitmap.{bitmap_count_set}
use aetherfs.Pool.{Pool}
use aetherfs.Volume.{image_validate_super, image_validate_checkpoint_root, image_validate_bitmap}

-- A test that was passed before the rest of a chain.
last : (m : Rc) (a b : ℕ) (e : Errno) → (m >> fail_if (a /= b) e) ≡ ok tt → (m ≡ ok tt) × (a ≡ b)
last m a b e h =
    let (before, this) = seq_ok m (fail_if (a /= b) e) tt h in (before, ground (arith, /=→eq a b))

pub record IsSuper (pool : Pool) (super : Super) : Type 0 where
  pub magic_is : super.s_magic ≡ magic
  pub version_is : super.s_version ≡ version
  pub blocksize_is : super.s_blocksize ≡ def_block_size
  pub sealed : super.s_checksum ≡ super_checksum super
  pub room : bootstrap_blocks ≤ super.s_blocks_count
  pub whole_pool : super.s_blocks_count ≡ pool.label.pl_logical_blocks
  pub all_members : super.s_device_count ≡ pool.member_count
  pub root_is : super.s_checkpoint_0 ≡ checkpoint_root_block
  pub inodes_are : super.s_inodes_count ≡ max_inodes
  pub bitmap_is : super.s_meta_tree ≡ inode_bitmap_block
  pub no_extent_tree : super.s_extent_tree ≡ 0
  pub free_is : super.s_free_tree ≡ free_extent_block
  pub no_snapshots : super.s_snap_tree ≡ 0

pub image_validate_super-IsSuper :
    (pool : Pool) (super : Super) → image_validate_super pool super ≡ ok tt → IsSuper pool super
unfolding image_validate_super
image_validate_super-IsSuper pool super h =
    let (h12, snap) = last _ super.s_snap_tree 0 einval h in
    let (h11, free) = last _ super.s_free_tree free_extent_block einval h12 in
    let (h10, tree) = last _ super.s_extent_tree 0 einval h11 in
    let (h9, meta) = last _ super.s_meta_tree inode_bitmap_block einval h10 in
    let (h8, inodes) = last _ super.s_inodes_count max_inodes einval h9 in
    let (h7, root) = last _ super.s_checkpoint_0 checkpoint_root_block einval h8 in
    let (h6, members) = last _ super.s_device_count pool.member_count einval h7 in
    let (h5, whole) = last _ super.s_blocks_count pool.label.pl_logical_blocks einval h6 in
    let (h4, roomy) = seq_ok _ (fail_if (ltb super.s_blocks_count bootstrap_blocks) einval) tt h5 in
    let (h3, seal) = last _ super.s_checksum (super_checksum super) eilseq h4 in
    let (h2, size) = last _ super.s_blocksize def_block_size einval h3 in
    let (h1, v) =
      last (fail_if (super.s_magic /= magic) einval) super.s_version version einval h2 in
    record {
      magic_is = ground (arith, /=→eq super.s_magic magic);
      version_is = v;
      blocksize_is = size;
      sealed = seal;
      room = ground arith;
      whole_pool = whole;
      all_members = members;
      root_is = root;
      inodes_are = inodes;
      bitmap_is = meta;
      no_extent_tree = tree;
      free_is = free;
      no_snapshots = snap;
    }

-- The converse of a test: two equal numbers pass it.
passes : (a b : ℕ) (e : Errno) → a ≡ b → fail_if (a /= b) e ≡ ok tt
passes a b e h = ground arith

pub IsSuper-image_validate_super :
    (pool : Pool) (super : Super) → IsSuper pool super → image_validate_super pool super ≡ ok tt
unfolding image_validate_super
IsSuper-image_validate_super pool super w = rw (
  passes super.s_magic magic einval w.magic_is,
  passes super.s_version version einval w.version_is,
  passes super.s_blocksize def_block_size einval w.blocksize_is,
  passes super.s_checksum (super_checksum super) eilseq w.sealed,
  ge→ltb super.s_blocks_count bootstrap_blocks w.room,
  passes super.s_blocks_count pool.label.pl_logical_blocks einval w.whole_pool,
  passes super.s_device_count pool.member_count einval w.all_members,
  passes super.s_checkpoint_0 checkpoint_root_block einval w.root_is,
  passes super.s_inodes_count max_inodes einval w.inodes_are,
  passes super.s_meta_tree inode_bitmap_block einval w.bitmap_is,
  passes super.s_extent_tree 0 einval w.no_extent_tree,
  passes super.s_free_tree free_extent_block einval w.free_is,
  passes super.s_snap_tree 0 einval w.no_snapshots,
)

pub record IsRoot (super : Super) (root : CheckpointRoot) : Type 0 where
  pub magic_is : root.cr_magic ≡ checkpoint_root_magic
  pub version_is : root.cr_version ≡ checkpoint_root_version
  pub sealed : root.cr_checksum ≡ checkpoint_root_checksum root
  pub same_generation : root.cr_generation ≡ super.s_generation
  pub same_groups : root.cr_ag_count ≡ super.s_ag_count
  pub two_regions : root.cr_region_count ≡ 2
  pub super_at : root.cr_super_block ≡ superblock_block
  pub inodes_at : root.cr_root_inode_block ≡ super.s_root_inode
  pub dir_at : root.cr_root_dir_block ≡ root_dir_block
  pub journal_at : root.cr_journal_block ≡ super.s_journal_addr
  pub bitmap_at : root.cr_inode_bitmap_block ≡ super.s_meta_tree
  pub free_at : root.cr_free_space_root ≡ super.s_free_tree
  pub metadata_tree : root.cr_metadata_tree_root ≡ super.s_meta_tree
  pub extent_tree : root.cr_extent_tree_root ≡ super.s_extent_tree
  pub snapshots : root.cr_snapshot_root ≡ super.s_snap_tree
  pub scrub : root.cr_scrub_journal ≡ super.s_scrub_journal
  pub health : root.cr_health_journal ≡ super.s_health_journal
  pub metadata_start : root.cr_metadata_region_start ≡ superblock_block
  pub metadata_end : root.cr_metadata_region_end ≡ checkpoint_root_block
  pub data_start : root.cr_data_region_start ≡ data_start_block
  pub data_end : root.cr_data_region_end ≡ super.s_blocks_count
  pub no_special : root.cr_special_metadata_root ≡ 0
  pub no_cache : root.cr_cache_root ≡ 0
  pub no_parity : root.cr_parity_root ≡ 0

pub image_validate_checkpoint_root-IsRoot :
    (super : Super) (root : CheckpointRoot)
    → image_validate_checkpoint_root super.s_blocks_count super root ≡ ok tt
    → IsRoot super root
unfolding image_validate_checkpoint_root
image_validate_checkpoint_root-IsRoot super root h =
    let others =
      fail_if
        (not (root.cr_special_metadata_root == 0)
          || (not (root.cr_cache_root == 0) || not (root.cr_parity_root == 0)))
        einval in
    let (h20, zeros) = seq_ok _ others tt h in
    let (h19, t20) = last _ root.cr_data_region_end super.s_blocks_count einval h20 in
    let (h18, t19) = last _ root.cr_data_region_start data_start_block einval h19 in
    let (h17, t18) = last _ root.cr_metadata_region_end checkpoint_root_block einval h18 in
    let (h16, t17) = last _ root.cr_metadata_region_start superblock_block einval h17 in
    let (h15, t16) = last _ root.cr_health_journal super.s_health_journal einval h16 in
    let (h14, t15) = last _ root.cr_scrub_journal super.s_scrub_journal einval h15 in
    let (h13, t14) = last _ root.cr_snapshot_root super.s_snap_tree einval h14 in
    let (h12, t13) = last _ root.cr_extent_tree_root super.s_extent_tree einval h13 in
    let (h11, t12) = last _ root.cr_metadata_tree_root super.s_meta_tree einval h12 in
    let (h10, t11) = last _ root.cr_free_space_root super.s_free_tree einval h11 in
    let (h9, t10) = last _ root.cr_inode_bitmap_block super.s_meta_tree einval h10 in
    let (h8, t9) = last _ root.cr_journal_block super.s_journal_addr einval h9 in
    let (h7, t8) = last _ root.cr_root_dir_block root_dir_block einval h8 in
    let (h6, t7) = last _ root.cr_root_inode_block super.s_root_inode einval h7 in
    let (h5, t6) = last _ root.cr_super_block superblock_block einval h6 in
    let (h4, t5) = last _ root.cr_region_count 2 einval h5 in
    let (h3, t4) = last _ root.cr_ag_count super.s_ag_count einval h4 in
    let (h2, t3) = last _ root.cr_generation super.s_generation einval h3 in
    let (h1, t2) = last _ root.cr_checksum (checkpoint_root_checksum root) eilseq h2 in
    let (h0, t1) =
      last (fail_if (root.cr_magic /= checkpoint_root_magic) einval) root.cr_version
        checkpoint_root_version einval h1 in
    record {
      magic_is = ground (arith, /=→eq root.cr_magic checkpoint_root_magic);
      version_is = t1;
      sealed = t2;
      same_generation = t3;
      same_groups = t4;
      two_regions = t5;
      super_at = t6;
      inodes_at = t7;
      dir_at = t8;
      journal_at = t9;
      bitmap_at = t10;
      free_at = t11;
      metadata_tree = t12;
      extent_tree = t13;
      snapshots = t14;
      scrub = t15;
      health = t16;
      metadata_start = t17;
      metadata_end = t18;
      data_start = t19;
      data_end = t20;
      no_special = ground arith;
      no_cache = ground arith;
      no_parity = ground arith;
    }

pub IsRoot-image_validate_checkpoint_root :
    (super : Super) (root : CheckpointRoot)
    → IsRoot super root
    → image_validate_checkpoint_root super.s_blocks_count super root ≡ ok tt
unfolding image_validate_checkpoint_root
IsRoot-image_validate_checkpoint_root super root w = rw (
  passes root.cr_magic checkpoint_root_magic einval w.magic_is,
  passes root.cr_version checkpoint_root_version einval w.version_is,
  passes root.cr_checksum (checkpoint_root_checksum root) eilseq w.sealed,
  passes root.cr_generation super.s_generation einval w.same_generation,
  passes root.cr_ag_count super.s_ag_count einval w.same_groups,
  passes root.cr_region_count 2 einval w.two_regions,
  passes root.cr_super_block superblock_block einval w.super_at,
  passes root.cr_root_inode_block super.s_root_inode einval w.inodes_at,
  passes root.cr_root_dir_block root_dir_block einval w.dir_at,
  passes root.cr_journal_block super.s_journal_addr einval w.journal_at,
  passes root.cr_inode_bitmap_block super.s_meta_tree einval w.bitmap_at,
  passes root.cr_free_space_root super.s_free_tree einval w.free_at,
  passes root.cr_metadata_tree_root super.s_meta_tree einval w.metadata_tree,
  passes root.cr_extent_tree_root super.s_extent_tree einval w.extent_tree,
  passes root.cr_snapshot_root super.s_snap_tree einval w.snapshots,
  passes root.cr_scrub_journal super.s_scrub_journal einval w.scrub,
  passes root.cr_health_journal super.s_health_journal einval w.health,
  passes root.cr_metadata_region_start superblock_block einval w.metadata_start,
  passes root.cr_metadata_region_end checkpoint_root_block einval w.metadata_end,
  passes root.cr_data_region_start data_start_block einval w.data_start,
  passes root.cr_data_region_end super.s_blocks_count einval w.data_end,
  w.no_special,
  w.no_cache,
  w.no_parity,
)

pub record IsInodeBitmap (bitmap : BitmapBlock) (bits : ℕ) : Type 0 where
  pub size : bitmap.bb_total_bits ≡ bits
  pub sealed : bitmap.bb_checksum ≡ bitmap_checksum bitmap
  pub counted : bitmap.bb_set_bits ≡ bitmap_count_set bitmap

pub image_validate_bitmap-IsInodeBitmap :
    (bitmap : BitmapBlock) (bits : ℕ)
    → image_validate_bitmap bitmap bits ≡ ok tt
    → IsInodeBitmap bitmap bits
unfolding image_validate_bitmap
image_validate_bitmap-IsInodeBitmap bitmap bits h =
    let (h1, t2) = last _ bitmap.bb_set_bits (bitmap_count_set bitmap) eilseq h in
    let (h0, t1) =
      last (fail_if (bitmap.bb_total_bits /= bits) einval) bitmap.bb_checksum
        (bitmap_checksum bitmap) eilseq h1 in
    record { size = ground (arith, /=→eq bitmap.bb_total_bits bits); sealed = t1; counted = t2 }

pub IsInodeBitmap-image_validate_bitmap :
    (bitmap : BitmapBlock) (bits : ℕ)
    → IsInodeBitmap bitmap bits
    → image_validate_bitmap bitmap bits ≡ ok tt
unfolding image_validate_bitmap
IsInodeBitmap-image_validate_bitmap bitmap bits w = rw (
  passes bitmap.bb_total_bits bits einval w.size,
  passes bitmap.bb_checksum (bitmap_checksum bitmap) eilseq w.sealed,
  passes bitmap.bb_set_bits (bitmap_count_set bitmap) eilseq w.counted,
)
